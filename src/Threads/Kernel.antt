-- ===== src/Threads/Kernel.antt =====
-- threads/thread.c and threads/interrupt.c: the scheduler.
-- An operation that gives the processor away is cut where it sets a context: it ends with
-- `switched`, and the thread that is left goes on with `resume` when its context is set again.
-- What `malloc` returns are arguments. The signal mask is a flag.
use ece344_operating_systems.Base.{
  ℕ, Bool, true, false, Option, none, some, ltb, ◌==◌, if◌then◌else◌,
}
use ece344_operating_systems.Base.Int.{ℤ, negsuc}
use ece344_operating_systems.Base.Run.{Run, ok, halt, faulted, Cmd, pure, ◌>>◌, modify}
use ece344_operating_systems.Threads.Memory.{Ptr, Memory, write}
use ece344_operating_systems.Threads.Queue.{WaitQueue, Queued, id_of}

abbrev pub thread_max_threads : ℕ
thread_max_threads = 1024

-- THREAD_ANY, THREAD_SELF, THREAD_INVALID, THREAD_NONE, THREAD_NOMORE and THREAD_NOMEMORY
abbrev pub thread_any : ℤ
thread_any = negsuc 0

abbrev pub thread_self : ℤ
thread_self = negsuc 1

abbrev pub thread_invalid : ℤ
thread_invalid = negsuc 2

abbrev pub thread_none : ℤ
thread_none = negsuc 3

abbrev pub thread_nomore : ℤ
thread_nomore = negsuc 4

abbrev pub thread_nomemory : ℤ
thread_nomemory = negsuc 5

-- struct lock
pub record Lock : Type 0 where
  pub locked : Bool
  pub thread : ℕ
  pub wq : Ptr

-- The globals of thread.c, the wait queues, locks and condition variables (each its wait queue) by
-- address, and whether interrupts are on.
pub record Kernel : Type 0 where
  pub memory : Memory
  pub rq : WaitQueue
  pub eq : WaitQueue
  pub queues : Ptr → Option WaitQueue
  pub threads : ℕ → Ptr
  pub wait_queues : ℕ → Ptr
  pub locks : Ptr → Option Lock
  pub cvs : Ptr → Option Ptr
  pub enabled : Bool

-- How an operation ends: it returns, or the context of the thread `to` is set and the operation
-- returns `result` when it is resumed, with interrupts as they were.
pub data Control : Type 0 where
  returned : ℤ → Control
  switched : (to : Ptr) (result : ℤ) (enabled : Bool) → Control
  started : Control

-- Calls on the queues.
abbrev pub set_rq : {A : Type 0} → Kernel → Run Queued A → Run Kernel A
set_rq s (ok a t) = ok a (record s { memory = t.memory; rq = t.queue })
set_rq s (halt h) = halt h

abbrev pub set_eq : {A : Type 0} → Kernel → Run Queued A → Run Kernel A
set_eq s (ok a t) = ok a (record s { memory = t.memory; eq = t.queue })
set_eq s (halt h) = halt h

abbrev pub set_wq : {A : Type 0} → Kernel → Ptr → Run Queued A → Run Kernel A
set_wq s p (ok a t) =
    ok a (record s { memory = t.memory; queues = write s.queues p (some t.queue) })
set_wq s p (halt h) = halt h

abbrev pub on_rq : {A : Type 0} → Cmd Queued A → Cmd Kernel A
on_rq m s = set_rq s (m (record { memory = s.memory; queue = s.rq }))

abbrev pub on_eq : {A : Type 0} → Cmd Queued A → Cmd Kernel A
on_eq m s = set_eq s (m (record { memory = s.memory; queue = s.eq }))

abbrev pub on_found : {A : Type 0} → Ptr → Cmd Queued A → Option WaitQueue → Cmd Kernel A
on_found p m none s = halt faulted
on_found p m (some q) s = set_wq s p (m (record { memory = s.memory; queue = q }))

abbrev pub on_queue : {A : Type 0} → Ptr → Cmd Queued A → Cmd Kernel A
on_queue p m s = on_found p m (s.queues p) s

abbrev pub found_queue : Option WaitQueue → Cmd Kernel WaitQueue
found_queue none s = halt faulted
found_queue (some q) s = ok q s

-- *queue
abbrev pub queue_at : Ptr → Cmd Kernel WaitQueue
queue_at p s = found_queue (s.queues p) s

abbrev pub get_kernel : {A : Type 0} → (Kernel → Cmd Kernel A) → Cmd Kernel A
get_kernel k s = k s s

-- The command behind one that returned; a switch stays a switch.
abbrev pub after : Control → Cmd Kernel Control → Cmd Kernel Control
after (returned a) k = k
after (switched to result enabled) k = pure (switched to result enabled)
after started k = pure started

-- interrupts_set, with whether interrupts were on before
unfoldable pub interrupts_set : Bool → Cmd Kernel Bool
interrupts_set enabled s = ok s.enabled (record s { enabled = enabled })

abbrev pub interrupts_on : Cmd Kernel Bool
interrupts_on = interrupts_set true

abbrev pub interrupts_off : Cmd Kernel Bool
interrupts_off = interrupts_set false

-- interrupts_set(enabled); return a;
abbrev pub leave : Bool → ℤ → Cmd Kernel Control
leave enabled a = interrupts_set enabled >> pure (returned a)

abbrev pub set_slot : (ℕ → Ptr) → ℕ → Ptr → ℕ → Ptr
set_slot f i p j = if i == j then p else f j

-- threads[i], outside the array a fault
abbrev pub get_thread : ℕ → Cmd Kernel Ptr
get_thread i s = if ltb i thread_max_threads then ok (s.threads i) s else halt faulted

-- threads[i] = p
abbrev pub put_thread : ℕ → Ptr → Cmd Kernel (Unit {0})
put_thread i p = modify λ s. record s { threads = set_slot s.threads i p }

-- thread_wait_queues[i] = p
abbrev pub put_wait_queue : ℕ → Ptr → Cmd Kernel (Unit {0})
put_wait_queue i p = modify λ s. record s { wait_queues = set_slot s.wait_queues i p }

unfoldable pub thread_id : Cmd Kernel ℕ
unfolding id_of
thread_id = get_kernel λ s. on_rq (id_of s.rq.head)
