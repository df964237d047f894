-- ===== src/Threads/Locks.antt =====
-- threads/thread.c: locks and condition variables.
pub mod Hold
pub mod Monitor
use ece344_operating_systems.Base.{
  ℕ, zero, suc, ◌+◌, ◌-◌, Bool, true, false, not, ◌&&◌, ◌||◌, Option, none, some, ltb, leb, ◌==◌,
  if◌then◌else◌,
}
use ece344_operating_systems.Base.Int.{ℤ, pos, negsuc, is_neg}
use ece344_operating_systems.Base.Run.{
  Run, ok, halt, Halt, aborted, faulted, diverged, Cmd, pure, ◌>>=◌, ◌>>◌, modify, assert,
}
use ece344_operating_systems.Threads.Memory.{
  Ptr, null, ThreadStatus, running, ready, blocked, Node, Thread, Memory, write, is_null,
}
use ece344_operating_systems.Threads.Queue.{
  WaitQueue, Queued, node_at, thread_at, set_node, set_thread, free_stack, id_of, same_tid,
  find_in_queue_with_prev, append_node_to_queue, append_to_queue, move_head_to_end, move_to_head,
  pop_queue, clear_queue, set_thread_status,
}
use ece344_operating_systems.Threads.Kernel.{
  queue_at, returned, switched, started, thread_max_threads, thread_any, thread_self,
  thread_invalid, thread_none, thread_nomore, thread_nomemory, Lock, Kernel, Control, set_rq,
  set_eq, set_wq, on_rq, on_eq, on_found, on_queue, get_kernel, after, interrupts_set,
  interrupts_on, interrupts_off, leave, set_slot, get_thread, put_thread, put_wait_queue, thread_id,
}
use ece344_operating_systems.Threads.Exit.{resume}
use ece344_operating_systems.Threads.Wait.{
  thread_wakeup, wait_queue_create, wait_queue_destroy, thread_sleep,
}

abbrev pub found_lock : {A : Type 0} → (Lock → Cmd Kernel A) → Option Lock → Cmd Kernel A
found_lock k none = λ _. halt faulted
found_lock k (some l) = k l

-- assert(lock != NULL), and an access to it
abbrev pub with_lock : {A : Type 0} → Ptr → (Lock → Cmd Kernel A) → Cmd Kernel A
with_lock p k = do assert (not (is_null p)); get_kernel λ s. found_lock k (s.locks p)

abbrev pub set_lock : Ptr → Option Lock → Cmd Kernel (Unit {0})
set_lock p l = modify λ s. record s { locks = write s.locks p l }

abbrev pub found_cv : {A : Type 0} → (Ptr → Cmd Kernel A) → Option Ptr → Cmd Kernel A
found_cv k none = λ _. halt faulted
found_cv k (some wq) = k wq

abbrev pub with_cv : {A : Type 0} → Ptr → (Ptr → Cmd Kernel A) → Cmd Kernel A
with_cv p k = do assert (not (is_null p)); get_kernel λ s. found_cv k (s.cvs p)

abbrev pub set_cv : Ptr → Option Ptr → Cmd Kernel (Unit {0})
set_cv p c = modify λ s. record s { cvs = write s.cvs p c }

-- `lock` and `wq` are what `malloc` returned, `owner` what the memory of the lock held.
unfoldable pub lock_create : Ptr → Ptr → ℕ → Cmd Kernel Ptr
unfolding wait_queue_create
lock_create lock wq owner = do
  enabled ← interrupts_off
  assert (not (is_null lock))
  wait_queue_create wq
  set_lock lock (some (record { locked = false; thread = owner; wq = wq }))
  interrupts_set enabled
  pure lock

unfoldable pub lock_destroy : Ptr → Cmd Kernel (Unit {0})
unfolding wait_queue_destroy
lock_destroy lock = do
  enabled ← interrupts_off
  with_lock lock λ l. assert (not l.locked) >> wait_queue_destroy l.wq
  set_lock lock none
  interrupts_set enabled
  pure tt

-- A sleep that is refused leaves the lock taken and interrupts off, so the loop does not end.
abbrev pub slept : Bool → Control → Cmd Kernel Control
slept enabled (returned a) = λ _. halt diverged
slept enabled (switched to result e) = pure (switched to result enabled)
slept enabled started = pure started

-- The loop of lock_acquire, up to the first sleep; a thread that runs again starts it anew.
unfoldable pub acquire_loop : Bool → Ptr → Cmd Kernel Control
unfolding thread_sleep thread_id
acquire_loop enabled lock = with_lock lock λ l.
    if l.locked then (do c ← thread_sleep l.wq; slept enabled c) else do
      id ← thread_id
      set_lock lock (some (record l { locked = true; thread = id }))
      leave enabled (pos 0)

unfoldable pub lock_acquire : Ptr → Cmd Kernel Control
unfolding acquire_loop
lock_acquire lock = do enabled ← interrupts_off; acquire_loop enabled lock

-- A thread that slept in lock_acquire and runs again.
unfoldable pub acquire_resumed : Bool → Ptr → ℤ → Cmd Kernel Control
unfolding resume acquire_loop
acquire_resumed enabled lock result = do
  c ← resume false result
  after c (acquire_loop enabled lock)

-- assert(lock->locked && lock->thread == thread_id())
unfoldable pub assert_held : Ptr → Cmd Kernel (Unit {0})
unfolding thread_id
assert_held lock = with_lock lock λ l. do id ← thread_id; assert (l.locked && (l.thread == id))

unfoldable pub lock_release : Ptr → Cmd Kernel (Unit {0})
unfolding assert_held thread_wakeup
lock_release lock = do
  enabled ← interrupts_off
  assert_held lock
  with_lock lock λ l. set_lock lock (some (record l { locked = false }))
  with_lock lock λ l. thread_wakeup l.wq true
  interrupts_set enabled
  pure tt

unfoldable pub cv_create : Ptr → Ptr → Cmd Kernel Ptr
unfolding wait_queue_create
cv_create cv wq = do
  enabled ← interrupts_off
  assert (not (is_null cv))
  wait_queue_create wq
  set_cv cv (some wq)
  interrupts_set enabled
  pure cv

unfoldable pub cv_destroy : Ptr → Cmd Kernel (Unit {0})
unfolding wait_queue_destroy
cv_destroy cv = do
  enabled ← interrupts_off
  with_cv cv λ wq. do q ← queue_at wq; assert (q.size == 0); wait_queue_destroy wq
  set_cv cv none
  interrupts_set enabled
  pure tt

-- Behind a sleep that switches, and at once behind one that is refused, the lock is taken again
-- with interrupts off.
abbrev pub cv_slept : Ptr → Bool → Control → Cmd Kernel Control
cv_slept lock enabled (returned a) = do c ← lock_acquire lock; after c (leave enabled (pos 0))
cv_slept lock enabled (switched to result e) = pure (switched to result enabled)
cv_slept lock enabled started = pure started

unfoldable pub cv_wait : Ptr → Ptr → Cmd Kernel Control
unfolding assert_held lock_release thread_sleep lock_acquire
cv_wait cv lock = do
  enabled ← interrupts_off
  with_cv cv
      λ wq. do assert_held lock; lock_release lock; c ← thread_sleep wq; cv_slept lock enabled c

-- A thread that slept in cv_wait and runs again.
unfoldable pub wait_resumed : Bool → Ptr → ℤ → Cmd Kernel Control
unfolding resume lock_acquire
wait_resumed enabled lock result = do
  c ← resume false result
  after c (do d ← lock_acquire lock; after d (leave enabled (pos 0)))

abbrev pub cv_wake : Ptr → Ptr → Bool → Cmd Kernel (Unit {0})
cv_wake cv lock all = do
  enabled ← interrupts_off
  with_cv cv λ wq. do assert_held lock; thread_wakeup wq all
  interrupts_set enabled
  pure tt

unfoldable pub cv_signal : Ptr → Ptr → Cmd Kernel (Unit {0})
unfolding assert_held thread_wakeup
cv_signal cv lock = cv_wake cv lock false

unfoldable pub cv_broadcast : Ptr → Ptr → Cmd Kernel (Unit {0})
unfolding assert_held thread_wakeup
cv_broadcast cv lock = cv_wake cv lock true
