-- ===== src/Threads/Wait/Wakeup.antt =====
-- threads/thread.c: thread_wakeup as a whole.
use mathlib.Core.Path.{subst, sym}
use mathlib.Core.List.{append-nil}
use ece344_operating_systems.Base.{
  ℕ, suc, ◌+◌, ◌≡◌, ◌≢◌, refl, Bool, true, false, [], ◌∷◌, arith, ◌==◌, length,
}
use ece344_operating_systems.Threads.Memory.{Ptr, null, is_null}
use ece344_operating_systems.Threads.Memory.Seg.{Cells}
use ece344_operating_systems.Threads.Queue.{WaitQueue}
use ece344_operating_systems.Threads.Kernel.{interrupts_set, Kernel}
use ece344_operating_systems.Threads.Wait.{wake_loop, thread_wakeup}
use ece344_operating_systems.Threads.Wait.Wake.{Waiting, Keeps, Wakes, wake_loop-one, wake_loop-all}

-- Interrupts do not matter to the queues.
module _ {s : Kernel} {wq : Ptr} {rs xs : Cells} where
  Waiting-enabled :
      {queue : WaitQueue} (on : Bool)
      → Waiting s wq queue rs xs
      → Waiting (record s { enabled = on }) wq queue rs xs
  Waiting-enabled on w = record {
    at_wq = w.at_wq;
    ready_queue = w.ready_queue;
    wait_queue = w.wait_queue;
    apart = w.apart;
    objects = w.objects;
  }

  Keeps-enabled :
      {s' : Kernel}
      → Keeps (record s { enabled = false }) s' wq rs xs
      → Keeps s (record s' { enabled = s.enabled }) wq rs xs
  Keeps-enabled k = record {
    nodes = k.nodes;
    queues = k.queues;
    eq = k.eq;
    threads = k.threads;
    wait_queues = k.wait_queues;
    locks = k.locks;
    cvs = k.cvs;
    stacks = k.stacks;
    enabled = refl;
  }

-- thread_wakeup around its loop.
wakeup-Wakes :
    {s : Kernel} {wq : Ptr} {queue : WaitQueue} {rs xs left : Cells} {p th : Ptr} {cells : Cells}
    {n : ℕ} (all : Bool)
    → Waiting s wq queue rs ((p, th) ∷ cells)
    → wq ≢ null
    → Wakes
        (record s { enabled = false })
        wq
        rs
        xs
        left
        n
        (wake_loop (suc (length cells)) wq all 0 (record s { enabled = false }))
    → Wakes s wq rs xs left n (thread_wakeup wq all s)
unfolding thread_wakeup interrupts_set
wakeup-Wakes {s} {wq} {queue} {cells} all w h l =
    let here : is_null wq ≡ false = ground (arith, h) in
    let size : queue.size ≡ suc (length cells) = w.wait_queue.count in
    let some_left : (suc (length cells) == 0) ≡ false = ground arith in
    record {
      state = record (l.state) { enabled = s.enabled };
      queue = l.queue;
      run = rw (here, w.at_wq, size, some_left, l.run) refl;
      waiting = Waiting-enabled s.enabled l.waiting;
      keeps = Keeps-enabled l.keeps;
      statuses = l.statuses;
    }

-- thread_wakeup of one thread moves the first thread of the queue behind the ready queue, makes it
-- ready unless it has exited, and returns 1.
pub thread_wakeup-Wakes :
    (s : Kernel) (wq : Ptr) (queue : WaitQueue) (rs xs : Cells) (p th : Ptr)
    → Waiting s wq queue rs ((p, th) ∷ xs)
    → wq ≢ null
    → Wakes s wq rs ((p, th) ∷ []) xs 1 (thread_wakeup wq false s)
thread_wakeup-Wakes s wq queue rs xs p th w h = wakeup-Wakes false w h (
    wake_loop-one (length xs) 0 (record s { enabled = false }) wq queue rs xs p th
      (Waiting-enabled false w))

-- thread_wakeup of all threads moves the threads of the wait queue, in their order, behind the
-- ready queue, makes them ready unless they have exited, and returns their number; nothing else
-- changes.
pub thread_wakeup_all-Wakes :
    (s : Kernel) (wq : Ptr) (queue : WaitQueue) (rs xs : Cells)
    → Waiting s wq queue rs xs
    → wq ≢ null
    → Wakes s wq rs xs [] (length xs) (thread_wakeup wq true s)
unfolding thread_wakeup interrupts_set
thread_wakeup_all-Wakes s wq queue rs [] w h =
    let here : is_null wq ≡ false = ground (arith, h) in
    let none_left : (queue.size == 0) ≡ true = ground (arith, w.wait_queue.count) in
    record {
      state = record s { enabled = s.enabled };
      queue = queue;
      run = rw (here, w.at_wq, none_left) refl;
      waiting = subst (λ zs. Waiting s wq queue zs []) (sym (append-nil rs)) w;
      keeps = record {
        nodes = λ a o i. refl;
        queues = λ a o. refl;
        eq = refl;
        threads = refl;
        wait_queues = refl;
        locks = refl;
        cvs = refl;
        stacks = refl;
        enabled = refl;
      };
      statuses = refl;
    }
thread_wakeup_all-Wakes s wq queue rs ((p, th) ∷ xs) w h =
    let e : 0 + suc (length xs) ≡ suc (length xs) = omega arith in
    subst (λ n. Wakes s wq rs ((p, th) ∷ xs) [] n (thread_wakeup wq true s)) e
      (wakeup-Wakes true w h (
        wake_loop-all (length xs) 0 (record s { enabled = false }) wq queue rs p th xs
          (Waiting-enabled false w) (omega arith)))
