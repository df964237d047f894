-- ===== src/Threads/Locks/Hold.antt =====
-- threads/thread.c: taking and releasing a lock.
use ece344_operating_systems.Base.{
  ◌≡◌, ◌≢◌, refl, true, false, ◌&&◌, some, [], ◌∷◌, ◌++◌, arith, ◌==◌,
}
use ece344_operating_systems.Base.Int.{pos}
use ece344_operating_systems.Base.Run.{Run, ok, halt, aborted}
use ece344_operating_systems.Threads.Memory.{Ptr, null, blocked, Thread, write, is_null, ready}
use ece344_operating_systems.Threads.Memory.Seg.{Cells, has, has-append}
use ece344_operating_systems.Threads.Queue.{WaitQueue, changed}
use ece344_operating_systems.Threads.Queue.Ends.{IsQueue}
use ece344_operating_systems.Threads.Kernel.{
  Kernel, Lock, Control, returned, switched, interrupts_set,
}
use ece344_operating_systems.Threads.Exit.Kill.{Runs, thread_id-Runs}
use ece344_operating_systems.Threads.Wait.Wake.{Waiting, set_statuses}
use ece344_operating_systems.Threads.Wait.Wakeup.{thread_wakeup_all-Wakes}
use ece344_operating_systems.Threads.Wait.Sleep.{CanSleep, thread_sleep-Sleeps}
use ece344_operating_systems.Threads.Locks.{lock_acquire, lock_release, acquire_loop, assert_held}

-- The lock `l` is at `lock`.
pub record IsLock (s : Kernel) (lock : Ptr) (l : Lock) : Type 0 where
  pub ne_null : lock ≢ null
  pub holds : s.locks lock ≡ some l

abbrev pub with_lock : Kernel → Ptr → Lock → Kernel
with_lock s lock l = record s { locks = write s.locks lock (some l) }

-- lock_acquire on a free lock gives it to the running thread.
pub lock_acquire-free :
    (s : Kernel) (p th : Ptr) (t : Thread) (xs : Cells) (lock : Ptr) (l : Lock)
    → Runs s p th t xs
    → IsLock s lock l
    → l.locked ≡ false
    → lock_acquire lock s
      ≡ ok (returned (pos 0)) (with_lock s lock (record l { locked = true; thread = t.id }))
unfolding lock_acquire acquire_loop interrupts_set
lock_acquire-free s p th t xs lock l runs is free =
    let here : is_null lock ≡ false = ground (arith, is.ne_null) in
    rw (here, is.holds, free, thread_id-Runs s p th t xs runs false) refl

-- What lock_acquire does on a lock that is taken: the running thread is the last in the lock's wait
-- queue, the next one runs, and the lock stays with its owner.
pub record AcquireSleeps (s : Kernel) (lock p th p' th' : Ptr) (t t' : Thread) (l : Lock)
    (rs xs : Cells) (r : Run Kernel Control) : Type 0 where
  pub state : Kernel
  pub queue : WaitQueue
  pub run : r ≡ ok (switched th' (pos t'.id) s.enabled) state
  pub at_wq : state.queues l.wq ≡ some queue
  pub ready_queue : IsQueue state.memory.nodes state.rq ((p', th') ∷ rs)
  pub wait_queue : IsQueue state.memory.nodes queue (xs ++ (p, th) ∷ [])
  pub status : state.memory.threads th ≡ some (record t { status = changed t.status blocked })
  pub locks : state.locks ≡ s.locks

-- lock_acquire on a lock that is taken, with another thread that is ready, leaves all locks as they
-- are, puts the running thread at the end of the wait queue of the lock, blocked unless it has
-- exited, and sets the context of the next thread.
pub lock_acquire-AcquireSleeps :
    (s : Kernel) (lock : Ptr) (l : Lock) (queue : WaitQueue) (p th p' th' : Ptr) (rs xs : Cells)
    → (c : CanSleep s l.wq queue p th p' th' rs xs) → IsLock s lock l
    → l.wq ≢ null
    → l.locked ≡ true
    → AcquireSleeps s lock p th p' th' c.objects.1.0 c.objects.2.1.0 l rs xs (lock_acquire lock s)
unfolding lock_acquire acquire_loop interrupts_set
lock_acquire-AcquireSleeps s lock l queue p th p' th' rs xs c is ne taken =
    let here : is_null lock ≡ false = ground (arith, is.ne_null) in
    let c' : CanSleep (record s { enabled = false }) l.wq queue p th p' th' rs xs = record {
      at_wq = c.at_wq;
      ready_queue = c.ready_queue;
      wait_queue = c.wait_queue;
      apart = c.apart;
      objects = c.objects;
    } in
    let z = thread_sleep-Sleeps (record s { enabled = false }) l.wq queue p th p' th' rs xs c' ne in
    record {
      state = z.state;
      queue = z.queue;
      run = rw (here, is.holds, taken, z.run) refl;
      at_wq = z.at_wq;
      ready_queue = z.ready_queue;
      wait_queue = z.wait_queue;
      status = z.status;
      locks = z.locks;
    }

-- lock_release by a thread that does not hold the lock fails an assertion.
pub lock_release-aborted :
    (s : Kernel) (p th : Ptr) (t : Thread) (xs : Cells) (lock : Ptr) (l : Lock)
    → Runs s p th t xs
    → IsLock s lock l
    → (l.locked && (l.thread == t.id)) ≡ false
    → lock_release lock s ≡ halt aborted
unfolding lock_release assert_held interrupts_set
lock_release-aborted s p th t xs lock l runs is other =
    let here : is_null lock ≡ false = ground (arith, is.ne_null) in
    rw (here, is.holds, thread_id-Runs s p th t xs runs false, other) refl

-- What lock_release does: the lock is free, and all that waited for it are ready, in their order,
-- behind the ready queue.
pub record Releases (s : Kernel) (lock : Ptr) (l : Lock) (rs xs : Cells) (r : Run Kernel (Unit {0}))
    : Type 0 where
  pub state : Kernel
  pub queue : WaitQueue
  pub run : r ≡ ok tt state
  pub at_wq : state.queues l.wq ≡ some queue
  pub ready_queue : IsQueue state.memory.nodes state.rq (rs ++ xs)
  pub wait_queue : IsQueue state.memory.nodes queue []
  pub freed : state.locks ≡ write s.locks lock (some (record l { locked = false }))
  pub enabled : state.enabled ≡ s.enabled
  pub nodes :
      (a : Ptr) → has a rs ≡ false → has a xs ≡ false → state.memory.nodes a ≡ s.memory.nodes a
  pub queues : (a : Ptr) → (a == l.wq) ≡ false → state.queues a ≡ s.queues a
  pub statuses : state.memory.threads ≡ set_statuses s.memory.threads ready xs

-- lock_release by the owner returns with the lock free and its wait queue empty: all that waited
-- for it are in the ready queue, in their order, behind those that were ready.
pub lock_release-Releases :
    (s : Kernel) (p th : Ptr) (t : Thread) (rs : Cells) (lock : Ptr) (l : Lock) (queue : WaitQueue)
    (xs : Cells)
    → Runs s p th t rs
    → IsLock s lock l
    → Waiting s l.wq queue ((p, th) ∷ rs) xs
    → l.wq ≢ null
    → l.locked ≡ true
    → l.thread ≡ t.id
    → Releases s lock l ((p, th) ∷ rs) xs (lock_release lock s)
unfolding lock_release assert_held interrupts_set
lock_release-Releases s p th t rs lock l queue xs runs is w ne taken owner =
    let here : is_null lock ≡ false = ground (arith, is.ne_null) in
    let held : (l.locked && (l.thread == t.id)) ≡ true = ground (arith, taken, owner) in
    let l' : Lock = record l { locked = false } in
    let s₁ : Kernel = record s { enabled = false; locks = write s.locks lock (some l') } in
    let same : (lock == lock) ≡ true = ground arith in
    let w₁ : Waiting s₁ l.wq queue ((p, th) ∷ rs) xs = record {
      at_wq = w.at_wq;
      ready_queue = w.ready_queue;
      wait_queue = w.wait_queue;
      apart = w.apart;
      objects = w.objects;
    } in
    let z = thread_wakeup_all-Wakes s₁ l.wq queue ((p, th) ∷ rs) xs w₁ ne in
    record {
      state = record (z.state) { enabled = s.enabled };
      queue = z.queue;
      run =
          rw (here, is.holds, thread_id-Runs s p th t rs runs false, held, is.holds, same, z.run)
            refl;
      at_wq = z.waiting.at_wq;
      ready_queue = z.waiting.ready_queue;
      wait_queue = z.waiting.wait_queue;
      freed = z.keeps.locks;
      enabled = refl;
      nodes = λ a o i. z.keeps.nodes a o (ground (arith, has-append a xs [], i));
      queues = z.keeps.queues;
      statuses = z.statuses;
    }
