-- ===== src/Threads/Locks/Monitor.antt =====
-- threads/thread.c: cv_wait.
use ece344_operating_systems.Base.{
  ◌≡◌, ◌≢◌, ◌∙◌, sym, ap, refl, true, false, ◌&&◌, Option, some, [], ◌∷◌, ◌++◌, arith, ◌==◌,
}
use ece344_operating_systems.Base.Int.{pos}
use ece344_operating_systems.Base.Run.{Run, ok, and_then}
use ece344_operating_systems.Threads.Memory.{
  Ptr, null, ThreadStatus, ready, blocked, Thread, write, is_null,
}
use ece344_operating_systems.Threads.Memory.Seg.{Cells, has-append}
use ece344_operating_systems.Threads.Queue.{WaitQueue, changed}
use ece344_operating_systems.Threads.Queue.Ends.{IsQueue, IsQueue-frame}
use ece344_operating_systems.Threads.Kernel.{Kernel, Lock, Control, switched, interrupts_set}
use ece344_operating_systems.Threads.Wait.{thread_sleep}
use ece344_operating_systems.Threads.Wait.Wake.{
  Disjoint, HaveThreads, HaveThreads-write, Waiting, set_statuses, with_status,
}
use ece344_operating_systems.Threads.Wait.Sleep.{CanSleep, thread_sleep-Sleeps}
use ece344_operating_systems.Threads.Exit.Kill.{Runs, thread_id-Runs}
use ece344_operating_systems.Threads.Locks.{assert_held, lock_release, cv_wait, cv_slept}
use ece344_operating_systems.Threads.Locks.Hold.{IsLock, Releases, lock_release-Releases}

-- New statuses leave every thread in its place.
HaveThreads-set_statuses :
    (f : Ptr → Option Thread) (st : ThreadStatus) (xs ys : Cells)
    → HaveThreads f xs
    → HaveThreads f ys
    → HaveThreads (set_statuses f st xs) ys
HaveThreads-set_statuses f st [] ys hx hy = hy
HaveThreads-set_statuses f st ((_, th) ∷ xs) ys hx hy = rw hx.1.1 (
    HaveThreads-set_statuses (write f th (with_status st (some hx.1.0))) st xs ys
      (HaveThreads-write f xs th (record (hx.1.0) { status = changed hx.1.0.status st }) hx.2)
      (HaveThreads-write f ys th (record (hx.1.0) { status = changed hx.1.0.status st }) hy))

-- The running thread holds the lock and can wait for the condition variable `cv`.
pub record CanWait (s : Kernel) (cv lock : Ptr) (l : Lock) (wq : Ptr) (lock_queue queue : WaitQueue)
    (p th : Ptr) (t : Thread) (p' th' : Ptr) (rs ws xs : Cells) : Type 0 where
  pub runs : Runs s p th t ((p', th') ∷ rs)
  pub cv_ne_null : cv ≢ null
  pub at_cv : s.cvs cv ≡ some wq
  pub its_lock : IsLock s lock l
  pub taken : l.locked ≡ true
  pub owner : l.thread ≡ t.id
  pub lock_ne_null : l.wq ≢ null
  pub waiting : Waiting s l.wq lock_queue ((p, th) ∷ (p', th') ∷ rs) ws
  pub wq_ne_null : wq ≢ null
  pub other_queue : (wq == l.wq) ≡ false
  pub at_wq : s.queues wq ≡ some queue
  pub wait_queue : IsQueue s.memory.nodes queue xs
  pub apart : Disjoint xs ((p, th) ∷ (p', th') ∷ rs ++ ws)
  pub objects : HaveThreads s.memory.threads ((p, th) ∷ (p', th') ∷ [])

-- The lock is free, its waiters are ready, and the thread is the last in the queue of the condition
-- variable, and blocked.
pub record Waits (s : Kernel) (lock : Ptr) (l : Lock) (wq p th p' th' : Ptr) (rs ws xs : Cells)
    (r : Run Kernel Control) : Type 0 where
  pub state : Kernel
  pub queue : WaitQueue
  pub next : Thread
  pub run : r ≡ ok (switched th' (pos next.id) s.enabled) state
  pub at_wq : state.queues wq ≡ some queue
  pub ready_queue : IsQueue state.memory.nodes state.rq ((p', th') ∷ rs ++ ws)
  pub wait_queue : IsQueue state.memory.nodes queue (xs ++ (p, th) ∷ [])
  pub freed : state.locks ≡ write s.locks lock (some (record l { locked = false }))
  pub masked : state.enabled ≡ false
  pub sleeper : Thread
  pub was : set_statuses s.memory.threads ready ws th ≡ some sleeper
  pub status :
      state.memory.threads th ≡ some (record sleeper { status = changed sleeper.status blocked })
  pub statuses :
      (a : Ptr)
      → (a == th) ≡ false
      → state.memory.threads a ≡ set_statuses s.memory.threads ready ws a

module _ {s : Kernel} {cv lock : Ptr} {l : Lock} {wq : Ptr} {lock_queue queue : WaitQueue}
    {p th : Ptr} {t : Thread} {p' th' : Ptr} {rs ws xs : Cells}
    (c : CanWait s cv lock l wq lock_queue queue p th t p' th' rs ws xs) where
  masked_waiting :
      Waiting (record s { enabled = false }) l.wq lock_queue ((p, th) ∷ (p', th') ∷ rs) ws
  masked_waiting = record {
    at_wq = c.waiting.at_wq;
    ready_queue = c.waiting.ready_queue;
    wait_queue = c.waiting.wait_queue;
    apart = c.waiting.apart;
    objects = c.waiting.objects;
  }

  released :
      Releases
        (record s { enabled = false })
        lock
        l
        ((p, th) ∷ (p', th') ∷ rs)
        ws
        (lock_release lock (record s { enabled = false }))
  released =
      lock_release-Releases (record s { enabled = false }) p th t ((p', th') ∷ rs) lock l lock_queue
        ws
        (record {
          ready_queue = c.runs.ready_queue;
          ne_null = c.runs.ne_null;
          holds = c.runs.holds;
        })
        (record { ne_null = c.its_lock.ne_null; holds = c.its_lock.holds }) masked_waiting
        c.lock_ne_null c.taken c.owner

  -- What the release leaves can go to sleep.
  can_sleep :
      {r : Run Kernel (Unit {0})}
      → (a : Releases (record s { enabled = false }) lock l ((p, th) ∷ (p', th') ∷ rs) ws r)
      → CanSleep a.state wq queue p th p' th' (rs ++ ws) xs
  can_sleep a = record {
    at_wq = a.queues wq c.other_queue ∙ c.at_wq;
    ready_queue = a.ready_queue;
    wait_queue = IsQueue-frame a.state.memory.nodes c.wait_queue (λ d i.
        a.nodes d (ground (arith, c.apart d i, has-append d rs ws))
          (ground (arith, c.apart d i, has-append d rs ws)));
    apart = c.apart;
    objects = rw a.statuses (
        HaveThreads-set_statuses s.memory.threads ready ws ((p, th) ∷ (p', th') ∷ [])
          c.waiting.objects c.objects);
  }

  assert_held-ok :
      assert_held lock (record s { enabled = false }) ≡ ok tt (record s { enabled = false })
  unfolding assert_held
  assert_held-ok =
      let lock_here : is_null lock ≡ false = ground (arith, c.its_lock.ne_null) in
      let held : (l.locked && (l.thread == t.id)) ≡ true = ground (arith, c.taken, c.owner) in
      rw (lock_here, c.its_lock.holds, thread_id-Runs s p th t ((p', th') ∷ rs) c.runs false, held)
        refl

  -- Behind the release, cv_wait goes to sleep.
  cv_wait-sleeps :
      (k : Kernel)
      → lock_release lock (record s { enabled = false }) ≡ ok tt k
      → cv_wait cv lock s ≡ and_then (thread_sleep wq k) (cv_slept lock s.enabled)
  unfolding cv_wait interrupts_set
  cv_wait-sleeps k run =
      let here : is_null cv ≡ false = ground (arith, c.cv_ne_null) in
      rw (here, c.at_cv, assert_held-ok, run) refl

  released-Waits :
      {r : Run Kernel (Unit {0})}
      → (a : Releases (record s { enabled = false }) lock l ((p, th) ∷ (p', th') ∷ rs) ws r)
      → r ≡ lock_release lock (record s { enabled = false })
      → Waits s lock l wq p th p' th' rs ws xs (cv_wait cv lock s)
  released-Waits a e =
      let z =
        thread_sleep-Sleeps a.state wq queue p th p' th' (rs ++ ws) xs (can_sleep a) c.wq_ne_null in
      record {
        state = z.state;
        queue = z.queue;
        next = (can_sleep a).objects.2.1.0;
        run =
            cv_wait-sleeps a.state (sym e ∙ a.run)
            ∙ ap (λ r. and_then r (cv_slept lock s.enabled)) z.run;
        at_wq = z.at_wq;
        ready_queue = z.ready_queue;
        wait_queue = z.wait_queue;
        freed = z.locks ∙ a.freed;
        masked = z.masked;
        sleeper = (can_sleep a).objects.1.0;
        was = ap (λ f. f th) (sym a.statuses) ∙ (can_sleep a).objects.1.1;
        status = z.status;
        statuses = λ d o. z.others d o ∙ ap (λ f. f d) a.statuses;
      }

  -- cv_wait by the owner of the lock, with another thread that is ready, frees the lock, makes all
  -- that wait for it ready unless they have exited, and puts the running thread at the end of the
  -- queue of the condition variable, blocked unless it has exited, before it sets the context of the
  -- next thread, with interrupts off; the other threads keep their statuses.
  pub cv_wait-Waits : Waits s lock l wq p th p' th' rs ws xs (cv_wait cv lock s)
  cv_wait-Waits = released-Waits released refl
