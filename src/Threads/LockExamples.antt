-- ===== src/Threads/LockExamples.antt =====
-- The theorems on locks, condition variables and the end of threads at concrete inputs.
use ece344_operating_systems.Base.{refl, true, none, some, [], ◌∷◌, arith, ◌==◌, if◌then◌else◌}
use ece344_operating_systems.Threads.Memory.{running, ready, blocked, write}
use ece344_operating_systems.Threads.Memory.Seg.{link, nil, cons}
use ece344_operating_systems.Threads.Kernel.{Kernel, Lock}
use ece344_operating_systems.Threads.Exit.{thread_exit, resume}
use ece344_operating_systems.Threads.Exit.Resume.{CanResume, Resumes, resume-Resumes}
use ece344_operating_systems.Threads.Exit.Leave.{CanExit, Exits, thread_exit-Exits}
use ece344_operating_systems.Threads.Locks.{lock_acquire, lock_release, cv_wait}
use ece344_operating_systems.Threads.Locks.Monitor.{CanWait, Waits, cv_wait-Waits}
use ece344_operating_systems.Threads.Locks.Hold.{
  IsLock, AcquireSleeps, Releases, lock_acquire-AcquireSleeps, lock_release-Releases,
}
use ece344_operating_systems.Base.Int.{pos}
use ece344_operating_systems.Threads.Small.{
  thread, waiting, k₀, ready_cells, waiting_cells, k₀-ready, k₀-waiting, apart, k₀-Waiting, k₀-Runs,
  k₀-CanSleep,
}

abbrev lock₀ : Lock
lock₀ = record { locked = true; thread = 0; wq = 50 }

k₀-IsLock : IsLock k₀ 60 lock₀
k₀-IsLock = record { ne_null = omega arith; holds = refl }

lock_acquire-AcquireSleeps_example :
    AcquireSleeps k₀ 60 1 11 2 12
      (thread 0 running)
      (thread 1 ready)
      lock₀
      ((3, 13) ∷ [])
      waiting_cells
      (lock_acquire 60 k₀)
lock_acquire-AcquireSleeps_example =
    lock_acquire-AcquireSleeps k₀ 60 lock₀ waiting 1 11 2 12 ((3, 13) ∷ []) waiting_cells
      k₀-CanSleep k₀-IsLock (omega arith) refl

lock_release-Releases_example : Releases k₀ 60 lock₀ ready_cells waiting_cells (lock_release 60 k₀)
lock_release-Releases_example =
    lock_release-Releases k₀ 1 11 (thread 0 running) ((2, 12) ∷ (3, 13) ∷ []) 60 lock₀ waiting
      waiting_cells k₀-Runs k₀-IsLock k₀-Waiting (omega arith) refl refl

-- The running thread has a waiter.
abbrev awaited : Kernel
awaited = record k₀ { wait_queues = λ i. if i == 0 then 50 else 0 }

awaited-CanExit :
    CanExit awaited 50 waiting 1 11 (thread 0 running) 2 12 ((3, 13) ∷ []) waiting_cells []
awaited-CanExit = record {
  runs = record { ready_queue = k₀-ready; ne_null = omega arith; holds = refl };
  its_queue = refl;
  ne_null = omega arith;
  waiting = record {
    at_wq = refl;
    ready_queue = k₀-ready;
    wait_queue = k₀-waiting;
    apart = apart;
    objects = (omega arith, (thread 3 blocked, refl), tt);
  };
  exit_queue = record { chain = nil; count = refl; ends = tt };
  apart = λ a h. ground (arith, h);
}

thread_exit-Exits_example :
    Exits awaited 50 1 11
      (thread 0 running)
      2
      12
      ((3, 13) ∷ [])
      waiting_cells
      []
      (thread_exit awaited)
thread_exit-Exits_example = thread_exit-Exits awaited-CanExit

-- The running thread holds the lock at 60 and waits for the condition variable at 70.
abbrev monitor : Kernel
monitor = record k₀ {
  queues = write k₀.queues 51 (some (record { size = 0; head = 0; tail = 0 }));
  cvs = write (λ _. none) 70 (some 51);
}

monitor-CanWait :
    CanWait monitor 70 60 lock₀ 51 waiting
      (record { size = 0; head = 0; tail = 0 })
      1
      11
      (thread 0 running)
      2
      12
      ((3, 13) ∷ [])
      waiting_cells
      []
monitor-CanWait = record {
  runs = record { ready_queue = k₀-ready; ne_null = omega arith; holds = refl };
  cv_ne_null = omega arith;
  at_cv = refl;
  its_lock = record { ne_null = omega arith; holds = refl };
  taken = refl;
  owner = refl;
  lock_ne_null = omega arith;
  waiting = record {
    at_wq = refl;
    ready_queue = k₀-ready;
    wait_queue = k₀-waiting;
    apart = apart;
    objects = (omega arith, (thread 3 blocked, refl), tt);
  };
  wq_ne_null = omega arith;
  other_queue = refl;
  at_wq = refl;
  wait_queue = record { chain = nil; count = refl; ends = tt };
  apart = λ a h. ground (arith, h);
  objects = (omega arith, (thread 0 running, refl), (omega arith, (thread 1 ready, refl), tt));
}

cv_wait-Waits_example :
    Waits monitor 60 lock₀ 51 1 11 2 12 ((3, 13) ∷ []) waiting_cells [] (cv_wait 70 60 monitor)
cv_wait-Waits_example = cv_wait-Waits monitor-CanWait

-- Thread 3 has exited, and thread 1 is set again.
abbrev resuming : Kernel
resuming = record k₀ {
  memory = record (k₀.memory) {
    nodes = write (write (write (λ _. none) 4 (link 14 0)) 2 (link 12 3)) 3 (link 13 0);
  };
  rq = record { size = 2; head = 2; tail = 3 };
  eq = record { size = 1; head = 4; tail = 4 };
}

resuming-CanResume : CanResume resuming 2 12 1 101 ((3, 13) ∷ []) waiting_cells
resuming-CanResume = record {
  ready_queue = record {
    chain =
        cons (record { ne_null = omega arith; holds = refl }) refl
          (cons (record { ne_null = omega arith; holds = refl }) refl nil);
    count = refl;
    ends = refl;
  };
  ne_null = omega arith;
  holds = refl;
  exit_queue = record {
    chain = cons (record { ne_null = omega arith; holds = refl }) refl nil;
    count = refl;
    ends = refl;
  };
  apart = λ a h. ground (arith, h);
  exited = (omega arith, (thread 3 blocked, refl), refl, tt);
  other = refl;
  own_stacks = (omega arith, refl, tt);
}

resume-Resumes_example :
    Resumes resuming 2 12 1 101 true
      (pos 0)
      ((3, 13) ∷ [])
      waiting_cells
      (resume true (pos 0) resuming)
resume-Resumes_example = resume-Resumes resuming-CanResume true (pos 0)
