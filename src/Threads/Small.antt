-- ===== src/Threads/Small.antt =====
-- A small state of the thread library of threads/, for runs at concrete inputs.
use ece344_operating_systems.Base.{
  ℕ, ◌+◌, refl, true, none, some, [], ◌∷◌, arith, ◌==◌, leb, if◌then◌else◌,
}
use ece344_operating_systems.Threads.Memory.{ThreadStatus, running, ready, blocked, Thread, write}
use ece344_operating_systems.Threads.Memory.Seg.{Cells, Nodes, link, nil, cons}
use ece344_operating_systems.Threads.Queue.{WaitQueue}
use ece344_operating_systems.Threads.Queue.Ends.{IsQueue}
use ece344_operating_systems.Threads.Kernel.{Kernel}
use ece344_operating_systems.Threads.Wait.Wake.{Waiting, Disjoint}
use ece344_operating_systems.Threads.Wait.Sleep.{CanSleep}
use ece344_operating_systems.Threads.Exit.Kill.{Runs}

-- The threads 0, 1 and 2, at 11, 12 and 13, are ready, and 0 runs; thread 3, at 14, waits in the
-- queue at 50 for the lock at 60, which thread 0 holds. Thread 0 has no allocated stack.
abbrev pub thread : ℕ → ThreadStatus → Thread
thread id status = record { id = id; status = status; stack = 100 + id }

abbrev pub three_nodes : Nodes
three_nodes =
    write (write (write (write (λ _. none) 1 (link 11 2)) 2 (link 12 3)) 3 (link 13 0)) 4
      (link 14 0)

abbrev pub waiting : WaitQueue
waiting = record { size = 1; head = 4; tail = 4 }

abbrev pub k₀ : Kernel
k₀ = record {
  memory = record {
    nodes = three_nodes;
    threads =
        write
          (write (write (write (λ _. none) 11 (some (thread 0 running))) 12 (some (thread 1 ready)))
            13 (some (thread 2 ready)))
          14 (some (thread 3 blocked));
    stacks = λ p. leb 101 p;
  };
  rq = record { size = 3; head = 1; tail = 3 };
  eq = record { size = 0; head = 0; tail = 0 };
  queues = write (λ _. none) 50 (some waiting);
  threads = λ i.
      if i == 0 then 11 else if i == 1 then 12 else if i == 2 then 13 else if i == 3 then 14 else 0;
  wait_queues = λ _. 0;
  locks = write (λ _. none) 60 (some (record { locked = true; thread = 0; wq = 50 }));
  cvs = λ _. none;
  enabled = true;
}

abbrev pub ready_cells : Cells
ready_cells = (1, 11) ∷ (2, 12) ∷ (3, 13) ∷ []

abbrev pub waiting_cells : Cells
waiting_cells = (4, 14) ∷ []

pub k₀-ready : IsQueue k₀.memory.nodes k₀.rq ready_cells
k₀-ready = record {
  chain =
      cons (record { ne_null = omega arith; holds = refl }) refl
        (cons (record { ne_null = omega arith; holds = refl }) refl
          (cons (record { ne_null = omega arith; holds = refl }) refl nil));
  count = refl;
  ends = refl;
}

pub k₀-waiting : IsQueue k₀.memory.nodes waiting waiting_cells
k₀-waiting = record {
  chain = cons (record { ne_null = omega arith; holds = refl }) refl nil;
  count = refl;
  ends = refl;
}

pub apart : Disjoint waiting_cells ready_cells
apart a h = ground (arith, h)

pub k₀-Waiting : Waiting k₀ 50 waiting ready_cells waiting_cells
k₀-Waiting = record {
  at_wq = refl;
  ready_queue = k₀-ready;
  wait_queue = k₀-waiting;
  apart = apart;
  objects = (omega arith, (thread 3 blocked, refl), tt);
}

pub k₀-Runs : Runs k₀ 1 11 (thread 0 running) ((2, 12) ∷ (3, 13) ∷ [])
k₀-Runs = record { ready_queue = k₀-ready; ne_null = omega arith; holds = refl }

abbrev pub k₀-CanSleep : CanSleep k₀ 50 waiting 1 11 2 12 ((3, 13) ∷ []) waiting_cells
k₀-CanSleep = record {
  at_wq = refl;
  ready_queue = k₀-ready;
  wait_queue = k₀-waiting;
  apart = apart;
  objects = (omega arith, (thread 0 running, refl), (omega arith, (thread 1 ready, refl), tt));
}
