-- ===== src/Threads/Examples.antt =====
-- The theorems on threads/ at concrete inputs.
use ece344_operating_systems.Base.{◌≡◌, refl, true, false, none, some, [], ◌∷◌, arith}
use ece344_operating_systems.Base.Int.{pos}
use ece344_operating_systems.Base.Run.{ok}
use ece344_operating_systems.Threads.Memory.{null, running, ready, Memory, write}
use ece344_operating_systems.Threads.Kernel.{returned, thread_invalid, thread_nomemory}
use ece344_operating_systems.Threads.Create.{free_tid, thread_create}
use ece344_operating_systems.Threads.Create.Outcome.{
  Creates, thread_create-Creates, thread_create-nomemory,
}
use ece344_operating_systems.Threads.Wait.{thread_wakeup, thread_sleep}
use ece344_operating_systems.Threads.Wait.Wake.{Wakes}
use ece344_operating_systems.Threads.Wait.Wakeup.{thread_wakeup_all-Wakes}
use ece344_operating_systems.Threads.Wait.Sleep.{Sleeps, thread_sleep-Sleeps}
use ece344_operating_systems.Threads.Yield.{thread_yield}
use ece344_operating_systems.Threads.Yield.Outcome.{
  Yields, thread_yield-Yields, thread_yield-refused,
}
use ece344_operating_systems.Threads.Small.{
  thread, waiting, k₀, ready_cells, waiting_cells, k₀-ready, k₀-Waiting, k₀-CanSleep,
}

thread_yield-Yields_example :
    Yields k₀ 11
      (thread 0 running)
      13
      (pos 2)
      ((3, 13) ∷ (2, 12) ∷ (1, 11) ∷ [])
      (thread_yield (pos 2) k₀)
thread_yield-Yields_example =
    thread_yield-Yields k₀ 2 1 11 (thread 0 running) ((2, 12) ∷ []) 2 3 13 [] k₀-ready refl
      (record { ne_null = omega arith; holds = refl })
      (omega arith, (thread 0 running, refl, refl), (omega arith, (thread 1 ready, refl, refl), tt))
      (omega arith, (thread 2 ready, refl, refl))

thread_wakeup_all-Wakes_example :
    Wakes k₀ 50 ready_cells waiting_cells [] 1 (thread_wakeup 50 true k₀)
thread_wakeup_all-Wakes_example =
    thread_wakeup_all-Wakes k₀ 50 waiting ready_cells waiting_cells k₀-Waiting (omega arith)

thread_sleep-Sleeps_example :
    Sleeps k₀ 50 1 11 2 12
      (thread 0 running)
      (thread 1 ready)
      ((3, 13) ∷ [])
      waiting_cells
      (thread_sleep 50 k₀)
thread_sleep-Sleeps_example =
    thread_sleep-Sleeps k₀ 50 waiting 1 11 2 12 ((3, 13) ∷ []) waiting_cells k₀-CanSleep
      (omega arith)

thread_create-Creates_example : Creates k₀ 15 104 5 ready_cells (thread_create 15 104 5 k₀)
thread_create-Creates_example =
    thread_create-Creates k₀ 15 104 5 ready_cells k₀-ready (omega arith) (omega arith) (omega arith)
      refl

free_four : free_tid 1024 0 k₀.threads ≡ some 4
unfolding free_tid
free_four = refl

thread_create-nomemory_example :
    (thread_create null 104 5 k₀ ≡ ok thread_nomemory k₀)
    × (thread_create 15 null 5 k₀
        ≡ ok thread_nomemory (record k₀ {
          memory = record (k₀.memory) { threads = write k₀.memory.threads 15 none };
        }))
    × ((m : Memory) × (thread_create 15 104 null k₀ ≡ ok thread_nomemory (record k₀ { memory = m }))
        × (m.nodes ≡ k₀.memory.nodes)
        × (m.threads 15 ≡ none)
        × (m.stacks 104 ≡ false))
thread_create-nomemory_example =
    thread_create-nomemory k₀ 15 104 5 4 free_four (omega arith) (omega arith)

thread_yield-refused_example : thread_yield (pos 9) k₀ ≡ ok (returned thread_invalid) k₀
thread_yield-refused_example = thread_yield-refused k₀ 9 1 11 ((2, 12) ∷ (3, 13) ∷ []) k₀-ready (
  omega arith,
  (thread 0 running, refl, refl),
  (omega arith, (thread 1 ready, refl, refl), (omega arith, (thread 2 ready, refl, refl), tt)),
)
