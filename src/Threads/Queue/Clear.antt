-- ===== src/Threads/Queue/Clear.antt =====
-- threads/thread.c: clear_queue frees the nodes of a queue with their threads and stacks.
use ece344_operating_systems.Base.{
  ℕ, zero, suc, ◌+◌, ◌<◌, ◌≡◌, ◌≢◌, refl, ap, Bool, true, false, ◌||◌, Option, none, some, [], ◌∷◌,
  arith, ◌==◌, length,
}
use ece344_operating_systems.Base.Run.{Run, ok}
use ece344_operating_systems.Threads.Memory.{Ptr, null, Thread, Memory, write, is_null}
use ece344_operating_systems.Threads.Memory.Seg.{Cells, Nodes, Seg, cons, frame-write, null_of_nil}
use ece344_operating_systems.Threads.Queue.{WaitQueue, Queued, free_node, clear_loop, clear_queue}
use ece344_operating_systems.Threads.Queue.Ends.{IsQueue, node_at-Points}
use ece344_operating_systems.Threads.Queue.Status.{thread_at-some}

abbrev pub has_thread : Ptr → Cells → Bool
has_thread a [] = false
has_thread a ((_, th) ∷ xs) = (a == th) || has_thread a xs

-- The threads of the nodes are there, each one once.
abbrev pub OwnThreads : (Ptr → Option Thread) → Cells → Type 0
OwnThreads f [] = Unit
OwnThreads f ((_, th) ∷ xs) =
    (th ≢ null) × ((t : Thread) × (f th ≡ some t)) × (has_thread th xs ≡ false) × OwnThreads f xs

-- The stores without the nodes of a queue, and without their threads.
abbrev pub freed_nodes : Nodes → Cells → Nodes
freed_nodes f [] = f
freed_nodes f ((p, _) ∷ xs) = freed_nodes (write f p none) xs

abbrev pub freed_threads : (Ptr → Option Thread) → Cells → Ptr → Option Thread
freed_threads f [] = f
freed_threads f ((_, th) ∷ xs) = freed_threads (write f th none) xs

abbrev pub stack_of : Option Thread → Ptr
stack_of none = null
stack_of (some t) = t.stack

-- The stacks of the threads are allocated, each one once.
abbrev pub OwnStacks : (Ptr → Option Thread) → (Ptr → Bool) → Cells → Type 0
OwnStacks f g [] = Unit
OwnStacks f g ((_, th) ∷ xs) =
    (stack_of (f th) ≢ null)
    × (g (stack_of (f th)) ≡ true)
    × OwnStacks f (write g (stack_of (f th)) false) xs

-- The stacks without those of the threads.
abbrev pub freed_stacks : (Ptr → Option Thread) → (Ptr → Bool) → Cells → Ptr → Bool
freed_stacks f g [] = g
freed_stacks f g ((_, th) ∷ xs) = freed_stacks f (write g (stack_of (f th)) false) xs

module _ (f : Ptr → Option Thread) (a : Ptr) (c : Option Thread) where
  other_thread : (th : Ptr) → (a == th) ≡ false → write f a c th ≡ f th
  other_thread th h = ground (arith, h)

  pub OwnStacks-write :
      (g : Ptr → Bool) (xs : Cells)
      → has_thread a xs ≡ false
      → OwnStacks f g xs
      → OwnStacks (write f a c) g xs
  OwnStacks-write g [] out own = tt
  OwnStacks-write g ((p, th) ∷ xs) out own = rw (other_thread th (ground (arith, out))) (
    own.0,
    own.1,
    OwnStacks-write (write g (stack_of (f th)) false) xs (ground (arith, out)) own.2,
  )

  pub freed_stacks-write :
      (g : Ptr → Bool) (xs : Cells)
      → has_thread a xs ≡ false
      → freed_stacks (write f a c) g xs ≡ freed_stacks f g xs
  freed_stacks-write g [] out = refl
  freed_stacks-write g ((p, th) ∷ xs) out =
      rw (other_thread th (ground (arith, out)))
        (freed_stacks-write (write g (stack_of (f th)) false) xs (ground (arith, out)))

pub OwnThreads-write :
    (f : Ptr → Option Thread) (xs : Cells) (a : Ptr) (c : Option Thread)
    → has_thread a xs ≡ false
    → OwnThreads f xs
    → OwnThreads (write f a c) xs
OwnThreads-write f [] a c out own = tt
OwnThreads-write f ((p, th) ∷ xs) a c out own = (
  own.0,
  (own.1.0, ground (arith, own.1.1, out)),
  own.2,
  OwnThreads-write f xs a c (ground (arith, out)) own.3,
)

-- The queue is empty, and its nodes and their threads are freed, with their stacks.
pub record Clears (s : Queued) (xs : Cells) (r : Run Queued (Unit {0})) : Type 0 where
  pub run :
      r
      ≡ ok tt (record {
        memory = record {
          nodes = freed_nodes s.memory.nodes xs;
          threads = freed_threads s.memory.threads xs;
          stacks = freed_stacks s.memory.threads s.memory.stacks xs;
        };
        queue = record { size = 0; head = null; tail = null };
      })

abbrev queued : Memory → WaitQueue → Queued
queued m q = record { memory = m; queue = q }

not_null : (p : Ptr) → p ≢ null → is_null p ≡ false
not_null p h = ground (arith, h)

clear_loop-Clears :
    (fuel : ℕ) (m : Memory) (size h tail : Ptr) (xs : Cells)
    → Seg m.nodes h xs
    → OwnThreads m.threads xs
    → OwnStacks m.threads m.stacks xs
    → length xs < fuel
    → Clears
        (queued m (record { size = size; head = h; tail = tail }))
        xs
        (clear_loop fuel (queued m (record { size = size; head = h; tail = tail })))
unfolding clear_loop free_node
clear_loop-Clears zero m size h tail xs c own mine lt = ground arith
clear_loop-Clears (suc fuel) m size h tail [] c own mine lt =
    let empty : is_null h ≡ true = ground (arith, null_of_nil c) in record { run = rw empty refl }
clear_loop-Clears (suc fuel) m size h tail ((p, th) ∷ xs) (cons {next} e out c) own mine lt =
    let some_left : is_null p ≡ false = ground (arith, e.ne_null) in
    let s : Queued = queued m (record { size = size; head = p; tail = tail }) in
    let m' : Memory = record {
      nodes = write m.nodes p none;
      threads = write m.threads th none;
      stacks = write m.stacks own.1.0.stack false;
    } in
    let its : stack_of (m.threads th) ≡ own.1.0.stack = ap stack_of own.1.1 in
    let valid : is_null own.1.0.stack ≡ false = not_null (own.1.0.stack) (rw its at mine.0) in
    let there : m.stacks own.1.0.stack ≡ true = rw its at mine.1 in
    let rest =
      clear_loop-Clears fuel m' size next tail xs (frame-write p none c out)
        (OwnThreads-write m.threads xs th none own.2 own.3)
        (OwnStacks-write m.threads th none m'.stacks xs own.2 (rw its at mine.2))
        (omega (arith, lt)) in
    record {
      run =
          rw
            (
              some_left,
              node_at-Points s e,
              node_at-Points s e,
              thread_at-some s th own.1.0 own.0 own.1.1,
              valid,
              there,
              rest.run,
              freed_stacks-write m.threads th none m'.stacks xs own.2,
              its,
            )
            refl;
    }

-- clear_queue.
pub clear_queue-Clears :
    (s : Queued) (xs : Cells)
    → IsQueue s.memory.nodes s.queue xs
    → OwnThreads s.memory.threads xs
    → OwnStacks s.memory.threads s.memory.stacks xs
    → Clears s xs (clear_queue s)
unfolding clear_queue
clear_queue-Clears s xs is own mine =
    clear_loop-Clears (s.queue.size + 1) s.memory s.queue.size s.queue.head s.queue.tail xs is.chain
      own mine (omega (arith, is.count))
