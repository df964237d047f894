-- ===== src/Threads/Create/Outcome.antt =====
-- threads/thread.c: thread_create on every branch.
use mathlib.Core.Path.{subst}
use ece344_operating_systems.Base.{
  ℕ, zero, suc, ◌+◌, ◌<◌, ◌≤◌, ◌≡◌, ◌≢◌, refl, true, false, Option, none, some, [], ◌∷◌, ◌++◌,
  arith, ◌==◌, Bool-cases, inl, inr, ◌∙◌,
}
use ece344_operating_systems.Base.Int.{ℤ, pos}
use ece344_operating_systems.Base.Run.{Run, ok}
use ece344_operating_systems.Threads.Memory.{Ptr, null, ready, Thread, Memory, write, is_null}
use ece344_operating_systems.Threads.Memory.Seg.{Cells, Nodes, link, has}
use ece344_operating_systems.Threads.Queue.{Queued, append_to_queue}
use ece344_operating_systems.Threads.Queue.Ends.{
  IsQueue, IsQueue-frame, moved, Becomes, append_node_to_queue-Becomes,
}
use ece344_operating_systems.Threads.Kernel.{
  Kernel, interrupts_set, set_slot, thread_nomore, thread_nomemory, thread_max_threads,
}
use ece344_operating_systems.Threads.Create.{free_tid, thread_create_with, thread_create}

-- The least free id from `i` on, among `n`.
pub data FreeTid (f : ℕ → Ptr) (i n : ℕ) : Option ℕ → Type 0 where
  taken : ((j : ℕ) → i ≤ j → j < i + n → is_null (f j) ≡ false) → FreeTid f i n none
  least :
      {id : ℕ}
      → i ≤ id
      → id < i + n
      → is_null (f id) ≡ true
      → ((j : ℕ) → i ≤ j → j < id → is_null (f j) ≡ false)
      → FreeTid f i n (some id)

-- What holds at `i` and behind it holds from `i` on.
not_null-from :
    (f : ℕ → Ptr) (i j : ℕ)
    → is_null (f i) ≡ false
    → (i + 1 ≤ j → is_null (f j) ≡ false)
    → i ≤ j
    → is_null (f j) ≡ false
not_null-from f i j e behind h = elim (Bool-cases (i == j)) [
  | inl at ↦ let same : i ≡ j = ground (arith, at) in subst (λ a. is_null (f a) ≡ false) same e
  | inr off ↦ behind (ground (arith, off, h))
]

FreeTid-suc :
    (f : ℕ → Ptr) (i n : ℕ) {r : Option ℕ}
    → is_null (f i) ≡ false
    → FreeTid f (i + 1) n r
    → FreeTid f i (suc n) r
FreeTid-suc f i n e (FreeTid.taken all) =
    FreeTid.taken (λ j h l. not_null-from f i j e (λ k. all j k (omega (arith, l))) h)
FreeTid-suc f i n e (FreeTid.least lo hi free all) =
    FreeTid.least (omega (arith, lo)) (omega (arith, hi)) free
      (λ j h l. not_null-from f i j e (λ k. all j k l) h)

free_tid-FreeTid : (n i : ℕ) (f : ℕ → Ptr) → FreeTid f i n (free_tid n i f)
unfolding free_tid
free_tid-FreeTid zero i f = FreeTid.taken (λ j h l. absurd (omega (arith, h, l)))
free_tid-FreeTid (suc n) i f = elim (Bool-cases (is_null (f i))) [
  | inl e ↦
      rw (e, free_tid)
        (FreeTid.least (omega arith) (omega arith) e (λ j h l. absurd (omega (arith, h, l))))
  | inr e ↦ rw (e, free_tid) (FreeTid-suc f i n e (free_tid-FreeTid n (i + 1) f))
]

-- A new node for the thread goes to the end of the queue.
append_to_queue-Becomes :
    (s : Queued) (xs : Cells) (node th : Ptr)
    → IsQueue s.memory.nodes s.queue xs
    → node ≢ null
    → has node xs ≡ false
    → Becomes s ((node, th) ∷ xs) (xs ++ (node, th) ∷ []) true (append_to_queue node th s)
unfolding append_to_queue
append_to_queue-Becomes s xs node th is h fresh =
    let here : is_null node ≡ false = ground (arith, h) in
    let f : Nodes = write s.memory.nodes node (link th null) in
    let is₁ : IsQueue f s.queue xs = IsQueue-frame f is (λ a i. ground (arith, i, fresh)) in
    let b =
      append_node_to_queue-Becomes (moved s f s.queue) xs node th is₁
        (record { ne_null = h; holds = ground arith }) fresh in
    record {
      nodes = b.nodes;
      queue = b.queue;
      run = rw (here, b.run) refl;
      valid = b.valid;
      outside = λ a out. b.outside a (ground (arith, out)) ∙ ground (arith, out);
    }

-- What thread_create may do, where memory is left: there is no free id, or the least one is taken
-- and the new thread is ready, at the end of the ready queue.
pub data Creates (s : Kernel) (th stack node : Ptr) (rs : Cells) : Run Kernel ℤ → Type 0 where
  no_id :
      ((j : ℕ) → j < thread_max_threads → is_null (s.threads j) ≡ false)
      → Creates s th stack node rs (ok thread_nomore s)
  created :
      {s' : Kernel} {id : ℕ}
      → id < thread_max_threads
      → is_null (s.threads id) ≡ true
      → ((j : ℕ) → j < id → is_null (s.threads j) ≡ false)
      → s'.threads ≡ set_slot s.threads id th
      → s'.memory.threads th ≡ some (record { id = id; status = ready; stack = stack })
      → IsQueue s'.memory.nodes s'.rq (rs ++ (node, th) ∷ [])
      → s'.enabled ≡ s.enabled
      → Creates s th stack node rs (ok (pos id) s')

module _ (s : Kernel) (th stack node : Ptr) (rs : Cells) (is : IsQueue s.memory.nodes s.rq rs)
    (th_ok : th ≢ null) (stack_ok : stack ≢ null) (node_ok : node ≢ null)
    (fresh : has node rs ≡ false) where
  thread_create_with-Creates :
      (r : Option ℕ)
      → FreeTid s.threads 0 thread_max_threads r
      → Creates s th stack node rs
          (thread_create_with s.enabled th stack node r (record s { enabled = false }))
  unfolding thread_create_with interrupts_set
  thread_create_with-Creates none (FreeTid.taken all) =
      Creates.no_id (λ j h. all j (omega arith) (omega (arith, h)))
  thread_create_with-Creates (some id) (FreeTid.least lo hi free all) =
      let a : is_null th ≡ false = ground (arith, th_ok) in
      let b : is_null stack ≡ false = ground (arith, stack_ok) in
      let t : Thread = record { id = id; status = ready; stack = stack } in
      let m : Memory = record (s.memory) {
        threads = write s.memory.threads th (some t);
        stacks = write s.memory.stacks stack true;
      } in
      let c =
        append_to_queue-Becomes (record { memory = m; queue = s.rq }) rs node th is node_ok fresh in
      rw (a, b, c.run)
        (Creates.created (omega (arith, hi)) free (λ j h. all j (omega arith) h) refl (ground arith)
          c.valid refl)

  -- thread_create, where every malloc succeeds, answers THREAD_NOMORE and changes nothing where
  -- every id is taken; else it answers the least free id, stores the thread under it, makes it
  -- ready at the end of the ready queue, and leaves interrupts as they were.
  pub thread_create-Creates : Creates s th stack node rs (thread_create th stack node s)
  unfolding thread_create interrupts_set
  thread_create-Creates =
      thread_create_with-Creates (free_tid thread_max_threads 0 s.threads)
        (free_tid-FreeTid thread_max_threads 0 s.threads)

-- thread_create with a free id answers THREAD_NOMEMORY where malloc fails for the thread, its
-- stack or its node. The ids and the queues stay, and the thread and the stack that were allocated
-- before are freed.
pub thread_create-nomemory :
    (s : Kernel) (th stack node id : Ptr)
    → free_tid thread_max_threads 0 s.threads ≡ some id
    → th ≢ null
    → stack ≢ null
    → (thread_create null stack node s ≡ ok thread_nomemory s)
      × (thread_create th null node s
          ≡ ok thread_nomemory (record s {
            memory = record (s.memory) { threads = write s.memory.threads th none };
          }))
      × ((m : Memory) × (thread_create th stack null s
            ≡ ok thread_nomemory (record s { memory = m }))
          × (m.nodes ≡ s.memory.nodes)
          × (m.threads th ≡ none)
          × (m.stacks stack ≡ false))
unfolding thread_create thread_create_with append_to_queue interrupts_set
thread_create-nomemory s th stack node id e th_ok stack_ok =
    let a : is_null th ≡ false = ground (arith, th_ok) in
    let b : is_null stack ≡ false = ground (arith, stack_ok) in
    let c : (stack == stack) ≡ true = ground arith in
    let m : Memory = record (s.memory) {
      threads =
          write
            (write s.memory.threads th (some (record { id = id; status = ready; stack = stack })))
            th none;
      stacks = write (write s.memory.stacks stack true) stack false;
    } in
    (rw e refl, rw (e, a) refl, (m, rw (e, a, b, b, c) refl, refl, ground arith, ground arith))
