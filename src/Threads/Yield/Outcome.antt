-- ===== src/Threads/Yield/Outcome.antt =====
-- threads/thread.c: thread_yield on every branch.
use mathlib.Core.Path.{subst}
use mathlib.Core.List.{append_assoc}
use ece344_operating_systems.Base.{
  ℕ, ◌≡◌, ◌≢◌, refl, sym, Bool, false, some, [], ◌∷◌, ◌++◌, arith, ◌==◌, ap, ◌∙◌,
}
use ece344_operating_systems.Base.Int.{ℤ, pos}
use ece344_operating_systems.Base.Run.{Run, ok}
use ece344_operating_systems.Threads.Memory.{Ptr, null, ready, Thread, Memory, write}
use ece344_operating_systems.Threads.Memory.Seg.{
  Cells, Points-not_null, EndsAt, first-Seg, middle-Seg,
}
use ece344_operating_systems.Threads.Queue.{Queued, changed}
use ece344_operating_systems.Threads.Queue.Ends.{IsQueue, node_at-Points}
use ece344_operating_systems.Threads.Queue.Find.{
  Threads, HasTid, OtherTids, id_of-some, find_in_queue_with_prev-hit, find_in_queue_with_prev-miss,
}
use ece344_operating_systems.Threads.Queue.Rotate.{move_head_to_end-Becomes}
use ece344_operating_systems.Threads.Queue.Status.{set_thread_status-some}
use ece344_operating_systems.Threads.Kernel.{
  Kernel, Control, switched, returned, interrupts_set, thread_id, thread_any, thread_invalid,
}
use ece344_operating_systems.Threads.Yield.{
  yield_to, chosen, choose, choose_any, choose_tid, thread_yield,
}
use ece344_operating_systems.Threads.Yield.Bring.{Brings_lem}

-- The context of the thread `to` is set, and the call will return `result`: the ready queue holds
-- `ys`, and the thread `th`, which was running, is ready unless it has exited.
pub record Yields (s : Kernel) (th : Ptr) (t : Thread) (to : Ptr) (result : ℤ) (ys : Cells)
    (r : Run Kernel Control) : Type 0 where
  pub state : Kernel
  pub run : r ≡ ok (switched to result s.enabled) state
  pub ready_queue : IsQueue state.memory.nodes state.rq ys
  pub status : state.memory.threads th ≡ some (record t { status = changed t.status ready })
  pub others : (a : Ptr) → (a == th) ≡ false → state.memory.threads a ≡ s.memory.threads a
  pub queues : state.queues ≡ s.queues
  pub masked : state.enabled ≡ false

-- A thread that exists.
pub record Exists (f : Threads) (th : Ptr) (t : Thread) : Type 0 where
  pub ne_null : th ≢ null
  pub holds : f th ≡ some t

abbrev pub made_ready : Kernel → Ptr → Thread → Kernel
made_ready s th t = record s {
  memory = record (s.memory) {
    threads = write s.memory.threads th (some (record t { status = changed t.status ready }));
  };
}

-- The end of thread_yield, once the chosen node is at the front and the current one at the end.
yield_to-chosen :
    (s : Kernel) (enabled : Bool) (result : ℤ) (p th : Ptr) (t : Thread) (n thn : Ptr) (zs : Cells)
    → IsQueue s.memory.nodes s.rq ((n, thn) ∷ zs ++ (p, th) ∷ [])
    → Exists s.memory.threads th t
    → yield_to enabled p (chosen n result) s ≡ ok (switched thn result enabled) (made_ready s th t)
yield_to-chosen s enabled result p th t n thn zs is e =
    let q : Queued = record { memory = s.memory; queue = s.rq } in
    let a = middle-Seg ((n, thn) ∷ zs) p th [] is.chain in
    let b = middle-Seg [] n thn (zs ++ (p, th) ∷ []) is.chain in
    let m : Memory = (made_ready s th t).memory in
    rw
      (
        node_at-Points q a.1,
        set_thread_status-some q th t e.ne_null e.holds ready,
        node_at-Points (record { memory = m; queue = s.rq }) b.1,
      )
      refl

-- thread_yield to the id of a thread in the ready queue behind the running one sets the context of
-- that thread and will return its id. The thread is taken out of its place to the front of the
-- queue, the running one goes to the end and is ready unless it has exited, all others keep their
-- order and their state, and interrupts are off.
pub thread_yield-Yields :
    (s : Kernel) (k : ℕ) (p th : Ptr) (t : Thread) (xs : Cells) (prev n thn : Ptr) (ys : Cells)
    → IsQueue s.memory.nodes s.rq (((p, th) ∷ xs) ++ (n, thn) ∷ ys)
    → EndsAt ((p, th) ∷ xs) prev
    → Exists s.memory.threads th t
    → OtherTids s.memory.threads (pos k) ((p, th) ∷ xs)
    → HasTid s.memory.threads (pos k) thn
    → Yields s th t thn (pos k) ((n, thn) ∷ xs ++ (ys ++ (p, th) ∷ [])) (thread_yield (pos k) s)
unfolding thread_yield choose choose_tid thread_id interrupts_set
thread_yield-Yields s k p th t xs prev n thn ys is end e others this =
    let q₀ : Queued = record { memory = s.memory; queue = s.rq } in
    let a = first-Seg p th (xs ++ (n, thn) ∷ ys) is.chain in
    let b = Brings_lem q₀ p th xs prev n thn ys is end in
    let c = middle-Seg [] n thn (xs ++ (ys ++ (p, th) ∷ [])) b.valid.chain in
    let s₂ : Kernel = record s {
      memory = record (s.memory) { nodes = b.nodes };
      rq = b.queue;
      enabled = false;
    } in
    let valid : IsQueue b.nodes b.queue ((n, thn) ∷ (xs ++ ys) ++ (p, th) ∷ []) =
      subst (λ zs. IsQueue b.nodes b.queue ((n, thn) ∷ zs))
        (sym (append_assoc xs ys ((p, th) ∷ []))) b.valid in
    record {
      state = made_ready s₂ th t;
      run =
          rw
            (
              id_of-some q₀ others.1.0 a.points others.0 others.1.1,
              others.1.2,
              find_in_queue_with_prev-hit q₀ (pos k) (p, th) xs prev n thn ys is end others this,
              Points-not_null c.1,
              b.rotate,
              b.front,
            )
            (ap (λ h. yield_to s.enabled h (chosen n (pos k)) s₂) a.at_head
              ∙ yield_to-chosen s₂ s.enabled (pos k) p th t n thn (xs ++ ys) valid
                  (record { ne_null = e.ne_null; holds = e.holds }));
      ready_queue = b.valid;
      status = ground arith;
      others = λ i o. ground (arith, o);
      queues = refl;
      masked = refl;
    }

-- thread_yield to any thread, with another one that is ready, sets the context of the next thread
-- in the ready queue and will return its id; the running thread goes to the end of the queue and
-- is ready unless it has exited.
pub thread_yield_any-Yields :
    (s : Kernel) (p th : Ptr) (t : Thread) (n thn : Ptr) (u : Thread) (ys : Cells)
    → IsQueue s.memory.nodes s.rq ((p, th) ∷ (n, thn) ∷ ys)
    → Exists s.memory.threads th t
    → Exists s.memory.threads thn u
    → Yields s th t thn (pos u.id) ((n, thn) ∷ ys ++ (p, th) ∷ []) (thread_yield thread_any s)
unfolding thread_yield choose choose_any interrupts_set
thread_yield_any-Yields s p th t n thn u ys is e d =
    let q₀ : Queued = record { memory = s.memory; queue = s.rq } in
    let a = first-Seg p th ((n, thn) ∷ ys) is.chain in
    let b = first-Seg n thn ys a.rest in
    let r = move_head_to_end-Becomes q₀ p th (n, thn) ys is in
    let many : (s.rq.size == 1) ≡ false = ground (arith, is.count) in
    let s₂ : Kernel = record s {
      memory = record (s.memory) { nodes = r.nodes };
      rq = r.queue;
      enabled = false;
    } in
    record {
      state = made_ready s₂ th t;
      run =
          rw (many, node_at-Points q₀ a.points, id_of-some q₀ u b.points d.ne_null d.holds, r.run)
            (ap (λ h. yield_to s.enabled h (chosen a.next (pos u.id)) s₂) a.at_head
              ∙ ap (λ h. yield_to s.enabled p (chosen h (pos u.id)) s₂) b.at_head
              ∙ yield_to-chosen s₂ s.enabled (pos u.id) p th t n thn ys r.valid
                  (record { ne_null = e.ne_null; holds = e.holds }));
      ready_queue = r.valid;
      status = ground arith;
      others = λ i o. ground (arith, o);
      queues = refl;
      masked = refl;
    }

-- thread_yield to an id that no thread in the ready queue has answers THREAD_INVALID and changes
-- nothing; interrupts are as they were.
pub thread_yield-refused :
    (s : Kernel) (k : ℕ) (p th : Ptr) (xs : Cells)
    → IsQueue s.memory.nodes s.rq ((p, th) ∷ xs)
    → OtherTids s.memory.threads (pos k) ((p, th) ∷ xs)
    → thread_yield (pos k) s ≡ ok (returned thread_invalid) s
unfolding thread_yield choose choose_tid thread_id interrupts_set
thread_yield-refused s k p th xs is others =
    let q₀ : Queued = record { memory = s.memory; queue = s.rq } in
    let a = first-Seg p th xs is.chain in
    rw
      (
        id_of-some q₀ others.1.0 a.points others.0 others.1.1,
        others.1.2,
        find_in_queue_with_prev-miss q₀ (pos k) (p, th) xs is others,
      )
      refl
