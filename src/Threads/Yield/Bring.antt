-- ===== src/Threads/Yield/Bring.antt =====
-- threads/thread.c: the two moves of thread_yield.
use mathlib.Core.Path.{subst}
use mathlib.Core.List.{append_assoc}
use ece344_operating_systems.Base.{
  ◌≡◌, refl, true, [], ◌∷◌, ◌++◌, arith, ◌==◌, leb, Bool-cases, inl, inr,
}
use ece344_operating_systems.Base.Run.{ok}
use ece344_operating_systems.Threads.Memory.{Ptr}
use ece344_operating_systems.Threads.Memory.Seg.{Cells, Nodes, EndsAt, first-Seg}
use ece344_operating_systems.Threads.Queue.{WaitQueue, Queued, move_head_to_end, move_to_head}
use ece344_operating_systems.Threads.Queue.Ends.{IsQueue, moved}
use ece344_operating_systems.Threads.Queue.Rotate.{move_head_to_end-Becomes}
use ece344_operating_systems.Threads.Queue.Front.{move_to_head-Becomes}

-- The head goes to the end, and then the node `n` to the front.
pub record Brings (s : Queued) (prev n : Ptr) (ys : Cells) : Type 0 where
  pub nodes₁ : Nodes
  pub queue₁ : WaitQueue
  pub nodes : Nodes
  pub queue : WaitQueue
  pub rotate : move_head_to_end s ≡ ok tt (moved s nodes₁ queue₁)
  pub front : move_to_head n prev (moved s nodes₁ queue₁) ≡ ok tt (moved s nodes queue)
  pub valid : IsQueue nodes queue ys

move_to_head-same :
    (s : Queued) (prev n thn : Ptr) (ys : Cells)
    → IsQueue s.memory.nodes s.queue ((n, thn) ∷ ys)
    → move_to_head n prev s ≡ ok tt s
unfolding move_to_head
move_to_head-same s prev n thn ys is =
    let e : (n == s.queue.head) ≡ true = ground (arith, (first-Seg n thn ys is.chain).at_head) in
    elim (Bool-cases (leb s.queue.size 1)) [ inl few ↦ rw few refl | inr many ↦ rw (many, e) refl ]

pub Brings_lem :
    (s : Queued) (p th : Ptr) (xs : Cells) (prev n thn : Ptr) (ys : Cells)
    → IsQueue s.memory.nodes s.queue (((p, th) ∷ xs) ++ (n, thn) ∷ ys)
    → EndsAt ((p, th) ∷ xs) prev
    → Brings s prev n ((n, thn) ∷ xs ++ (ys ++ (p, th) ∷ []))
Brings_lem s p th [] prev n thn ys is end =
    let r = move_head_to_end-Becomes s p th (n, thn) ys is in
    record {
      nodes₁ = r.nodes;
      queue₁ = r.queue;
      nodes = r.nodes;
      queue = r.queue;
      rotate = r.run;
      front = move_to_head-same (moved s r.nodes r.queue) prev n thn (ys ++ (p, th) ∷ []) r.valid;
      valid = r.valid;
    }
Brings_lem s p th (y ∷ xs) prev n thn ys is end =
    let r = move_head_to_end-Becomes s p th y (xs ++ (n, thn) ∷ ys) is in
    let valid : IsQueue r.nodes r.queue ((y ∷ xs) ++ (n, thn) ∷ (ys ++ (p, th) ∷ [])) =
      subst (λ zs. IsQueue r.nodes r.queue (y ∷ zs))
        (append_assoc xs ((n, thn) ∷ ys) ((p, th) ∷ [])) r.valid in
    let m =
      move_to_head-Becomes (moved s r.nodes r.queue) y xs prev n thn (ys ++ (p, th) ∷ []) valid
        end in
    record {
      nodes₁ = r.nodes;
      queue₁ = r.queue;
      nodes = m.nodes;
      queue = m.queue;
      rotate = r.run;
      front = m.run;
      valid = m.valid;
    }
