-- ===== src/Threads/Queue/Find.antt =====
-- threads/thread.c: find_in_queue_with_prev.
use ece344_operating_systems.Base.{
  ℕ, zero, suc, ◌+◌, ◌<◌, ◌≡◌, ◌≢◌, refl, true, false, Option, some, [], ◌∷◌, ◌++◌, arith, length,
  length-append, ap,
}
use ece344_operating_systems.Base.Int.{ℤ}
use ece344_operating_systems.Base.Run.{ok}
use ece344_operating_systems.Threads.Memory.{Ptr, null, Thread}
use ece344_operating_systems.Threads.Memory.Seg.{
  Cells, Points, Points-not_null, Seg, nil, cons, EndsAt, first-Seg,
}
use ece344_operating_systems.Threads.Queue.{
  Queued, id_of, same_tid, find_loop_with_prev, find_in_queue_with_prev,
}
use ece344_operating_systems.Threads.Queue.Ends.{IsQueue, node_at-Points}
use ece344_operating_systems.Threads.Queue.Status.{thread_at-some}

abbrev pub Threads : Type 0
Threads = Ptr → Option Thread

-- The thread at `th` has the id `tid`.
abbrev pub HasTid : Threads → ℤ → Ptr → Type 0
HasTid f tid th = (th ≢ null) × ((t : Thread) × (f th ≡ some t) × (same_tid t.id tid ≡ true))

-- The threads of the cells exist, and none has the id `tid`.
abbrev pub OtherTids : Threads → ℤ → Cells → Type 0
OtherTids f tid [] = Unit
OtherTids f tid ((_, th) ∷ xs) =
    (th ≢ null)
    × ((t : Thread) × (f th ≡ some t) × (same_tid t.id tid ≡ false))
    × OtherTids f tid xs

-- p->thread->id, where the node and its thread exist
pub id_of-some :
    (s : Queued) {p th next : Ptr} (t : Thread)
    → Points s.memory.nodes p th next
    → th ≢ null
    → s.memory.threads th ≡ some t
    → id_of p s ≡ ok t.id s
unfolding id_of
id_of-some s {th} t e h held = rw (node_at-Points s e, thread_at-some s th t h held) refl

module _ (s : Queued) (tid : ℤ) where
  find_loop-hit :
      (fuel : ℕ) (h p th : Ptr) (xs : Cells) (prev n thn : Ptr) (ys : Cells)
      → Seg s.memory.nodes h ((p, th) ∷ xs ++ (n, thn) ∷ ys)
      → EndsAt ((p, th) ∷ xs) prev
      → OtherTids s.memory.threads tid xs
      → HasTid s.memory.threads tid thn
      → length xs < fuel
      → find_loop_with_prev fuel h tid s ≡ ok (n, prev) s
  unfolding find_loop_with_prev
  find_loop-hit zero h p th xs prev n thn ys c end others this lt = elim lt [ ]
  find_loop-hit (suc fuel) h p th [] prev n thn ys (cons {next} e out c) end others this lt =
      let a = first-Seg n thn ys c in
      rw
        (
          node_at-Points s e,
          Points-not_null a.points,
          id_of-some s this.1.0 a.points this.0 this.1.1,
          this.1.2,
        )
        (ap (λ b. ok b s) (ground (arith, end, a.at_head)))
  find_loop-hit (suc fuel) h p th ((p', th') ∷ xs) prev n thn ys (cons {next} e out c) end others
        this lt =
      let a = first-Seg p' th' (xs ++ (n, thn) ∷ ys) c in
      rw
        (
          node_at-Points s e,
          Points-not_null a.points,
          id_of-some s others.1.0 a.points others.0 others.1.1,
          others.1.2,
        )
        (find_loop-hit fuel next p' th' xs prev n thn ys c end others.2 this (omega (arith, lt)))

  find_loop-miss :
      (fuel : ℕ) (h p th : Ptr) (xs : Cells) (prev : Ptr)
      → Seg s.memory.nodes h ((p, th) ∷ xs)
      → EndsAt ((p, th) ∷ xs) prev
      → OtherTids s.memory.threads tid xs
      → length xs < fuel
      → find_loop_with_prev fuel h tid s ≡ ok (null, prev) s
  unfolding find_loop_with_prev
  find_loop-miss zero h p th xs prev c end others lt = elim lt [ ]
  find_loop-miss (suc fuel) h p th [] prev (cons e out nil) end others lt =
      rw (node_at-Points s e) (ap (λ b. ok b s) (ground (arith, end)))
  find_loop-miss (suc fuel) h p th ((p', th') ∷ xs) prev (cons {next} e out c) end others lt =
      let a = first-Seg p' th' xs c in
      rw
        (
          node_at-Points s e,
          Points-not_null a.points,
          id_of-some s others.1.0 a.points others.0 others.1.1,
          others.1.2,
        )
        (find_loop-miss fuel next p' th' xs prev c end others.2 (omega (arith, lt)))

  -- Where the head has another id, the first node with the id is found, with the one before it.
  pub find_in_queue_with_prev-hit :
      (x : Ptr × Ptr) (xs : Cells) (prev n thn : Ptr) (ys : Cells)
      → IsQueue s.memory.nodes s.queue ((x ∷ xs) ++ (n, thn) ∷ ys)
      → EndsAt (x ∷ xs) prev
      → OtherTids s.memory.threads tid (x ∷ xs)
      → HasTid s.memory.threads tid thn
      → find_in_queue_with_prev tid s ≡ ok (n, prev) s
  unfolding find_in_queue_with_prev
  find_in_queue_with_prev-hit (p, th) xs prev n thn ys is end others this =
      let a = first-Seg p th (xs ++ (n, thn) ∷ ys) is.chain in
      rw (id_of-some s others.1.0 a.points others.0 others.1.1, others.1.2)
        (find_loop-hit (s.queue.size + 1) s.queue.head p th xs prev n thn ys is.chain end others.2
          this (omega (arith, is.count, length-append {0} xs ((n, thn) ∷ ys))))

  -- Where no node has the id, none is found.
  pub find_in_queue_with_prev-miss :
      (x : Ptr × Ptr) (xs : Cells)
      → IsQueue s.memory.nodes s.queue (x ∷ xs)
      → OtherTids s.memory.threads tid (x ∷ xs)
      → find_in_queue_with_prev tid s ≡ ok (null, s.queue.tail) s
  unfolding find_in_queue_with_prev
  find_in_queue_with_prev-miss (p, th) xs is others =
      let a = first-Seg p th xs is.chain in
      rw (id_of-some s others.1.0 a.points others.0 others.1.1, others.1.2)
        (find_loop-miss (s.queue.size + 1) s.queue.head p th xs s.queue.tail is.chain is.ends
          others.2 (omega (arith, is.count)))
