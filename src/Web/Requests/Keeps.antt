-- ===== src/Web/Requests/Keeps.antt =====
-- webserver/server_thread.c: while the server is not exiting, no index of the buffer goes round.
use mathlib.Core.Path.{subst}
use native.Mathlib.Nat.{mod-eq_of_lt}
use ece344_operating_systems.Base.{
  ℕ, ◌+◌, ◌%◌, ltb→lt, ◌≤◌, ◌<◌, ◌≡◌, refl, true, false, not, ◌&&◌, ltb, arith, Bool-cases, inl,
  inr,
}
use ece344_operating_systems.Web.Requests.{
  Server, server_init, is_full, is_empty, AddResult, added, add_request, TakeResult, took,
  take_request, Step, Reach,
}

-- The ring has `k + 1` places, and the array `k`; the requests lie between the indices, which have
-- not gone round the ring while the server is not exiting.
pub record Unwrapped (k : ℕ) (sv : Server) : Type 0 where
  pub ring : sv.buffer.max_size ≡ k + 1
  pub array : sv.buffer.allocated ≡ k
  pub in_array : sv.exiting ≡ false → sv.buffer.next_in ≤ k
  pub ordered : sv.exiting ≡ false → sv.buffer.next_out ≤ sv.buffer.next_in

AfterAdd : ℕ → AddResult → Type 0
AfterAdd k AddResult.waits = Unit
AfterAdd k AddResult.outside = Unit
AfterAdd k (added woken sv) = Unwrapped k sv

AfterTake : ℕ → TakeResult → Type 0
AfterTake k TakeResult.waits = Unit
AfterTake k TakeResult.outside = Unit
AfterTake k (took woken connfd sv) = Unwrapped k sv

module _ (k : ℕ) (sv : Server) (inv : Unwrapped k sv) where
  next_place : (i : ℕ) → i < sv.buffer.allocated → (i + 1) % sv.buffer.max_size ≡ i + 1
  next_place i h = mod-eq_of_lt (omega (arith, inv.ring, inv.array, h))

  add_request-Unwrapped : (connfd : ℕ) → AfterAdd k (add_request sv connfd)
  unfolding AfterAdd add_request
  add_request-Unwrapped connfd = elim (Bool-cases (is_full sv.buffer)) [
    | inl e ↦ rw e tt
    | inr e ↦ elim (Bool-cases (ltb sv.buffer.next_in sv.buffer.allocated)) [
      | inr out ↦ rw (e, out) tt
      | inl fits ↦
          let lt = ltb→lt sv.buffer.next_in sv.buffer.allocated fits in
          rw (e, fits)
            (record {
              ring = inv.ring;
              array = inv.array;
              in_array = λ h. omega (arith, next_place sv.buffer.next_in lt, lt, inv.array);
              ordered = λ h. omega (arith, next_place sv.buffer.next_in lt, inv.ordered h);
            })
    ]
  ]

  take_request-Unwrapped : AfterTake k (take_request sv)
  unfolding AfterTake take_request
  take_request-Unwrapped = elim (Bool-cases (not sv.exiting && is_empty sv.buffer)) [
    | inl e ↦ rw e tt
    | inr e ↦ elim (Bool-cases (ltb sv.buffer.next_out sv.buffer.allocated)) [
      | inr out ↦ rw (e, out) tt
      | inl fits ↦
          let lt = ltb→lt sv.buffer.next_out sv.buffer.allocated fits in
          rw (e, fits)
            (record {
              ring = inv.ring;
              array = inv.array;
              in_array = inv.in_array;
              ordered = λ h. ground (arith, next_place sv.buffer.next_out lt, inv.ordered h, h, e);
            })
    ]
  ]

Step-Unwrapped : (k : ℕ) {sv sv' : Server} → Unwrapped k sv → Step sv sv' → Unwrapped k sv'
unfolding AfterAdd AfterTake
Step-Unwrapped k {sv} inv (Step.add c t e) = subst (AfterAdd k) e (add_request-Unwrapped k sv inv c)
Step-Unwrapped k {sv} inv (Step.take t e) = subst (AfterTake k) e (take_request-Unwrapped k sv inv)
Step-Unwrapped k inv Step.leave = record {
  ring = inv.ring;
  array = inv.array;
  in_array = λ h. ground (arith, h);
  ordered = λ h. ground (arith, h);
}

-- From its start on, and under every order of the steps of the main thread and the workers that
-- stay within the array, a server with workers and room for `k` requests has, as long as it is not
-- exiting, `next_out` at most `next_in` and `next_in` at most `k`, so that neither index has gone
-- round the ring.
pub Reach-Unwrapped :
    {n k : ℕ} {sv : Server} → 0 < n → 0 < k → Reach (server_init n k) sv → Unwrapped k sv
unfolding server_init
Reach-Unwrapped {n} {k} hn hk Reach.here =
    let room : (ltb 0 n && ltb 1 (k + 1)) ≡ true = ground (arith, hn, hk) in
    rw room (record {
      ring = refl;
      array = refl;
      in_array = λ h. omega arith;
      ordered = λ h. omega arith;
    })
Reach-Unwrapped {n} {k} hn hk (Reach.next r s) = Step-Unwrapped k (Reach-Unwrapped hn hk r) s
