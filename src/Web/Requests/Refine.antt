-- ===== src/Web/Requests/Refine.antt =====
-- webserver/server_thread.c: add_request and take_request refine a bounded queue.
use mathlib.Core.Bool.{and-false}
use native.Mathlib.Nat.{mod-lt}
use ece344_operating_systems.Base.{
  ℕ, zero, suc, ◌+◌, ◌-◌, ◌<◌, ◌≤◌, ltb, ltb→lt, ◌⊎◌, ◌≢◌, ◌≡◌, inl, inr, refl, sym, ap, ◌∙◌, Bool,
  true, false, not, ◌&&◌, ◌==◌, [], ◌∷◌, ◌++◌, length, arith, Bool-cases,
}
use ece344_operating_systems.Web.Requests.{
  RequestBuffer, Server, is_full, is_empty, AddResult, waits, outside, added, add_request,
  TakeResult, took, take_request, put_in, take_out,
}
use ece344_operating_systems.Web.Requests.Ring.{count, contents, IsValid}
use ece344_operating_systems.Web.Requests.Fifo.{
  distance-in, distance-out, length-contents, contents-write, contents-oldest, contents-empty,
  is_empty-count, count_lt,
}

-- What adding a request may do to a queue of at most `max_size - 1` requests.
pub data AddsRequest (sv : Server) (connfd : ℕ) : AddResult → Type 0 where
  full : length (contents sv.buffer) ≡ sv.buffer.max_size - 1 → AddsRequest sv connfd waits
  room :
      {b : RequestBuffer} {woken : Bool}
      → length (contents sv.buffer) < sv.buffer.max_size - 1
      → sv.buffer.next_in < sv.buffer.allocated
      → IsValid b
      → b.max_size ≡ sv.buffer.max_size
      → contents b ≡ contents sv.buffer ++ (connfd ∷ [])
      → woken ≡ (length (contents sv.buffer) == 0)
      → AddsRequest sv connfd (added woken (record sv { buffer = b }))
  behind_end :
      length (contents sv.buffer) < sv.buffer.max_size - 1
      → sv.buffer.allocated ≤ sv.buffer.next_in
      → AddsRequest sv connfd outside

-- What taking a request may do.
pub data TakesRequest (sv : Server) : TakeResult → Type 0 where
  empty : sv.exiting ≡ false → contents sv.buffer ≡ [] → TakesRequest sv TakeResult.waits
  oldest :
      {b : RequestBuffer} {connfd : ℕ} {woken : Bool}
      → sv.buffer.next_out < sv.buffer.allocated
      → IsValid b
      → b.max_size ≡ sv.buffer.max_size
      → contents sv.buffer ≡ connfd ∷ contents b
      → woken ≡ (length (contents sv.buffer) == sv.buffer.max_size - 1)
      → TakesRequest sv (took woken connfd (record sv { buffer = b }))
  leaving :
      {b : RequestBuffer} {connfd : ℕ} {woken : Bool}
      → sv.exiting ≡ true
      → contents sv.buffer ≡ []
      → sv.buffer.next_out < sv.buffer.allocated
      → IsValid b
      → b.max_size ≡ sv.buffer.max_size
      → TakesRequest sv (took woken connfd (record sv { buffer = b }))
  behind_end :
      (contents sv.buffer ≢ []) ⊎ (sv.exiting ≡ true)
      → sv.buffer.allocated ≤ sv.buffer.next_out
      → TakesRequest sv TakeResult.outside

module _ (b : RequestBuffer) (valid : IsValid b) where
  positive : 0 < b.max_size
  positive = omega (arith, valid.in_ring)

  pub put_in-IsValid : (c : ℕ) → IsValid (put_in b c)
  put_in-IsValid c = record { in_ring = mod-lt (b.next_in + 1) positive; out_ring = valid.out_ring }

  contents-put_in :
      (c : ℕ) → count b < b.max_size - 1 → contents (put_in b c) ≡ contents b ++ (c ∷ [])
  unfolding contents
  contents-put_in c h =
      rw (distance-in b.next_in b.next_out b.max_size valid.in_ring valid.out_ring h)
        (contents-write b valid c)

  pub take_out-IsValid : IsValid (take_out b)
  take_out-IsValid = record { in_ring = valid.in_ring; out_ring = mod-lt (b.next_out + 1) positive }

  contents-take_out :
      (n : ℕ) → count b ≡ suc n → contents b ≡ b.requests b.next_out ∷ contents (take_out b)
  unfolding contents
  contents-take_out n h =
      rw (distance-out b.next_in b.next_out b.max_size n valid.in_ring valid.out_ring h)
        (contents-oldest b valid n h)

module _ (sv : Server) (valid : IsValid sv.buffer) where
  measured : length (contents sv.buffer) ≡ count sv.buffer
  measured = length-contents sv.buffer valid

  -- add_request waits exactly if the queue is full. Else it appends the request, and broadcasts
  -- exactly if the queue was empty, where the index of the free place is within the allocated array;
  -- else it stores behind the end of the array. The indices stay in the ring.
  pub add_request-AddsRequest : (connfd : ℕ) → AddsRequest sv connfd (add_request sv connfd)
  unfolding add_request
  add_request-AddsRequest connfd = elim (Bool-cases (is_full sv.buffer)) [
    | inl e ↦ rw e (AddsRequest.full (ground (arith, e, measured)))
    | inr e ↦ rw e (
        let below : count sv.buffer < sv.buffer.max_size - 1 =
          ground (arith, e, count_lt sv.buffer valid) in
        elim (Bool-cases (ltb sv.buffer.next_in sv.buffer.allocated)) [
          | inl fits ↦ rw fits (
              AddsRequest.room (rw measured below)
                (ltb→lt sv.buffer.next_in sv.buffer.allocated fits)
                (put_in-IsValid sv.buffer valid connfd) refl
                (contents-put_in sv.buffer valid connfd below)
                (rw measured (is_empty-count sv.buffer valid)))
          | inr out ↦ rw out (AddsRequest.behind_end (rw measured below) (ground (arith, out)))
        ])
  ]

  take_request-oldest : (n : ℕ) → count sv.buffer ≡ suc n → TakesRequest sv (take_request sv)
  unfolding take_request
  take_request-oldest n h =
      let some_left : is_empty sv.buffer ≡ false =
        ground (arith, is_empty-count sv.buffer valid, h) in
      let e : (not sv.exiting && is_empty sv.buffer) ≡ false =
        ap (λ t. not sv.exiting && t) some_left ∙ and-false (not sv.exiting) in
      rw e (elim (Bool-cases (ltb sv.buffer.next_out sv.buffer.allocated)) [
        | inl fits ↦ rw fits (
            TakesRequest.oldest (ltb→lt sv.buffer.next_out sv.buffer.allocated fits)
              (take_out-IsValid sv.buffer valid) refl (contents-take_out sv.buffer valid n h)
              (ap (λ k. k == sv.buffer.max_size - 1) (sym measured)))
        | inr out ↦ rw out (
            TakesRequest.behind_end (inl (λ none. ground (arith, ap length none, measured, h)))
              (ground (arith, out)))
      ])

  take_request-none : count sv.buffer ≡ 0 → TakesRequest sv (take_request sv)
  unfolding take_request
  take_request-none h =
      let none_left : is_empty sv.buffer ≡ true =
        is_empty-count sv.buffer valid ∙ ap (λ k. k == 0) h in
      elim (Bool-cases sv.exiting) [
        | inl e ↦
            let moves : (not sv.exiting && is_empty sv.buffer) ≡ false =
              ap (λ t. not t && is_empty sv.buffer) e in
            rw moves (elim (Bool-cases (ltb sv.buffer.next_out sv.buffer.allocated)) [
              | inl fits ↦ rw fits (
                  TakesRequest.leaving e (contents-empty sv.buffer valid h)
                    (ltb→lt sv.buffer.next_out sv.buffer.allocated fits)
                    (take_out-IsValid sv.buffer valid) refl)
              | inr out ↦ rw out (TakesRequest.behind_end (inr e) (ground (arith, out)))
            ])
        | inr e ↦
            let stays : (not sv.exiting && is_empty sv.buffer) ≡ true =
              ap (λ t. not t && is_empty sv.buffer) e ∙ none_left in
            rw stays (TakesRequest.empty e (contents-empty sv.buffer valid h))
      ]

  -- take_request waits on an empty queue unless the server is exiting. Else, where the index of the
  -- oldest place is within the allocated array, it takes the oldest request, and broadcasts exactly
  -- if the queue was full, or, on an empty queue, moves on without one; else it reads behind the end
  -- of the array. The indices stay in the ring.
  pub take_request-TakesRequest : TakesRequest sv (take_request sv)
  take_request-TakesRequest =
      elim (count sv.buffer) as (λ k. count sv.buffer ≡ k → TakesRequest sv (take_request sv)) [
        | zero ↦ take_request-none
        | suc n ↦ take_request-oldest n
      ]
        refl
