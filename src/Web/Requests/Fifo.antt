-- ===== src/Web/Requests/Fifo.antt =====
-- webserver/server_thread.c: add_request and take_request on the buffer as a bounded queue.
use native.Mathlib.Nat.{mod-eq_of_lt, add-mod_right}
use ece344_operating_systems.Base.{
  ℕ, suc, ◌+◌, ◌-◌, ◌%◌, ◌<◌, ◌≡◌, inl, inr, refl, ◌∙◌, leb, ◌==◌, if◌then◌else◌, [], ◌∷◌, ◌++◌,
  length, arith, Bool-cases,
}
use ece344_operating_systems.Web.Requests.{RequestBuffer, is_empty, write}
use ece344_operating_systems.Web.Requests.Ring.{
  round, count, window, contents, IsValid, length-window, window-write, window-shift,
}

-- The distance from `o` round to `i`.
pub distance :
    (i o m : ℕ) → i < m → o < m → (i + m - o) % m ≡ (if leb o i then i - o else i + m - o)
distance i o m hi ho = elim (Bool-cases (leb o i)) [
  | inl h ↦
      let e : i + m - o ≡ i - o + m = ground (arith, h) in
      rw (h, e) (add-mod_right (i - o) m ∙ mod-eq_of_lt (omega arith))
  | inr h ↦ rw h (mod-eq_of_lt (ground (arith, h)))
]

module _ (b : RequestBuffer) (valid : IsValid b) where
  pub count-step : count b ≡ (
      if leb b.next_out b.next_in
      then b.next_in - b.next_out
      else b.next_in + b.max_size - b.next_out)
  count-step = distance b.next_in b.next_out b.max_size valid.in_ring valid.out_ring

  pub count_lt : count b < b.max_size
  count_lt = ground (arith, count-step, valid.in_ring, valid.out_ring)

  -- Going on from the oldest request by their number leads to the free place.
  pub next_in-count : b.next_in ≡ (b.next_out + count b) % b.max_size
  next_in-count = ground (
    arith,
    count-step,
    round b.next_out (count b) b.max_size valid.out_ring count_lt,
    valid.in_ring,
    valid.out_ring,
  )

  pub is_empty-count : is_empty b ≡ (count b == 0)
  is_empty-count = ground (arith, count-step, valid.in_ring, valid.out_ring)

  pub length-contents : length (contents b) ≡ count b
  unfolding contents
  length-contents = length-window b.requests b.next_out b.max_size 0 (count b)

  pub contents-empty : count b ≡ 0 → contents b ≡ []
  unfolding contents window
  contents-empty h = rw h refl

  -- The buffer behind a write, one place further.
  pub contents-write :
      (c : ℕ)
      → window (write b.requests b.next_in c) b.next_out b.max_size 0 (suc (count b))
        ≡ contents b ++ (c ∷ [])
  unfolding contents
  contents-write c =
      let e : 0 + count b ≡ count b = omega arith in
      window-write b.requests b.next_out b.max_size c b.next_in 0 (count b) valid.out_ring
        (rw e count_lt) (rw e next_in-count)

  pub contents-oldest :
      (n : ℕ)
      → count b ≡ suc n
      → contents b
        ≡ b.requests b.next_out ∷ window b.requests ((b.next_out + 1) % b.max_size) b.max_size 0 n
  unfolding contents window
  contents-oldest n h =
      let behind =
        window-shift b.requests b.next_out b.max_size 0 n valid.out_ring
          (omega (arith, count_lt)) in
      let e : b.next_out + 0 ≡ b.next_out = omega arith in
      rw (h, behind, e, mod-eq_of_lt valid.out_ring) refl

-- The distance after either index went on.
pub distance-in :
    (i o m : ℕ)
    → i < m
    → o < m
    → (i + m - o) % m < m - 1
    → ((i + 1) % m + m - o) % m ≡ suc ((i + m - o) % m)
distance-in i o m hi ho h =
    let hi' : (i + 1) % m < m = ground (arith, round i 1 m hi (omega (arith, h))) in
    ground (
      arith,
      distance i o m hi ho,
      distance ((i + 1) % m) o m hi' ho,
      round i 1 m hi (omega (arith, h)),
      h,
    )

pub distance-out :
    (i o m n : ℕ) → i < m → o < m → (i + m - o) % m ≡ suc n → (i + m - (o + 1) % m) % m ≡ n
distance-out i o m n hi ho h =
    let one : 1 < m = ground (arith, distance i o m hi ho, h) in
    let ho' : (o + 1) % m < m = ground (arith, round o 1 m ho one) in
    ground (arith, distance i o m hi ho, distance i ((o + 1) % m) m hi ho', round o 1 m ho one, h)
