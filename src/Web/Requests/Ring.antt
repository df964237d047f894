-- ===== src/Web/Requests/Ring.antt =====
-- webserver/server_thread.c: the buffer of requests is a bounded queue.
use native.Mathlib.Nat.{mod-eq_of_lt, mod-eq-sub-mod, mod-add-mod}
use ece344_operating_systems.Base.{
  ℕ, zero, suc, ◌+◌, ◌-◌, ◌%◌, ◌<◌, ◌≡◌, inl, inr, refl, ap, ◌∙◌, true, false, ltb, ◌==◌,
  if◌then◌else◌, List, [], ◌∷◌, ◌++◌, length, arith, Bool-cases,
}
use ece344_operating_systems.Web.Requests.{RequestBuffer, write}

-- Going round the ring from `o` by `k` places.
pub round : (o k n : ℕ) → o < n → k < n → (o + k) % n ≡ (if ltb (o + k) n then o + k else o + k - n)
round o k n ho hk = elim (Bool-cases (ltb (o + k) n)) [
  | inl h ↦ rw h (mod-eq_of_lt (ground arith))
  | inr h ↦ rw h (mod-eq-sub-mod {n = o + k} {m = n} (ground arith) ∙ mod-eq_of_lt (ground arith))
]

-- The number of requests in the buffer.
abbrev pub count : RequestBuffer → ℕ
count b = (b.next_in + b.max_size - b.next_out) % b.max_size

-- The `n` requests from the `k`-th on.
unfoldable pub window : (ℕ → ℕ) → ℕ → ℕ → ℕ → ℕ → List ℕ
window r o m k zero = []
window r o m k (suc n) = r ((o + k) % m) ∷ window r o m (k + 1) n

-- The requests in the buffer, the oldest first.
unfoldable pub contents : RequestBuffer → List ℕ
unfolding window
contents b = window b.requests b.next_out b.max_size 0 (count b)

-- Both indices are within the ring.
pub record IsValid (b : RequestBuffer) : Type 0 where
  pub in_ring : b.next_in < b.max_size
  pub out_ring : b.next_out < b.max_size

pub length-window : (r : ℕ → ℕ) (o m k n : ℕ) → length (window r o m k n) ≡ n
unfolding window
length-window r o m k zero = refl
length-window r o m k (suc n) = ap suc (length-window r o m (k + 1) n)

-- Two places less than a round apart differ.
places-differ : (o m k j : ℕ) → o < m → k < j → j < m → ((o + j) % m == (o + k) % m) ≡ false
places-differ o m k j ho hk hj =
    let hk' : k < m = omega arith in ground (arith, round o j m ho hj, round o k m ho hk')

same-place : (i : ℕ) → (i == i) ≡ true
same-place i = ground arith

next-place : (o m k : ℕ) → o < m → k + 1 < m → ((o + 1) % m + k) % m ≡ (o + (k + 1)) % m
next-place o m k ho h = mod-add-mod (o + 1) m k ∙ ap (λ i. i % m) (omega arith)

-- A write to the place behind the window extends it.
pub window-write :
    (r : ℕ → ℕ) (o m c place k n : ℕ)
    → o < m
    → k + n < m
    → place ≡ (o + (k + n)) % m
    → window (write r place c) o m k (suc n) ≡ window r o m k n ++ (c ∷ [])
unfolding window
window-write r o m c place k zero ho h e =
    let hit : (place == (o + k) % m) ≡ true = ground (arith, e) in rw hit refl
window-write r o m c place k (suc n) ho h e =
    let miss : (place == (o + k) % m) ≡ false =
      rw e (places-differ o m k (k + suc n) ho (omega arith) h) in
    let e' : place ≡ (o + (k + 1 + n)) % m = e ∙ ap (λ i. (o + i) % m) (omega arith) in
    rw miss
      (ap (λ xs. r ((o + k) % m) ∷ xs) (window-write r o m c place (k + 1) n ho (omega arith) e'))

-- The window from the next place on.
pub window-shift :
    (r : ℕ → ℕ) (o m k n : ℕ)
    → o < m
    → k + n < m
    → window r ((o + 1) % m) m k n ≡ window r o m (k + 1) n
unfolding window
window-shift r o m k zero ho h = refl
window-shift r o m k (suc n) ho h =
    rw (next-place o m k ho (omega arith), window-shift r o m (k + 1) n ho (omega arith)) refl
