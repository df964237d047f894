-- ===== src/Fs/Bitmap/Alloc.antt =====
-- fs/bitmap.c: `bitmap_alloc` finds the first clear bit.
use ece344_operating_systems.Base.{
  ℕ, zero, suc, ◌+◌, ◌*◌, ◌/◌, ◌%◌, ◌^◌, ◌≤◌, ◌<◌, ◌≡◌, ◌⊎◌, refl, true, false, arith, ◌==◌, inl,
  inr, Bool-cases, ◌∙◌, ltb, lt→ltb,
}
use ece344_operating_systems.Base.Bytes.{holds_below, check}
use ece344_operating_systems.Base.Run.{Run, ok, Cmd, pure, assert, ◌>>◌}
use ece344_operating_systems.Fs.Bitmap.{
  Bitmap, Ret, done, enospc, mask, nr_words, set_bits, alloc_in_word, alloc_from, alloc,
}
use ece344_operating_systems.Fs.Bitmap.Bits.{has, all_bits}
use ece344_operating_systems.Fs.Bitmap.View.{bit, IsValid}

-- What the inner loop does when it meets the clear bit `o`.
abbrev take_bit : ℕ → ℕ → Cmd Bitmap (Ret ℕ)
take_bit ix o b =
    (assert (ltb ((ix * 8 + o) % 2 ^ 32) b.nbits) >> pure (done ((ix * 8 + o) % 2 ^ 32)))
      (set_bits b ix (mask o))

-- The first clear bit of a word.
record FirstClear (w o : ℕ) : Type 0 where
  in_word : o < 8
  clear : has w o ≡ false
  first : (p : ℕ) → p < o → has w p ≡ true

-- A byte with a bit missing has a first clear bit.
first_clear :
    (n w : ℕ)
    → n ≤ 8
    → holds_below n (has w) ≡ false
    → (o : ℕ) × (o < n) × (has w o ≡ false) × ((p : ℕ) → p < o → has w p ≡ true)
unfolding holds_below
first_clear zero w hn h = cc
first_clear (suc n) w hn h = elim (Bool-cases (holds_below n (has w))) [
  | inl full ↦ (n, omega arith, ground (arith, h, full), λ p hp. check n (has w) p full hp)
  | inr missing ↦
      let (o, lt, clear, first) = first_clear n w (omega arith) missing in
      (o, omega arith, clear, first)
]

not_full : (w : ℕ) → w < 256 → (w == 255) ≡ false → (o : ℕ) × FirstClear w o
not_full w hw ne =
    let (o, lt, clear, first) = first_clear 8 w (omega arith) (all_bits w hw ∙ ne) in
    (o, record { in_word = lt; clear = clear; first = first })

full_word : (w p : ℕ) → w < 256 → (w == 255) ≡ true → p < 8 → has w p ≡ true
full_word w p hw e hp = check 8 (has w) p (all_bits w hw ∙ e) hp

alloc_in_word-take :
    (rounds ix offset o : ℕ) (b : Bitmap)
    → rounds + offset ≡ 8
    → offset ≤ o
    → FirstClear (b.v ix) o
    → alloc_in_word rounds ix offset b ≡ take_bit ix o b
unfolding alloc_in_word has
alloc_in_word-take zero ix offset o b e h f = absurd (omega (arith, f.in_word))
alloc_in_word-take (suc rounds) ix offset o b e h f = elim (Bool-cases (offset == o)) [
  | inl here ↦ ground (arith, f.clear)
  | inr later ↦ ground (
    arith,
    f.first offset (ground arith),
    alloc_in_word-take rounds ix (offset + 1) o b (omega arith) (ground arith) f,
  )
]

-- `i` is the first index that is not in use.
pub record FirstFree (b : Bitmap) (i : ℕ) : Type 0 where
  pub in_range : i < b.nbits
  pub free : bit b i ≡ false
  pub first : (j : ℕ) → j < i → bit b j ≡ true

-- `b` with index `i` taken.
abbrev pub taken : Bitmap → ℕ → Bitmap
taken b i = set_bits b (i / 8) (mask (i % 8))

-- Every index is in use.
abbrev pub IsFull : Bitmap → Type 0
IsFull b = (i : ℕ) → i < b.nbits → bit b i ≡ true

abbrev pub AllocCases : Bitmap → Run Bitmap (Ret ℕ) → Type 0
AllocCases b r =
    ((i : ℕ) × FirstFree b i × (r ≡ ok (done i) (taken b i))) ⊎ (IsFull b × (r ≡ ok enospc b))

module _ {b : Bitmap} (valid : IsValid b) where
  bits_before :
      (ix o : ℕ)
      → ((j : ℕ) → j < ix * 8 → bit b j ≡ true)
      → ((p : ℕ) → p < o → p < 8 → has (b.v ix) p ≡ true)
      → (j : ℕ) → j < ix * 8 + o
      → j < (ix + 1) * 8
      → bit b j ≡ true
  unfolding bit
  bits_before ix o before within j hj hi = elim (Bool-cases (ltb j (ix * 8))) [
    | inl lt ↦ before j (ground arith)
    | inr ge ↦
        let q : j / 8 ≡ ix = ground arith in rw q (within (j % 8) (ground arith) (omega arith))
  ]

  -- The word `ix` has the first clear bit `o`, and all words before it are full.
  found_in_word :
      (ix o : ℕ)
      → ((j : ℕ) → j < ix * 8 → bit b j ≡ true)
      → FirstClear (b.v ix) o
      → ix < nr_words b.nbits
      → FirstFree b (ix * 8 + o) × (take_bit ix o b ≡ ok (done (ix * 8 + o)) (taken b (ix * 8 + o)))
  unfolding bit
  found_in_word ix o before f in_words =
      let q : (ix * 8 + o) / 8 ≡ ix = omega (arith, f.in_word) in
      let m : (ix * 8 + o) % 8 ≡ o = omega (arith, f.in_word) in
      let free : bit b (ix * 8 + o) ≡ false = rw (q, m) f.clear in
      let lt : ix * 8 + o < b.nbits =
        ground (arith, free, valid.leftover (ix * 8 + o), f.in_word) in
      let w : (ix * 8 + o) % 2 ^ 32 ≡ ix * 8 + o = omega (arith, valid.small) in
      (
        record {
          in_range = lt;
          free = free;
          first = λ j hj.
              bits_before ix o before (λ p hp _. f.first p hp) j hj (omega (arith, f.in_word));
        },
        rw (q, m, w, lt→ltb _ _ lt),
      )

  alloc_from-cases :
      (rounds ix : ℕ)
      → ix + rounds ≡ nr_words b.nbits
      → ((j : ℕ) → j < ix * 8 → bit b j ≡ true)
      → AllocCases b (alloc_from rounds ix b)
  unfolding alloc_from
  alloc_from-cases zero ix e before = inr ((λ i lt. before i (omega (arith, valid.small))), refl)
  alloc_from-cases (suc rounds) ix e before = elim (Bool-cases (b.v ix == 255)) [
    | inl full ↦
        let next =
          bits_before ix 8 before (λ p _ hp. full_word (b.v ix) p (valid.bytes ix) full hp) in
        rw (full, alloc_from)
          (alloc_from-cases rounds (ix + 1) (omega arith) (λ j hj. next j (omega arith) hj))
    | inr part ↦
        let (o, f) = not_full (b.v ix) (valid.bytes ix) part in
        let (free, e') = found_in_word ix o before f (omega arith) in
        rw (part, alloc_from, alloc_in_word-take 8 ix 0 o b refl (omega arith) f)
          (inl (ix * 8 + o, free, e'))
  ]

  -- On a well-formed bitmap `bitmap_alloc` takes the first index that is not in use and hands it
  -- back, or answers -ENOSPC and changes nothing where every index is in use: no assertion fails.
  pub alloc_lem : AllocCases b (alloc b)
  unfolding alloc
  alloc_lem = alloc_from-cases (nr_words b.nbits) 0 (omega arith) (λ j h. absurd (omega arith))
