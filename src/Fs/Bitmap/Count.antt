-- ===== src/Fs/Bitmap/Count.antt =====
-- fs/bitmap.c: `bitmap_nr_allocated` counts the indices in use.
use ece344_operating_systems.Base.{
  ℕ, zero, suc, ◌+◌, ◌≤◌, ◌<◌, ◌≡◌, refl, true, false, ◌&&◌, arith, ◌==◌, if◌then◌else◌, ◌∙◌, ltb,
  leb, ap,
}
use ece344_operating_systems.Fs.Bitmap.{Bitmap, isset, count_set, nr_allocated}
use ece344_operating_systems.Fs.Bitmap.View.{bit, isset-bit, bit-set_bits, bit-clear_bits}
use ece344_operating_systems.Fs.Bitmap.Alloc.{taken}
use ece344_operating_systems.Fs.Bitmap.Mark.{released}

-- How many of the `n` indices from `i` on are in use.
pub in_use : ℕ → ℕ → Bitmap → ℕ
in_use zero i b = 0
in_use (suc n) i b = (if bit b i then 1 else 0) + in_use n (i + 1) b

count_set-in_use : (n i nr : ℕ) (b : Bitmap) → count_set n i nr b ≡ nr + in_use n i b
unfolding count_set in_use
count_set-in_use zero i nr b = omega arith
count_set-in_use (suc n) i nr b =
    count_set-in_use n (i + 1) (if isset b i == 0 then nr else nr + 1) b
    ∙ ground (arith, isset-bit b i)

module _ (b : Bitmap) (k : ℕ) (bytes : (ix : ℕ) → b.v ix < 256) where
  -- Taking a free index adds one to each range that holds it, and nothing to another.
  in_use-taken :
      (n i : ℕ)
      → bit b k ≡ false
      → in_use n i (taken b k) ≡ in_use n i b + (if leb i k && ltb k (i + n) then 1 else 0)
  unfolding in_use
  in_use-taken zero i free = ground arith
  in_use-taken (suc n) i free =
      ground (arith, bit-set_bits b k bytes i, in_use-taken n (i + 1) free)

  in_use-released :
      (n i : ℕ)
      → bit b k ≡ true
      → in_use n i b ≡ in_use n i (released b k) + (if leb i k && ltb k (i + n) then 1 else 0)
  unfolding in_use
  in_use-released zero i used = ground arith
  in_use-released (suc n) i used =
      ground (arith, bit-clear_bits b k bytes i, in_use-released n (i + 1) used)

  -- Taking a free index adds one to `bitmap_nr_allocated`.
  pub nr_allocated-taken :
      bit b k ≡ false → k < b.nbits → nr_allocated (taken b k) ≡ nr_allocated b + 1
  unfolding nr_allocated
  nr_allocated-taken free lt = ground (
    arith,
    count_set-in_use b.nbits 0 0 b,
    count_set-in_use b.nbits 0 0 (taken b k),
    in_use-taken b.nbits 0 free,
  )

  pub nr_allocated-released :
      bit b k ≡ true → k < b.nbits → nr_allocated b ≡ nr_allocated (released b k) + 1
  unfolding nr_allocated
  nr_allocated-released used lt = ground (
    arith,
    count_set-in_use b.nbits 0 0 b,
    count_set-in_use b.nbits 0 0 (released b k),
    in_use-released b.nbits 0 used,
  )

in_use-le : (n i : ℕ) (b : Bitmap) → in_use n i b ≤ n
unfolding in_use
in_use-le zero i b = omega arith
in_use-le (suc n) i b = ground (arith, in_use-le n (i + 1) b)

-- The count never exceeds the number of bits.
pub nr_allocated-le : (b : Bitmap) → nr_allocated b ≤ b.nbits
unfolding nr_allocated
nr_allocated-le b = omega (arith, count_set-in_use b.nbits 0 0 b, in_use-le b.nbits 0 b)

-- The count is the number of bits exactly when every bit is set.
in_use-full :
    (n i : ℕ) (b : Bitmap) → ((j : ℕ) → i ≤ j → j < i + n → bit b j ≡ true) → in_use n i b ≡ n
unfolding in_use
in_use-full zero i b all = refl
in_use-full (suc n) i b all = ground (
  arith,
  all i (omega arith) (omega arith),
  in_use-full n (i + 1) b (λ j lo hi. all j (omega arith) (omega arith)),
)

pub nr_allocated-full :
    (b : Bitmap) → ((j : ℕ) → j < b.nbits → bit b j ≡ true) → nr_allocated b ≡ b.nbits
unfolding nr_allocated
nr_allocated-full b all =
    omega (
      arith,
      count_set-in_use b.nbits 0 0 b,
      in_use-full b.nbits 0 b (λ j _ hi. all j (omega arith)),
    )

in_use-eq :
    (n i : ℕ) (b c : Bitmap)
    → ((j : ℕ) → i ≤ j → j < i + n → bit b j ≡ bit c j)
    → in_use n i b ≡ in_use n i c
unfolding in_use
in_use-eq zero i b c same = refl
in_use-eq (suc n) i b c same = ground (
  arith,
  same i (omega arith) (omega arith),
  in_use-eq n (i + 1) b c (λ j lo hi. same j (omega arith) (omega arith)),
)

-- The count depends only on which indices are in use.
pub nr_allocated-eq :
    (b c : Bitmap)
    → b.nbits ≡ c.nbits
    → ((j : ℕ) → j < b.nbits → bit b j ≡ bit c j)
    → nr_allocated b ≡ nr_allocated c
unfolding nr_allocated
nr_allocated-eq b c e same = omega (
  arith,
  count_set-in_use b.nbits 0 0 b,
  count_set-in_use c.nbits 0 0 c,
  ap (λ n. in_use n 0 c) e,
  in_use-eq b.nbits 0 b c (λ j _ hi. same j (omega arith)),
)

in_use-empty : (n i : ℕ) (b : Bitmap) → ((j : ℕ) → bit b j ≡ false) → in_use n i b ≡ 0
unfolding in_use
in_use-empty zero i b none_used = refl
in_use-empty (suc n) i b none_used = ground (arith, none_used i, in_use-empty n (i + 1) b none_used)

pub nr_allocated-empty : (b : Bitmap) → ((j : ℕ) → bit b j ≡ false) → nr_allocated b ≡ 0
unfolding nr_allocated
nr_allocated-empty b none_used =
    omega (arith, count_set-in_use b.nbits 0 0 b, in_use-empty b.nbits 0 b none_used)
