-- ===== src/Fs/Bitmap/View.antt =====
-- fs/bitmap.c: a bitmap as a set of indices, and its well-formedness.
use mathlib.Core.Path.{fun_ext}
use ece344_operating_systems.Base.{
  ℕ, ◌-◌, ◌*◌, ◌/◌, ◌%◌, ◌^◌, ◌≤◌, ◌<◌, ◌≡◌, Bool, true, false, not, ◌&&◌, ◌||◌, arith, ◌==◌, inl,
  inr, Bool-cases,
}
use ece344_operating_systems.Fs.Bitmap.{Bitmap, mask, nr_words, set_bits, clear_bits, isset}
use ece344_operating_systems.Fs.Bitmap.Bits.{
  has, has-set_bit, has-clear_bit, set_bit-lt, clear_bit-lt, clear-set_bit,
}

-- Is index `i` in use?
unfoldable pub bit : Bitmap → ℕ → Bool
bit b i = has (b.v (i / 8)) (i % 8)

-- What `bitmap_isset` answers.
pub isset-bit : (b : Bitmap) (i : ℕ) → (isset b i == 0) ≡ not (bit b i)
unfolding isset bit has
isset-bit b i = ground arith

-- Words are bytes, the arithmetic on indices does not wrap, and the bits past the end are in use.
pub record IsValid (b : Bitmap) : Type 0 where
  pub small : b.nbits < 2 ^ 32 - 8
  pub bytes : (ix : ℕ) → b.v ix < 256
  pub leftover : (i : ℕ) → b.nbits ≤ i → i < 8 * nr_words b.nbits → bit b i ≡ true

index_split : (i j : ℕ) → i / 8 ≡ j / 8 → (i % 8 == j % 8) ≡ (i == j)
index_split i j h = ground arith

module _ (b : Bitmap) (i : ℕ) (bytes : (ix : ℕ) → b.v ix < 256) where
  pub set_bits-byte : (ix : ℕ) → (set_bits b (i / 8) (mask (i % 8))).v ix < 256
  set_bits-byte ix = elim (Bool-cases (i / 8 == ix)) [
    | inl e ↦ rw e (set_bit-lt (b.v (i / 8)) (i % 8) (bytes (i / 8)) (omega arith))
    | inr e ↦ rw e (bytes ix)
  ]

  pub clear_bits-byte : (ix : ℕ) → (clear_bits b (i / 8) (mask (i % 8))).v ix < 256
  clear_bits-byte ix = elim (Bool-cases (i / 8 == ix)) [
    | inl e ↦ rw e (clear_bit-lt (b.v (i / 8)) (i % 8) (bytes (i / 8)) (omega arith))
    | inr e ↦ rw e (bytes ix)
  ]

  -- Setting the bit of `i` puts `i` in use and changes no other index.
  pub bit-set_bits : (j : ℕ) → bit (set_bits b (i / 8) (mask (i % 8))) j ≡ ((i == j) || bit b j)
  unfolding bit
  bit-set_bits j =
      ground (
        arith,
        has-set_bit (b.v (i / 8)) (i % 8) (bytes (i / 8)) (omega arith) (j % 8) (omega arith),
      )

  pub bit-clear_bits :
      (j : ℕ) → bit (clear_bits b (i / 8) (mask (i % 8))) j ≡ (not (i == j) && bit b j)
  unfolding bit
  bit-clear_bits j = ground (
    arith,
    has-clear_bit (b.v (i / 8)) (i % 8) (bytes (i / 8)) (omega arith) (j % 8) (omega arith),
  )

  -- Clearing the bit that was set from clear gives the bitmap back.
  pub clear-set_bits :
      bit b i ≡ false → clear_bits (set_bits b (i / 8) (mask (i % 8))) (i / 8) (mask (i % 8)) ≡ b
  unfolding bit
  clear-set_bits free = λ k. record { nbits = b.nbits; v = fun_ext same k }
    where
      same :
          (ix : ℕ)
          → (clear_bits (set_bits b (i / 8) (mask (i % 8))) (i / 8) (mask (i % 8))).v ix ≡ b.v ix
      same ix = ground (arith, clear-set_bit (b.v (i / 8)) (i % 8) (bytes (i / 8)) (omega arith))

module _ {b : Bitmap} (i : ℕ) (valid : IsValid b) where
  pub set_bits-IsValid : IsValid (set_bits b (i / 8) (mask (i % 8)))
  set_bits-IsValid = record {
    small = valid.small;
    bytes = set_bits-byte b i valid.bytes;
    leftover = λ j lo hi. ground (arith, bit-set_bits b i valid.bytes j, valid.leftover j lo hi);
  }

  pub clear_bits-IsValid : i < b.nbits → IsValid (clear_bits b (i / 8) (mask (i % 8)))
  clear_bits-IsValid h = record {
    small = valid.small;
    bytes = clear_bits-byte b i valid.bytes;
    leftover = λ j lo hi. ground (arith, bit-clear_bits b i valid.bytes j, valid.leftover j lo hi);
  }
