-- ===== src/Fs/Bitmap/Create.antt =====
-- fs/bitmap.c: `bitmap_create` makes an empty bitmap whose spare bits are in use.
use ece344_operating_systems.Base.{
  ℕ, zero, suc, ◌+◌, ◌-◌, ◌*◌, ◌/◌, ◌%◌, ◌^◌, ◌<◌, ◌≡◌, ◌≢◌, refl, true, false, ◌&&◌, ◌||◌, arith,
  ◌==◌, inl, inr, Bool-cases, ltb, leb,
}
use ece344_operating_systems.Base.Run.{ok}
use ece344_operating_systems.Fs.Bitmap.{
  Bitmap, mask, nr_words, set_bits, create, mark_leftover, mark_overbits,
}
use ece344_operating_systems.Fs.Bitmap.Bits.{has-zero}
use ece344_operating_systems.Fs.Bitmap.View.{bit, IsValid, bit-set_bits, set_bits-byte}

module _ (b : Bitmap) (ix j : ℕ) (bytes : (k : ℕ) → b.v k < 256) (hj : j < 8) where
  quot : (ix * 8 + j) / 8 ≡ ix
  quot = omega arith

  rem : (ix * 8 + j) % 8 ≡ j
  rem = omega arith

  bit-set_word : (i : ℕ) → bit (set_bits b ix (mask j)) i ≡ ((ix * 8 + j == i) || bit b i)
  bit-set_word i = rw (quot, rem) at (bit-set_bits b (ix * 8 + j) bytes i)

  byte-set_word : (k : ℕ) → (set_bits b ix (mask j)).v k < 256
  byte-set_word k = rw (quot, rem) at (set_bits-byte b (ix * 8 + j) bytes k)

-- After the loop from bit `j` of word `ix` on, the rest of that word is in use.
record Leftover (b : Bitmap) (ix j : ℕ) (b' : Bitmap) : Type 0 where
  nbits : b'.nbits ≡ b.nbits
  bytes : (k : ℕ) → b'.v k < 256
  bits : (i : ℕ) → bit b' i ≡ ((leb (ix * 8 + j) i && ltb i (ix * 8 + 8)) || bit b i)

mark_leftover-Leftover :
    (rounds ix j : ℕ) (b : Bitmap)
    → ((k : ℕ) → b.v k < 256)
    → rounds + j ≡ 8
    → Leftover b ix j (mark_leftover rounds ix j b)
unfolding mark_leftover
mark_leftover-Leftover zero ix j b bytes e = record {
  nbits = refl;
  bytes = bytes;
  bits = λ i. ground arith;
}
mark_leftover-Leftover (suc rounds) ix j b bytes e =
    let b' = set_bits b ix (mask j) in
    let rest =
      mark_leftover-Leftover rounds ix (j + 1) b' (byte-set_word b ix j bytes (omega arith))
        (omega arith) in
    record {
      nbits = rest.nbits;
      bytes = rest.bytes;
      bits = λ i. ground (arith, rest.bits i, bit-set_word b ix j bytes (omega arith) i);
    }

-- The bitmap before the spare bits are marked.
abbrev pub blank : ℕ → Bitmap
blank n = record { nbits = n; v = λ _. 0 }

pub bit-blank : (n i : ℕ) → bit (blank n) i ≡ false
unfolding bit
bit-blank n i = has-zero (i % 8) (omega arith)

pub create-whole : (n : ℕ) → nr_words n ≡ n / 8 → create n ≡ ok tt (blank n)
unfolding create
create-whole n words = rw words (ground arith)

mark_overbits-part :
    (n : ℕ)
    → n % 8 ≢ 0
    → mark_overbits (n / 8 + 1) (blank n)
      ≡ ok tt (mark_leftover (8 - n % 8) (n / 8) (n % 8) (blank n))
unfolding mark_overbits
mark_overbits-part n part =
    let ix : n / 8 + 1 - 1 ≡ n / 8 = omega arith in
    let over : (n + 2 ^ 32 - n / 8 * 8) % 2 ^ 32 ≡ n % 8 = omega arith in
    rw (ix, over) (ground arith)

create-part :
    (n : ℕ)
    → n % 8 ≢ 0
    → nr_words n ≡ n / 8 + 1
    → create n ≡ ok tt (mark_leftover (8 - n % 8) (n / 8) (n % 8) (blank n))
unfolding create
create-part n part words =
    let short : ltb (n / 8) (n / 8 + 1) ≡ true = ground arith in
    rw (words, short) (mark_overbits-part n part)

-- A bitmap with no index in use.
pub record IsEmpty (n : ℕ) (b : Bitmap) : Type 0 where
  pub valid : IsValid b
  pub nbits : b.nbits ≡ n
  pub empty : (i : ℕ) → i < n → bit b i ≡ false

-- Below the limit of 2 ^ 32 - 8 bits, at which the number of words would wrap, `bitmap_create`
-- fails no assertion and makes a well-formed bitmap of `n` bits with no index in use.
pub create_lem : (n : ℕ) → n < 2 ^ 32 - 8 → (b : Bitmap) × (create n ≡ ok tt b) × IsEmpty n b
create_lem n h = elim (Bool-cases (n % 8 == 0)) [
  | inl whole ↦
      let words : nr_words n ≡ n / 8 = ground arith in
      (
        blank n,
        create-whole n words,
        record {
          valid = record {
            small = h;
            bytes = λ _. omega arith;
            leftover = λ i lo hi. absurd (ground arith);
          };
          nbits = refl;
          empty = λ i _. bit-blank n i;
        },
      )
  | inr part ↦
      let words : nr_words n ≡ n / 8 + 1 = ground arith in
      let left =
        mark_leftover-Leftover (8 - n % 8) (n / 8) (n % 8) (blank n) (λ _. omega arith)
          (omega arith) in
      (
        mark_leftover (8 - n % 8) (n / 8) (n % 8) (blank n),
        create-part n (ground arith) words,
        record {
          valid = record {
            small = omega (arith, left.nbits);
            bytes = left.bytes;
            leftover = λ i lo hi. ground (arith, left.bits i, left.nbits);
          };
          nbits = left.nbits;
          empty = λ i lt. ground (arith, left.bits i, bit-blank n i);
        },
      )
]
