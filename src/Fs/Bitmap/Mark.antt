-- ===== src/Fs/Bitmap/Mark.antt =====
-- fs/bitmap.c: `bitmap_mark`, `bitmap_unmark` and `bitmap_create`, on every branch.
use ece344_operating_systems.Base.{
  ℕ, ◌/◌, ◌%◌, ◌≡◌, not, ◌&&◌, arith, if◌then◌else◌, inl, inr, ltb, lt→ltb,
}
use ece344_operating_systems.Base.Run.{ok, halt, aborted}
use ece344_operating_systems.Fs.Bitmap.{Bitmap, Ret, done, mask, clear_bits, mark, unmark, alloc}
use ece344_operating_systems.Fs.Bitmap.Bits.{has}
use ece344_operating_systems.Fs.Bitmap.View.{
  bit, IsValid, bit-set_bits, set_bits-IsValid, clear-set_bits, clear_bits-IsValid,
}
use ece344_operating_systems.Fs.Bitmap.Alloc.{taken, FirstFree, alloc_lem}

-- `b` with index `i` given back.
abbrev pub released : Bitmap → ℕ → Bitmap
released b i = clear_bits b (i / 8) (mask (i % 8))

-- `bitmap_mark` takes exactly an index in range that is not in use, and fails an assertion on
-- any other.
pub mark_lem :
    (b : Bitmap) (i : ℕ)
    → mark i b ≡ (if ltb i b.nbits && not (bit b i) then ok tt (taken b i) else halt aborted)
unfolding mark bit has
mark_lem b i = ground arith

-- `bitmap_unmark` gives back exactly an index in range that is in use, and fails an assertion on
-- any other.
pub unmark_lem :
    (b : Bitmap) (i : ℕ)
    → unmark i b ≡ (if ltb i b.nbits && bit b i then ok tt (released b i) else halt aborted)
unfolding unmark bit has
unmark_lem b i = ground arith

pub unmark-taken : {b : Bitmap} (i : ℕ) → IsValid b → FirstFree b i → unmark i (taken b i) ≡ ok tt b
unmark-taken {b} i valid f =
    rw (unmark_lem, bit-set_bits b i valid.bytes i, lt→ltb _ _ f.in_range)
      (ground (arith, clear-set_bits b i valid.bytes f.free))

-- What `bitmap_alloc` took from a well-formed bitmap, `bitmap_unmark` gives back: the bitmap is
-- the same as before, byte for byte.
pub unmark-alloc :
    {b b' : Bitmap} (i : ℕ) → IsValid b → alloc b ≡ ok (done i) b' → unmark i b' ≡ ok tt b
unmark-alloc {b} {b'} i valid e = elim (alloc_lem valid) [
  | inl (j, first, e') ↦
      let same : j ≡ i = cc in
      let state : taken b j ≡ b' = cc in rw (← same, ← state) (unmark-taken j valid first)
  | inr (full, e') ↦ cc
]

-- Taking or giving back an index keeps a bitmap well-formed.
pub mark-IsValid : {b b' : Bitmap} (i : ℕ) → IsValid b → mark i b ≡ ok tt b' → IsValid b'
mark-IsValid {b} i valid e = ground (arith, mark_lem b i, set_bits-IsValid i valid)

pub unmark-IsValid : {b b' : Bitmap} (i : ℕ) → IsValid b → unmark i b ≡ ok tt b' → IsValid b'
unmark-IsValid {b} i valid e = ground (arith, unmark_lem b i, clear_bits-IsValid i valid)

pub alloc-IsValid : {b b' : Bitmap} (r : Ret ℕ) → IsValid b → alloc b ≡ ok r b' → IsValid b'
alloc-IsValid {b} {b'} r valid e = elim (alloc_lem valid) [
  | inl (j, first, e') ↦ let state : taken b j ≡ b' = cc in rw (← state) (set_bits-IsValid j valid)
  | inr (full, e') ↦ let state : b ≡ b' = cc in rw (← state) valid
]
