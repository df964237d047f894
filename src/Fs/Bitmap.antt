-- ===== src/Fs/Bitmap.antt =====
-- fs/bitmap.c: arrays of bits over bytes.
-- The array `v` is a function from word index to byte, read and written only below the number of
-- words that `bitmap_create` allocates. `u_int32_t` arithmetic wraps where it could. A counted
-- loop recurs on the rounds that are left; `malloc` is taken to succeed.
pub mod Alloc
pub mod Bits
pub mod Create
pub mod Count
pub mod Mark
pub mod View
use Prim.Native.Nat.{bit_and, bit_or}
use ece344_operating_systems.Base.{
  ℕ, zero, suc, ◌+◌, ◌-◌, ◌*◌, ◌/◌, ◌%◌, ◌^◌, Bool, true, false, ◌&&◌, not, ltb, ◌==◌,
  if◌then◌else◌,
}
use ece344_operating_systems.Base.Run.{
  Run, ok, halt, aborted, Cmd, pure, ◌>>=◌, ◌>>◌, get_state, modify, assert,
}

-- A function that returns 0 and hands a value back by reference, or returns -ENOSPC.
pub data Ret (A : Type 0) : Type 0 where
  done : A → Ret A
  enospc : Ret A

pub record Bitmap : Type 0 where
  pub nbits : ℕ
  pub v : ℕ → ℕ

-- v[ix] = w
abbrev pub write : (ℕ → ℕ) → ℕ → ℕ → ℕ → ℕ
write v ix w i = if ix == i then w else v i

-- DIVROUNDUP(nbits, BITS_PER_WORD)
abbrev pub nr_words : ℕ → ℕ
nr_words nbits = (nbits + 8 - 1) % 2 ^ 32 / 8

-- (WORD_TYPE) 1 << offset
abbrev pub mask : ℕ → ℕ
mask offset = 2 ^ offset % 256

-- `v[ix] |= m`
abbrev pub set_bits : Bitmap → ℕ → ℕ → Bitmap
set_bits b ix m = record b { v = write b.v ix (bit_or (b.v ix) m) }

-- `v[ix] &= ~m`: the low eight bits of `~m` are `255 - m`
abbrev pub clear_bits : Bitmap → ℕ → ℕ → Bitmap
clear_bits b ix m = record b { v = write b.v ix (bit_and (b.v ix) (255 - m)) }

-- for (; j < BITS_PER_WORD; j++) v[ix] |= 1 << j
pub mark_leftover : ℕ → ℕ → ℕ → Bitmap → Bitmap
mark_leftover zero ix j b = b
mark_leftover (suc rounds) ix j b = mark_leftover rounds ix (j + 1) (set_bits b ix (mask j))

-- The bits past the end of the last word are marked as in use.
pub mark_overbits : ℕ → Cmd Bitmap (Unit {0})
mark_overbits words = do
  b ← get_state
  let ix = words - 1
  let overbits = (b.nbits + 2 ^ 32 - ix * 8) % 2 ^ 32
  assert (b.nbits / 8 == words - 1)
  assert (ltb 0 overbits && ltb overbits 8)
  modify (mark_leftover (8 - overbits) ix overbits)

unfoldable pub create : ℕ → Run Bitmap (Unit {0})
unfolding mark_leftover mark_overbits
create nbits =
    let words = nr_words nbits in
    let b : Bitmap = record { nbits = nbits; v = λ _. 0 } in
    if ltb (nbits / 8) words then mark_overbits words b else ok tt b

abbrev pub getdata : Bitmap → ℕ → ℕ
getdata b = b.v

abbrev pub getsize : Bitmap → ℕ
getsize b = b.nbits

-- for (; offset < BITS_PER_WORD; offset++), and the assert(0) behind the loop
pub alloc_in_word : ℕ → ℕ → ℕ → Cmd Bitmap (Ret ℕ)
alloc_in_word zero ix offset b = halt aborted
alloc_in_word (suc rounds) ix offset b = elim (bit_and (b.v ix) (mask offset) == 0) [
  | true ↦
      let index = (ix * 8 + offset) % 2 ^ 32 in
      (assert (ltb index b.nbits) >> pure (done index)) (set_bits b ix (mask offset))
  | false ↦ alloc_in_word rounds ix (offset + 1) b
]

-- for (; ix < maxix; ix++)
pub alloc_from : ℕ → ℕ → Cmd Bitmap (Ret ℕ)
unfolding alloc_in_word
alloc_from zero ix b = ok enospc b
alloc_from (suc rounds) ix b = elim (b.v ix == 255) [
  | true ↦ alloc_from rounds (ix + 1) b
  | false ↦ alloc_in_word 8 ix 0 b
]

unfoldable pub alloc : Cmd Bitmap (Ret ℕ)
unfolding alloc_from
alloc b = alloc_from (nr_words b.nbits) 0 b

-- `*ix` and `*mask`
abbrev pub translate : ℕ → ℕ × ℕ
translate bitno = (bitno / 8, mask (bitno % 8))

unfoldable pub mark : ℕ → Cmd Bitmap (Unit {0})
mark index = do
  b ← get_state
  assert (ltb index b.nbits)
  let (ix, m) = translate index
  assert (bit_and (b.v ix) m == 0)
  modify (λ b. set_bits b ix m)

unfoldable pub unmark : ℕ → Cmd Bitmap (Unit {0})
unmark index = do
  b ← get_state
  assert (ltb index b.nbits)
  let (ix, m) = translate index
  assert (not (bit_and (b.v ix) m == 0))
  modify (λ b. clear_bits b ix m)

unfoldable pub isset : Bitmap → ℕ → ℕ
isset b index = let (ix, m) = translate index in bit_and (b.v ix) m

-- for (; i < nbits; i++) if (bitmap_isset(b, i)) nr++
pub count_set : ℕ → ℕ → ℕ → Bitmap → ℕ
unfolding isset
count_set zero i nr b = nr
count_set (suc rounds) i nr b = count_set rounds (i + 1) (if isset b i == 0 then nr else nr + 1) b

unfoldable pub nr_allocated : Bitmap → ℕ
unfolding count_set
nr_allocated b = count_set b.nbits 0 0 b
