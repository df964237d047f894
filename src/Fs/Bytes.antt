-- ===== src/Fs/Bytes.antt =====
-- Little-endian integers in byte buffers, as `memcpy` of a struct and `((int *) block)[i]` see them
-- on the x86-64 machines for which the program is written.
use native.Mathlib.Nat.{add-zero, add_assoc}
use ece344_operating_systems.Base.{
  ℕ, ◌+◌, ◌-◌, ◌*◌, ◌/◌, ◌%◌, ◌^◌, ◌<◌, ◌≤◌, ◌≡◌, ◌⊎◌, inl, inr, ltb, leb, leb→le, true, ◌&&◌,
  if◌then◌else◌, arith, ap, ◌∙◌,
}

-- Byte `k` of the number `w`.
unfoldable pub byte_of : ℕ → ℕ → ℕ
byte_of w k = w / 256 ^ k % 256

-- The 32-bit word at offset `off`.
unfoldable pub word_at : (ℕ → ℕ) → ℕ → ℕ
word_at b off = b off + 2 ^ 8 * b (off + 1) + 2 ^ 16 * b (off + 2) + 2 ^ 24 * b (off + 3)

-- The 64-bit word at offset `off`.
unfoldable pub long_at : (ℕ → ℕ) → ℕ → ℕ
unfolding word_at
long_at b off = word_at b off + 2 ^ 32 * word_at b (off + 4)

-- The bytes of `w` over `n` bytes from `off` on, and `b` elsewhere.
unfoldable pub put_bytes : (ℕ → ℕ) → ℕ → ℕ → ℕ → ℕ → ℕ
put_bytes b off n w i = if leb off i && ltb i (off + n) then byte_of w (i - off) else b i

abbrev pub put_word : (ℕ → ℕ) → ℕ → ℕ → ℕ → ℕ
put_word b off w = put_bytes b off 4 w

put_bytes-at : (b : ℕ → ℕ) (off n w k : ℕ) → k < n → put_bytes b off n w (off + k) ≡ byte_of w k
unfolding put_bytes
put_bytes-at b off n w k h = let back : off + k - off ≡ k = omega arith in rw back (ground arith)

put_bytes-first : (b : ℕ → ℕ) (off n w : ℕ) → 0 < n → put_bytes b off n w off ≡ byte_of w 0
put_bytes-first b off n w h = rw add-zero at (put_bytes-at b off n w 0 h)

-- A stored word is read back.
pub word_at-put_word : (b : ℕ → ℕ) (off w : ℕ) → w < 2 ^ 32 → word_at (put_word b off w) off ≡ w
unfolding word_at byte_of
word_at-put_word b off w h = omega (
  arith,
  put_bytes-first b off 4 w (omega arith),
  put_bytes-at b off 4 w 1 (omega arith),
  put_bytes-at b off 4 w 2 (omega arith),
  put_bytes-at b off 4 w 3 (omega arith),
)

-- So is a stored 64-bit word.
pub long_at-put_bytes : (b : ℕ → ℕ) (off w : ℕ) → w < 2 ^ 64 → long_at (put_bytes b off 8 w) off ≡ w
unfolding long_at byte_of
long_at-put_bytes b off w h = omega (
  arith,
  put_bytes-first b off 8 w (omega arith),
  put_bytes-at b off 8 w 1 (omega arith),
  put_bytes-at b off 8 w 2 (omega arith),
  put_bytes-at b off 8 w 3 (omega arith),
  put_bytes-at b off 8 w 4 (omega arith),
  ap (put_bytes b off 8 w) (add_assoc off 4 1) ∙ put_bytes-at b off 8 w 5 (omega arith),
  ap (put_bytes b off 8 w) (add_assoc off 4 2) ∙ put_bytes-at b off 8 w 6 (omega arith),
  ap (put_bytes b off 8 w) (add_assoc off 4 3) ∙ put_bytes-at b off 8 w 7 (omega arith),
)

-- A word depends on its four bytes only.
pub word_at-eq :
    (b c : ℕ → ℕ) (off : ℕ)
    → ((i : ℕ) → off ≤ i → i < off + 4 → b i ≡ c i)
    → word_at b off ≡ word_at c off
unfolding word_at
word_at-eq b c off same = omega (
  arith,
  same off (omega arith) (omega arith),
  same (off + 1) (omega arith) (omega arith),
  same (off + 2) (omega arith) (omega arith),
  same (off + 3) (omega arith) (omega arith),
)

pub long_at-eq :
    (b c : ℕ → ℕ) (off : ℕ)
    → ((i : ℕ) → off ≤ i → i < off + 8 → b i ≡ c i)
    → long_at b off ≡ long_at c off
unfolding long_at
long_at-eq b c off same = omega (
  arith,
  word_at-eq b c off (λ i lo hi. same i lo (omega arith)),
  word_at-eq b c (off + 4) (λ i lo hi. same i (omega arith) (omega arith)),
)

-- A word beside the stored bytes stays.
pub word_at-put_ne :
    (b : ℕ → ℕ) (off n w o : ℕ)
    → (o + 4 ≤ off) ⊎ (off + n ≤ o)
    → word_at (put_bytes b off n w) o ≡ word_at b o
unfolding word_at put_bytes
word_at-put_ne b off n w o (inl h) = ground arith
word_at-put_ne b off n w o (inr h) = ground arith

-- The same below the stored bytes, with a test as the premise.
pub word_at-put_above :
    (b : ℕ → ℕ) (off n w o : ℕ)
    → leb (o + 4) off ≡ true
    → word_at (put_bytes b off n w) o ≡ word_at b o
word_at-put_above b off n w o h = word_at-put_ne b off n w o (inl (leb→le _ _ h))
