-- ===== src/Fs/ReadWrite/Clamp.antt =====
-- fs/read_write.c: sizes and block numbers that no conversion changes.
use Prim.Native.Nat.{min}
use ece344_operating_systems.Base.{
  ℕ, ◌+◌, ◌-◌, ◌^◌, ◌<◌, ◌≤◌, ◌≡◌, ◌/◌, ◌%◌, ◌∙◌, refl, ap, true, false, not, arith, ltb, leb,
}
use ece344_operating_systems.Base.Int.{pos}
use ece344_operating_systems.Base.Run.{Cmd}
use ece344_operating_systems.Fs.Device.{block_size}
use ece344_operating_systems.Fs.File.{File}
use ece344_operating_systems.Fs.ReadWrite.{
  max_file_size, signed_ltb, clamped, int_of_size, at_block, with_block_nr, first_block,
  is_before_block,
}

-- The bit patterns of two numbers below 2 ^ 63 compare as the numbers do.
signed_ltb_lem : (a b : ℕ) → a < 2 ^ 63 → b < 2 ^ 63 → signed_ltb a b ≡ ltb a b
signed_ltb_lem a b ha hb = ground (arith, ha, hb)

-- For a start within the file and numbers below 2 ^ 63, the size is the smaller of what is asked for
-- and what is left of the file.
pub clamped-min :
    (size start i_size : ℕ)
    → i_size < 2 ^ 63
    → start ≤ i_size
    → start + size < 2 ^ 63
    → clamped size start i_size ≡ min size (i_size - start)
clamped-min size start i_size hi hs h = ground (arith, hi, hs, h)

-- A size below 2 ^ 31 is returned as it is.
pub int_of_size-pos : (n : ℕ) → n < 2 ^ 31 → int_of_size n ≡ pos n
int_of_size-pos n h =
    let e : n % 2 ^ 32 ≡ n = omega (arith, h) in
    let small : ltb n (2 ^ 31) ≡ true = ground (arith, h) in rw (e, small) refl

-- A block number below 2 ^ 31 is passed on as it is.
pub with_block_nr-small :
    {A : Type 0} (n : ℕ) (k : ℕ → Cmd File A) → n < 2 ^ 31 → with_block_nr n k ≡ k n
unfolding with_block_nr
with_block_nr-small n k h = ap (λ z. at_block z k) (int_of_size-pos n h)

-- A start below the largest file is not negative.
pub starts_inside :
    (start : ℕ)
    → start < max_file_size
    → (not (signed_ltb start max_file_size) ≡ false)
      × (is_before_block start ≡ false)
      × (first_block start ≡ start / block_size)
starts_inside start h =
    let low : leb (2 ^ 63) start ≡ false = ground (arith, h) in
    let low' : ltb start (2 ^ 63) ≡ true = ground (arith, h) in
    let below : signed_ltb start max_file_size ≡ true =
      signed_ltb_lem start max_file_size (omega (arith, h)) (omega arith) ∙ ground (arith, h) in
    (ap not below, rw low refl, rw low' refl)
