-- ===== src/Fs/Bitmap/Bits.antt =====
-- fs/bitmap.c: single bits of a byte under `|= mask` and `&= ~mask`, by exhaustive tables.
use Prim.Native.Nat.{bit_and, bit_or}
use ece344_operating_systems.Base.{
  ℕ, ◌-◌, ◌<◌, ◌≡◌, refl, Bool, true, false, not, ◌&&◌, ◌||◌, arith, ltb, ◌==◌,
}
use ece344_operating_systems.Base.Bytes.{holds_below, check, check_bytes}
use ece344_operating_systems.Fs.Bitmap.{mask}

-- Is bit `o` of the byte `w` set?
unfoldable pub has : ℕ → ℕ → Bool
has w o = not (bit_and w (mask o) == 0)

abbrev same : Bool → Bool → Bool
same true b = b
same false b = not b

same→eq : (a b : Bool) → same a b ≡ true → a ≡ b
same→eq a b h = ground arith

abbrev set_law : ℕ → ℕ → ℕ → Bool
unfolding has
set_law w o p = same (has (bit_or w (mask o)) p) ((o == p) || has w p)

abbrev clear_law : ℕ → ℕ → ℕ → Bool
unfolding has
clear_law w o p = same (has (bit_and w (255 - mask o)) p) (not (o == p) && has w p)

set_table : holds_below 256 (λ w. holds_below 8 (λ o. holds_below 8 (set_law w o))) ≡ true
unfolding holds_below has
set_table = refl

clear_table : holds_below 256 (λ w. holds_below 8 (λ o. holds_below 8 (clear_law w o))) ≡ true
unfolding holds_below has
clear_table = refl

module _ (w o : ℕ) (hw : w < 256) (ho : o < 8) where
  pub has-set_bit : (p : ℕ) → p < 8 → has (bit_or w (mask o)) p ≡ ((o == p) || has w p)
  unfolding has
  has-set_bit p hp = same→eq _ _ (
      check 8 (set_law w o) p
        (check_bytes 256 8 (λ w o. holds_below 8 (set_law w o)) w o set_table hw ho) hp)

  pub has-clear_bit : (p : ℕ) → p < 8 → has (bit_and w (255 - mask o)) p ≡ (not (o == p) && has w p)
  unfolding has
  has-clear_bit p hp = same→eq _ _ (
      check 8 (clear_law w o) p
        (check_bytes 256 8 (λ w o. holds_below 8 (clear_law w o)) w o clear_table hw ho) hp)

byte_law : ℕ → ℕ → Bool
byte_law w o = ltb (bit_or w (mask o)) 256 && ltb (bit_and w (255 - mask o)) 256

byte_table : holds_below 256 (λ w. holds_below 8 (byte_law w)) ≡ true
unfolding holds_below byte_law
byte_table = refl

restore_law : ℕ → ℕ → Bool
unfolding has
restore_law w o = has w o || (bit_and (bit_or w (mask o)) (255 - mask o) == w)

restore_table : holds_below 256 (λ w. holds_below 8 (restore_law w)) ≡ true
unfolding holds_below restore_law
restore_table = refl

module _ (w o : ℕ) (hw : w < 256) (ho : o < 8) where
  pub set_bit-lt : bit_or w (mask o) < 256
  unfolding byte_law
  set_bit-lt = ground (arith, check_bytes 256 8 byte_law w o byte_table hw ho)

  pub clear_bit-lt : bit_and w (255 - mask o) < 256
  unfolding byte_law
  clear_bit-lt = ground (arith, check_bytes 256 8 byte_law w o byte_table hw ho)

  -- Clearing a bit that was set from clear gives the byte back.
  pub clear-set_bit : has w o ≡ false → bit_and (bit_or w (mask o)) (255 - mask o) ≡ w
  unfolding restore_law
  clear-set_bit h = ground (arith, check_bytes 256 8 restore_law w o restore_table hw ho)

full_law : ℕ → Bool
unfolding has
full_law w = same (holds_below 8 (has w)) (w == 255)

full_table : holds_below 256 full_law ≡ true
unfolding holds_below full_law
full_table = refl

-- A byte has all its bits set exactly when it is WORD_ALLBITS.
pub all_bits : (w : ℕ) → w < 256 → holds_below 8 (has w) ≡ (w == 255)
unfolding full_law
all_bits w h = same→eq _ _ (check 256 full_law w full_table h)

zero_table : holds_below 8 (λ o. not (has 0 o)) ≡ true
unfolding holds_below has
zero_table = refl

pub has-zero : (o : ℕ) → o < 8 → has 0 o ≡ false
has-zero o h = ground (arith, check 8 (λ o. not (has 0 o)) o zero_table h)
