-- ===== src/Base/Bytes.antt =====
-- Exhaustive checks over bytes and over the eight bit positions of a byte.
use Prim.Native.Nat.{ℕ, zero, suc, ◌<◌}
use mathlib.Core.Path.{◌≡◌}
use mathlib.Core.Bool.{Bool, true, false}
use native.Mathlib.Omega.{arith}
use ece344_operating_systems.Base.Tests.{if◌then◌else◌}

-- Does the test pass at each of the first `limit` numbers?
unfoldable pub holds_below : ℕ → (ℕ → Bool) → Bool
holds_below zero test = true
holds_below (suc limit) test = if holds_below limit test then test limit else false

pub check :
    (limit : ℕ) (test : ℕ → Bool) (n : ℕ)
    → holds_below limit test ≡ true
    → n < limit
    → test n ≡ true
unfolding holds_below
check zero test n passed small = absurd (omega arith)
check (suc limit) test n passed small = ground (arith, check limit test n)

-- The same for two numbers.
pub check_bytes :
    (n m : ℕ) (test : ℕ → ℕ → Bool) (x y : ℕ)
    → holds_below n (λ a. holds_below m (test a)) ≡ true
    → x < n
    → y < m
    → test x y ≡ true
check_bytes n m test x y passed hx hy =
    check m (test x) y (check n (λ a. holds_below m (test a)) x passed hx) hy
