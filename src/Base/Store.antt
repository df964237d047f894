-- ===== src/Base/Store.antt =====
-- Allocated objects, each struct in a store of its own from address to object.
use ece344_operating_systems.Base.Tests.{◌==◌, if◌then◌else◌}
use Prim.Native.Nat.{ℕ}
use mathlib.Core.Path.{◌≡◌, refl}
use mathlib.Core.Bool.{Bool, false}
use native.Mathlib.Omega.{arith}

-- An address; NULL is 0, which no object has.
abbrev pub Ptr : Type 0
Ptr = ℕ

abbrev pub null : Ptr
null = 0

-- The store `f` with `c` at `p`.
abbrev pub write : {C : Type 0} → (Ptr → C) → Ptr → C → Ptr → C
write f p c a = if a == p then c else f a

abbrev pub is_null : Ptr → Bool
is_null p = p == null

pub write-same : {C : Type 0} (f : Ptr → C) (p : Ptr) (c : C) → write f p c p ≡ c
write-same f p c = ground arith

-- Writes to two addresses commute.
pub write_comm :
    {C : Type 0} (f : Ptr → C) (p q : Ptr) (c d : C)
    → (p == q) ≡ false
    → (a : Ptr) → write (write f p c) q d a ≡ write (write f q d) p c a
write_comm f p q c d apart a = ground (arith, apart)

pub write-other :
    {C : Type 0} (f : Ptr → C) (p : Ptr) (c : C) (a : Ptr) → (a == p) ≡ false → write f p c a ≡ f a
write-other f p c a apart = rw apart refl

pub null_clash : {X : Type 0} {p : Ptr} → p ≡ null → is_null p ≡ false → X
null_clash e h = ground (arith, e, h)
