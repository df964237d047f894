-- ===== src/Base/Chain/Length.antt =====
-- A list of different addresses is no longer than a list that has them all.
use ece344_operating_systems.Base.Tests.{◌==◌, ==_sym}
use ece344_operating_systems.Base.Lists.{length, length-append}
use Prim.Native.Nat.{ℕ, suc, ◌≤◌}
use mathlib.Core.Path.{◌≡◌, sym, ap, ◌∙◌}
use mathlib.Core.Bool.{true, false}
use mathlib.Core.List.{[], ◌∷◌, ◌++◌}
use native.Mathlib.Omega.{arith}
use ece344_operating_systems.Base.Store.{Ptr}
use ece344_operating_systems.Base.Chain.{Cells, has, has-ne}
use ece344_operating_systems.Base.Chain.At.{Distinct, at-Split, has-at, has-without}

module _ {A B : Type 0} where
  others_remain :
      (p : Ptr) (xs : Cells A) (ys front : Cells B) (b : B) (back : Cells B)
      → has p xs ≡ false
      → ((a : Ptr) → has a xs ≡ true → has a ys ≡ true)
      → ys ≡ front ++ (p, b) ∷ back
      → (a : Ptr) → has a xs ≡ true
      → has a (front ++ back) ≡ true
  others_remain p xs ys front b back out all parts a inside =
      let apart : (a == p) ≡ false = ==_sym p a (has-ne a p xs inside out) in
      has-without a front p b back apart (sym (ap (λ zs. has a zs) parts) ∙ all a inside)

module _ {A : Type 0} where
  in_tail :
      (p : Ptr) (b : A) (xs : Cells A) (a : Ptr) → has a xs ≡ true → has a ((p, b) ∷ xs) ≡ true
  in_tail p b xs a h = ground (arith, h)

  in_head : (p : Ptr) (b : A) (xs : Cells A) → has p ((p, b) ∷ xs) ≡ true
  in_head p b xs = ground arith

  longer :
      (n : ℕ) (ys front : Cells A) (y : Ptr × A) (back : Cells A)
      → n ≤ length (front ++ back)
      → ys ≡ front ++ y ∷ back
      → suc n ≤ length ys
  longer n ys front y back le parts =
      rw parts (omega (arith, le, length-append {0} front back, length-append {0} front (y ∷ back)))

-- A list of different addresses is no longer than one that has them all.
pub Distinct-length :
    {A B : Type 0} (xs : Cells A) (ys : Cells B)
    → Distinct xs
    → ((p : Ptr) → has p xs ≡ true → has p ys ≡ true)
    → length xs ≤ length ys
Distinct-length [] ys d all = omega arith
Distinct-length ((p, b) ∷ xs) ys d all =
    let y = has-at p ys (all p (in_head p b xs)) in
    let s = at-Split p (y.0) ys y.1 in
    let rest : length xs ≤ length (s.front ++ s.back) = Distinct-length xs (s.front ++ s.back) d.1 (
      others_remain p xs ys s.front (y.0) s.back d.0 (λ a i. all a (in_tail p b xs a i)) s.parts) in
    longer (length xs) ys s.front (p, y.0) s.back rest s.parts
