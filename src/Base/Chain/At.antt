-- ===== src/Base/Chain/At.antt =====
-- What the nodes of a list of cells hold, by address; lists without a repeated address.
use ece344_operating_systems.Base.Tests.{◌==◌, ==_eq, ==_sym, Bool-cases, if◌then◌else◌}
use mathlib.Core.Path.{subst, ◌≡◌, refl, sym, ap, ◌∙◌}
use mathlib.Core.Logic.{◌⊎◌, inl, inr}
use mathlib.Core.Bool.{true, false}
use mathlib.Core.Option.{Option, none, some}
use mathlib.Core.List.{[], ◌∷◌, ◌++◌, append-nil}
use native.Mathlib.Omega.{arith}
use ece344_operating_systems.Base.Store.{Ptr}
use ece344_operating_systems.Base.Chain.{
  Cells, has, Points, Seg, nil, cons, has-append, not_in_tail, not_in_front, middle-Seg,
}

abbrev pub at : {A : Type 0} → Ptr → Cells A → Option A
at p [] = none
at p ((q, b) ∷ xs) = let rest = at p xs in if p == q then some b else rest

abbrev pub Distinct : {A : Type 0} → Cells A → Type 0
Distinct [] = Unit
Distinct ((p, _) ∷ xs) = (has p xs ≡ false) × Distinct xs

abbrev value : {A : Type 0} → A → Option A → A
value a none = a
value a (some b) = b

pub same_value : {A : Type 0} {o : Option A} {a b : A} → o ≡ some a → o ≡ some b → a ≡ b
same_value {a} e e' = ap (λ o. value a o) (sym e ∙ e')

-- An address without a cell is not one with a cell.
pub other_address :
    {A : Type 0} (p q : Ptr) (b : A) (xs : Cells A)
    → at p xs ≡ none
    → at q xs ≡ some b
    → (q == p) ≡ false
other_address p q b xs e e' = elim (Bool-cases (q == p)) [
  | inr h ↦ h
  | inl h ↦
      let same : q ≡ p = ground (arith, h) in
      let clash : none ≡ some b = sym e ∙ ap (λ a. at a xs) (sym same) ∙ e' in ground (arith, clash)
]

-- The cells around the one at an address.
pub record Split {A : Type 0} (p : Ptr) (b : A) (xs : Cells A) : Type 0 where
  pub front : Cells A
  pub back : Cells A
  pub parts : xs ≡ front ++ (p, b) ∷ back

module _ {A : Type 0} where
  pub at-has : (p : Ptr) (b : A) (xs : Cells A) → at p xs ≡ some b → has p xs ≡ true
  at-has p b [] e = ground (arith, e)
  at-has p b ((q, d) ∷ xs) e = elim (Bool-cases (p == q)) [
    | inl h ↦ ground (arith, h)
    | inr h ↦
        let rest : at p xs ≡ some b = sym (ap (λ t. if t then some d else at p xs) h) ∙ e in
        ground (arith, at-has p b xs rest)
  ]

  pub has-middle :
      (xs : Cells A) (p : Ptr) (b : A) (ys : Cells A) → has p (xs ++ (p, b) ∷ ys) ≡ true
  has-middle xs p b ys = ground (arith, has-append p xs ((p, b) ∷ ys))

  pub not_without :
      (a : Ptr) (xs : Cells A) (p : Ptr) (b : A) (ys : Cells A)
      → has a (xs ++ (p, b) ∷ ys) ≡ false
      → has a (xs ++ ys) ≡ false
  not_without a xs p b ys o = ground (arith, o, has-append a xs ((p, b) ∷ ys), has-append a xs ys)

  pub has-at : (p : Ptr) (xs : Cells A) → has p xs ≡ true → (b : A) × (at p xs ≡ some b)
  has-at p [] e = ground (arith, e)
  has-at p ((q, d) ∷ xs) e = elim (Bool-cases (p == q)) [
    | inl h ↦ (d, rw h refl)
    | inr h ↦ let r = has-at p xs (ground (arith, e, h)) in (r.0, rw h r.1)
  ]

  pub at-none : (p : Ptr) (xs : Cells A) → has p xs ≡ false → at p xs ≡ none
  at-none p [] e = refl
  at-none p ((q, d) ∷ xs) e =
      let h : (p == q) ≡ false = ground (arith, e) in
      rw h (at-none p xs (not_in_tail p (q, d) xs e))

  same_cell :
      (p q : Ptr) (b d : A) (xs : Cells A)
      → (p == q) ≡ true
      → at p ((q, d) ∷ xs) ≡ some b
      → (q, d) ∷ xs ≡ (p, b) ∷ xs
  same_cell p q b d xs h e = ground (arith, h, e)

  pub at-Split : (p : Ptr) (b : A) (xs : Cells A) → at p xs ≡ some b → Split p b xs
  at-Split p b [] e = ground (arith, e)
  at-Split p b ((q, d) ∷ xs) e = elim (Bool-cases (p == q)) [
    | inl h ↦ record { front = []; back = xs; parts = same_cell p q b d xs h e }
    | inr h ↦
        let rest : at p xs ≡ some b = sym (ap (λ t. if t then some d else at p xs) h) ∙ e in
        let r = at-Split p b xs rest in
        record { front = (q, d) ∷ r.front; back = r.back; parts = ap (λ zs. (q, d) ∷ zs) r.parts }
  ]

  -- A cell is found in a list where it stands, if not earlier.
  pub at-append-here :
      (xs : Cells A) (p : Ptr) (b : A) (ys : Cells A)
      → has p xs ≡ false
      → at p (xs ++ (p, b) ∷ ys) ≡ some b
  at-append-here [] p b ys out = let h : (p == p) ≡ true = ground arith in rw h refl
  at-append-here ((q, d) ∷ xs) p b ys out =
      let h : (p == q) ≡ false = ground (arith, out) in
      rw h (at-append-here xs p b ys (not_in_tail p (q, d) xs out))

  pub at-append-left :
      (p : Ptr) (b : A) (xs ys : Cells A) → at p xs ≡ some b → at p (xs ++ ys) ≡ some b
  at-append-left p b [] ys e = ground (arith, e)
  at-append-left p b ((q, d) ∷ xs) ys e = elim (Bool-cases (p == q)) [
    | inl h ↦ rw h (sym (ap (λ t. if t then some d else at p xs) h) ∙ e)
    | inr h ↦ rw h (at-append-left p b xs ys (sym (ap (λ t. if t then some d else at p xs) h) ∙ e))
  ]

  -- Another cell does not matter.
  pub at-append-other :
      (a : Ptr) (xs : Cells A) (p : Ptr) (b : A) (ys : Cells A)
      → (a == p) ≡ false
      → at a (xs ++ (p, b) ∷ ys) ≡ at a (xs ++ ys)
  at-append-other a [] p b ys apart = rw apart refl
  at-append-other a ((q, d) ∷ xs) p b ys apart = elim (Bool-cases (a == q)) [
    | inl h ↦ rw h refl
    | inr h ↦ rw h (at-append-other a xs p b ys apart)
  ]

  pub Distinct-without :
      (xs : Cells A) (p : Ptr) (b : A) (ys : Cells A)
      → Distinct (xs ++ (p, b) ∷ ys)
      → Distinct (xs ++ ys) × (has p (xs ++ ys) ≡ false)
  Distinct-without [] p b ys d = (d.1, d.0)
  Distinct-without ((q, e) ∷ xs) p b ys d =
      let r = Distinct-without xs p b ys d.1 in
      let o : has q (xs ++ ys) ≡ false =
        ground (arith, d.0, has-append q xs ((p, b) ∷ ys), has-append q xs ys) in
      let h : (q == p) ≡ false = ground (arith, d.0, has-append q xs ((p, b) ∷ ys)) in
      ((o, r.0), rw (==_sym q p h) r.1)

  pub Distinct-snoc :
      (xs : Cells A) (p : Ptr) (b : A)
      → Distinct xs
      → has p xs ≡ false
      → Distinct (xs ++ (p, b) ∷ [])
  Distinct-snoc [] p b d out = (refl, tt)
  Distinct-snoc ((q, e) ∷ xs) p b d out =
      let h : (q == p) ≡ false = ground (arith, out) in
      (
        has-append q xs ((p, b) ∷ []) ∙ rw (d.0, h) refl,
        Distinct-snoc xs p b d.1 (not_in_tail p (q, e) xs out),
      )

  pub has-without :
      (a : Ptr) (xs : Cells A) (p : Ptr) (b : A) (ys : Cells A)
      → (a == p) ≡ false
      → has a (xs ++ (p, b) ∷ ys) ≡ true
      → has a (xs ++ ys) ≡ true
  has-without a xs p b ys apart h =
      ground (arith, apart, h, has-append a xs ((p, b) ∷ ys), has-append a xs ys)

module _ {A N : Type 0} {mk : A → Ptr → N} where
  pub Seg-Distinct : {f : Ptr → Option N} {h : Ptr} {xs : Cells A} → Seg mk f h xs → Distinct xs
  Seg-Distinct nil = tt
  Seg-Distinct (cons e out s) = (out, Seg-Distinct s)

  -- An address that is not allocated is no node.
  pub not_allocated :
      {f : Ptr → Option N} {h : Ptr} (a : Ptr) (xs : Cells A)
      → Seg mk f h xs
      → f a ≡ none
      → has a xs ≡ false
  not_allocated a [] s e = refl
  not_allocated a ((p, b) ∷ xs) (cons n out s) e =
      let h : (a == p) ≡ false = ground (arith, n.holds, e) in rw h (not_allocated a xs s e)

  -- An address with a cell is a node.
  pub Seg-at :
      {f : Ptr → Option N} {h : Ptr} (p : Ptr) (b : A) (xs : Cells A)
      → Seg mk f h xs
      → at p xs ≡ some b
      → (next : Ptr) × Points mk f p b next
  Seg-at {f} {h} p b xs s e =
      let parts = at-Split p b xs e in
      middle-Seg parts.front p b parts.back (subst (λ zs. Seg mk f h zs) parts.parts s)

-- A cell may stand at the end as well.
pub at-moved :
    {A : Type 0} (q p : Ptr) (b : A) (xs ys : Cells A)
    → has p (xs ++ ys) ≡ false
    → at q ((xs ++ ys) ++ (p, b) ∷ []) ≡ at q (xs ++ (p, b) ∷ ys)
at-moved q p b xs ys out = elim (Bool-cases (q == p)) [
  | inl h ↦
      let same : q ≡ p = ground (arith, h) in
      subst (λ a. at a ((xs ++ ys) ++ (p, b) ∷ []) ≡ at a (xs ++ (p, b) ∷ ys)) (sym same)
        (at-append-here (xs ++ ys) p b [] out
          ∙ sym (at-append-here xs p b ys (not_in_front p xs ys out)))
  | inr h ↦
      at-append-other q (xs ++ ys) p b [] h
      ∙ ap (λ zs. at q zs) (append-nil (xs ++ ys))
      ∙ sym (at-append-other q xs p b ys h)
]

module _ {A : Type 0} where
  -- A cell of a list with one more at the end is that one or was there.
  pub at-snoc :
      (q : Ptr) (xs : Cells A) (p : Ptr) (b g : A)
      → has p xs ≡ false
      → at q (xs ++ (p, b) ∷ []) ≡ some g
      → ((q ≡ p) × (b ≡ g)) ⊎ (at q xs ≡ some g)
  at-snoc q xs p b g out e = elim (Bool-cases (q == p)) [
    | inl h ↦
        let same : q ≡ p = ==_eq q p h in
        inl (
          same,
          same_value (at-append-here xs p b [] out)
              (ap (λ a. at a (xs ++ (p, b) ∷ [])) (sym same) ∙ e),
        )
    | inr h ↦ inr (sym (at-append-other q xs p b [] h ∙ ap (λ zs. at q zs) (append-nil xs)) ∙ e)
  ]

  pub snoc-at :
      (q : Ptr) (xs : Cells A) (p : Ptr) (b g : A)
      → has p xs ≡ false
      → at q xs ≡ some g
      → at q (xs ++ (p, b) ∷ []) ≡ some g
  snoc-at q xs p b g out e =
      let apart : (q == p) ≡ false = other_address p q g xs (at-none p xs out) e in
      at-append-other q xs p b [] apart ∙ ap (λ zs. at q zs) (append-nil xs) ∙ e
