-- ===== src/Base/Chain.antt =====
-- Singly linked lists in a store: chains of nodes, each with what it holds and its successor.
pub mod Unlink
pub mod At
pub mod Length
use ece344_operating_systems.Base.Tests.{◌==◌, Bool-cases}
use Prim.Native.Nat.{ℕ}
use mathlib.Core.Path.{◌≡◌, refl, sym, ap, ◌∙◌}
use mathlib.Core.Logic.{◌≢◌, inl, inr}
use mathlib.Core.Bool.{Bool, true, false, ◌||◌}
use mathlib.Core.Option.{Option, some}
use mathlib.Core.List.{List, [], ◌∷◌, ◌++◌}
use native.Mathlib.Omega.{arith}
use ece344_operating_systems.Base.Store.{Ptr, null, write, is_null}

-- What a list stands for: the address of each node and what it holds, from head to tail.
abbrev pub Cells : Type 0 → Type 0
Cells A = List (Ptr × A)

abbrev pub has : {A : Type 0} → Ptr → Cells A → Bool
has a [] = false
has a ((p, _) ∷ xs) = (a == p) || has a xs

-- The node at `p` holds `x` and the successor `next`; `mk` makes a node of them.
pub record Points {A N : Type 0} (mk : A → Ptr → N) (f : Ptr → Option N) (p : Ptr) (x : A)
    (next : Ptr) : Type 0 where
  pub ne_null : p ≢ null
  pub holds : f p ≡ some (mk x next)

-- From `p` the nodes `xs`, all different, lead to NULL.
pub data Seg {A N : Type 0} (mk : A → Ptr → N) (f : Ptr → Option N) : Ptr → Cells A → Type 0 where
  nil : Seg mk f null []
  cons :
      {p next : Ptr} {x : A} {xs : Cells A}
      → Points mk f p x next
      → has p xs ≡ false
      → Seg mk f next xs
      → Seg mk f p ((p, x) ∷ xs)

-- `t` is the last node, if there is one.
abbrev pub EndsAt : {A : Type 0} → Cells A → Ptr → Type 0
EndsAt [] t = Unit
EndsAt ((p, _) ∷ []) t = t ≡ p
EndsAt (_ ∷ x ∷ xs) t = EndsAt (x ∷ xs) t

-- The last node is `t`, which holds `b`.
abbrev pub EndsWith : {A : Type 0} → Ptr × A → Cells A → Ptr → A → Type 0
EndsWith (p, x) [] t b = (t ≡ p) × (b ≡ x)
EndsWith _ (y ∷ xs) t b = EndsWith y xs t b

-- The address of the last node, `p` in front of an empty list.
abbrev pub last_of : {A : Type 0} → Ptr → Cells A → Ptr
last_of p [] = p
last_of p ((q, _) ∷ xs) = last_of q xs

module _ {A : Type 0} where
  pub EndsAt-last_of : (p : Ptr) (x : Ptr × A) (xs : Cells A) → EndsAt (x ∷ xs) (last_of p (x ∷ xs))
  EndsAt-last_of p (q, b) [] = refl
  EndsAt-last_of p (q, b) (y ∷ xs) = EndsAt-last_of q y xs

  pub has-append : (a : Ptr) (xs ys : Cells A) → has a (xs ++ ys) ≡ (has a xs || has a ys)
  has-append a [] ys = refl
  has-append a (x ∷ xs) ys = ground (arith, has-append a xs ys)

  pub EndsAt-snoc : (xs : Cells A) (p : Ptr) (b : A) → EndsAt (xs ++ (p, b) ∷ []) p
  EndsAt-snoc [] p b = refl
  EndsAt-snoc (x ∷ []) p b = refl
  EndsAt-snoc (x ∷ y ∷ xs) p b = EndsAt-snoc (y ∷ xs) p b

  pub EndsAt-tail : (x : Ptr × A) (xs : Cells A) (t : Ptr) → EndsAt (x ∷ xs) t → EndsAt xs t
  EndsAt-tail x [] t e = tt
  EndsAt-tail x (y ∷ xs) t e = e

  pub EndsAt-append :
      (xs : Cells A) (y : Ptr × A) (ys : Cells A) (t : Ptr)
      → EndsAt (xs ++ y ∷ ys) t ≡ EndsAt (y ∷ ys) t
  EndsAt-append [] y ys t = refl
  EndsAt-append (x ∷ []) y ys t = refl
  EndsAt-append (x ∷ x' ∷ xs) y ys t = EndsAt-append (x' ∷ xs) y ys t

  pub has-EndsAt :
      (x : Ptr × A) (xs : Cells A) (t : Ptr) → EndsAt (x ∷ xs) t → has t (x ∷ xs) ≡ true
  has-EndsAt x [] t e = ground (arith, e)
  has-EndsAt x (y ∷ xs) t e = ground (arith, has-EndsAt y xs t e)

  pub has-EndsWith :
      (x : Ptr × A) (xs : Cells A) (t : Ptr) (b : A) → EndsWith x xs t b → has t (x ∷ xs) ≡ true
  has-EndsWith x [] t b e = ground (arith, e.0)
  has-EndsWith x (y ∷ xs) t b e = ground (arith, has-EndsWith y xs t b e)

module _ {A : Type 0} where
  pub has-ne : (a b : Ptr) (xs : Cells A) → has a xs ≡ true → has b xs ≡ false → (b == a) ≡ false
  has-ne a b xs i o = elim (Bool-cases (b == a)) [
    | inl e ↦
        let same : b ≡ a = ground (arith, e) in
        let clash : true ≡ false = sym i ∙ sym (ap (λ p. has p xs) same) ∙ o in cc
    | inr e ↦ e
  ]

  pub not_in_tail :
      (a : Ptr) (x : Ptr × A) (xs : Cells A) → has a (x ∷ xs) ≡ false → has a xs ≡ false
  not_in_tail a x xs o = ground (arith, o)

  pub not_in_front : (a : Ptr) (xs ys : Cells A) → has a (xs ++ ys) ≡ false → has a xs ≡ false
  not_in_front a xs ys o = ground (arith, has-append a xs ys, o)

  pub not_in_back : (a : Ptr) (xs ys : Cells A) → has a (xs ++ ys) ≡ false → has a ys ≡ false
  not_in_back a xs ys o = ground (arith, has-append a xs ys, o)

  other_node :
      (x y : A) (a node : Ptr) (xs : Cells A)
      → has node ((a, x) ∷ xs) ≡ false
      → has a ((node, y) ∷ []) ≡ false
  other_node x y a node xs o = ground (arith, o)

module _ {A N : Type 0} {mk : A → Ptr → N} where
  -- A chain survives a change that spares its nodes.
  pub frame :
      {f : Ptr → Option N} {p : Ptr} {xs : Cells A} (g : Ptr → Option N)
      → Seg mk f p xs
      → ((a : Ptr) → has a xs ≡ true → g a ≡ f a)
      → Seg mk g p xs
  frame g nil same = nil
  frame g (cons {p} e out s) same =
      cons (record { ne_null = e.ne_null; holds = ground (arith, same p, e.holds) }) out
        (frame g s (λ a i. same a (ground arith)))

  pub frame-write :
      {f : Ptr → Option N} {p : Ptr} {xs : Cells A} (a : Ptr) (c : Option N)
      → Seg mk f p xs
      → has a xs ≡ false
      → Seg mk (write f a c) p xs
  frame-write {f} a c s out = frame (write f a c) s (λ b i. ground arith)

  pub null_of_nil : {f : Ptr → Option N} {p : Ptr} → Seg mk f p [] → p ≡ null
  null_of_nil nil = refl

  pub not_null_of_cons :
      {f : Ptr → Option N} {p : Ptr} {x : Ptr × A} {xs : Cells A}
      → Seg mk f p (x ∷ xs)
      → is_null p ≡ false
  not_null_of_cons (cons e out s) = ground (arith, e.ne_null)

  pub Points-not_null :
      {f : Ptr → Option N} {p next : Ptr} {x : A} → Points mk f p x next → is_null p ≡ false
  Points-not_null e = ground (arith, e.ne_null)

-- The last node of a chain.
pub record Unsnoc {A N : Type 0} (mk : A → Ptr → N) (f : Ptr → Option N) (t : Ptr) (xs : Cells A)
    : Type 0 where
  pub item : A
  pub points : Points mk f t item null
  pub inside : has t xs ≡ true

-- What the last node holds.
pub record Last {A N : Type 0} (mk : A → Ptr → N) (f : Ptr → Option N) (x : Ptr × A) (xs : Cells A)
    (t : Ptr) : Type 0 where
  pub item : A
  pub ends : EndsWith x xs t item
  pub points : Points mk f t item null

-- The first node of a chain, and the rest.
pub record Uncons {A N : Type 0} (mk : A → Ptr → N) (f : Ptr → Option N) (h p : Ptr) (x : A)
    (xs : Cells A) : Type 0 where
  pub next : Ptr
  pub at_head : h ≡ p
  pub points : Points mk f h x next
  pub out : has h xs ≡ false
  pub rest : Seg mk f next xs

module _ {A N : Type 0} {mk : A → Ptr → N} where
  pub last-Seg :
      {f : Ptr → Option N} {p : Ptr} (x : Ptr × A) (xs : Cells A) (t : Ptr)
      → Seg mk f p (x ∷ xs)
      → EndsAt (x ∷ xs) t
      → Unsnoc mk f t (x ∷ xs)
  last-Seg (a, b) [] t (cons e out nil) end = record {
    item = b;
    points = record {
      ne_null = ground (arith, end, e.ne_null);
      holds = ground (arith, end, e.holds);
    };
    inside = ground (arith, end);
  }
  last-Seg x (y ∷ xs) t (cons e out s) end =
      let l = last-Seg y xs t s end in
      record { item = l.item; points = l.points; inside = ground (arith, l.inside) }

  pub EndsWith-Last :
      {f : Ptr → Option N} {p : Ptr} (x : Ptr × A) (xs : Cells A) (t : Ptr)
      → Seg mk f p (x ∷ xs)
      → EndsAt (x ∷ xs) t
      → Last mk f x xs t
  EndsWith-Last (a, b) [] t (cons e out nil) end = record {
    item = b;
    ends = (end, refl);
    points = rw end e;
  }
  EndsWith-Last x (y ∷ xs) t (cons e out s) end =
      let l = EndsWith-Last y xs t s end in
      record { item = l.item; ends = l.ends; points = l.points }

  -- A node behind the last one, which is linked to it.
  pub snoc-Seg :
      {f : Ptr → Option N} {p : Ptr} (x : Ptr × A) (xs : Cells A) (t : Ptr) (b : A) (node : Ptr)
      (c : A)
      → Seg mk f p (x ∷ xs)
      → EndsWith x xs t b
      → Points mk f node c null
      → has node (x ∷ xs) ≡ false
      → Seg mk (write f t (some (mk b node))) p ((x ∷ xs) ++ (node, c) ∷ [])
  snoc-Seg {f} (a, d) [] t b node c (cons {p} e out nil) end new fresh =
      let apart : (node == a) ≡ false = ground (arith, fresh) in
      let first : Points mk (write f a (some (mk d node))) a d node = record {
        ne_null = e.ne_null;
        holds = ground arith;
      } in
      let second : Points mk (write f a (some (mk d node))) node c null = record {
        ne_null = new.ne_null;
        holds = rw apart new.holds;
      } in
      rw (end.0, end.1) (cons first (ground (arith, apart)) (cons second refl nil))
  snoc-Seg {f} (a, d) (y ∷ xs) t b node c (cons {p} e out s) end new fresh =
      let apart : (a == t) ≡ false = has-ne t a (y ∷ xs) (has-EndsWith y xs t b end) out in
      let other : has a ((node, c) ∷ []) ≡ false = other_node d c a node (y ∷ xs) fresh in
      cons (record { ne_null = e.ne_null; holds = rw apart e.holds })
        (has-append a (y ∷ xs) ((node, c) ∷ []) ∙ rw (out, other) refl)
        (snoc-Seg y xs t b node c s end new (not_in_tail node (a, d) (y ∷ xs) fresh))

  pub first-Seg :
      {f : Ptr → Option N} {h : Ptr} (p : Ptr) (x : A) (xs : Cells A)
      → Seg mk f h ((p, x) ∷ xs)
      → Uncons mk f h p x xs
  first-Seg p x xs (cons {next} e out s) = record {
    next = next;
    at_head = refl;
    points = e;
    out = out;
    rest = s;
  }

  -- A node of a chain, wherever it stands.
  pub middle-Seg :
      {f : Ptr → Option N} {h : Ptr} (xs : Cells A) (p : Ptr) (x : A) (ys : Cells A)
      → Seg mk f h (xs ++ (p, x) ∷ ys)
      → (next : Ptr) × Points mk f p x next
  middle-Seg [] p x ys (cons {next} e out s) = (next, e)
  middle-Seg (z ∷ xs) p x ys (cons e out s) = middle-Seg xs p x ys s
