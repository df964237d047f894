-- ===== src/Base/Chain/Unlink.antt =====
-- Taking a node out of a singly linked list.
use ece344_operating_systems.Base.Tests.{◌==◌}
use mathlib.Core.Path.{◌≡◌, refl}
use mathlib.Core.Bool.{true, false}
use mathlib.Core.Option.{Option, some}
use mathlib.Core.List.{[], ◌∷◌, ◌++◌}
use native.Mathlib.Omega.{arith}
use ece344_operating_systems.Base.Store.{Ptr, null, write}
use ece344_operating_systems.Base.Chain.{
  Cells, has, Points, Seg, nil, cons, EndsAt, frame-write, has-append,
}

-- The address of the first node.
abbrev pub head_of : {A : Type 0} → Cells A → Ptr
head_of [] = null
head_of ((p, _) ∷ _) = p

module _ {A N : Type 0} {mk : A → Ptr → N} where
  pub Seg-head_of : {f : Ptr → Option N} {h : Ptr} {xs : Cells A} → Seg mk f h xs → h ≡ head_of xs
  Seg-head_of nil = refl
  Seg-head_of (cons e out s) = refl

  -- A node stands once in a chain.
  pub apart-Seg :
      {f : Ptr → Option N} {h : Ptr} (xs : Cells A) (p : Ptr) (b : A) (ys : Cells A)
      → Seg mk f h (xs ++ (p, b) ∷ ys)
      → has p (xs ++ ys) ≡ false
  apart-Seg [] p b ys (cons e out s) = out
  apart-Seg ((q, a) ∷ xs) p b ys (cons e out s) =
      ground (arith, apart-Seg xs p b ys s, out, has-append q xs ((p, b) ∷ ys))

-- The node `n` behind `prev`, the last of `xs`, and the chain without it.
pub record Unlinks {A N : Type 0} (mk : A → Ptr → N) (f : Ptr → Option N) (h prev n : Ptr) (b : A)
    (xs ys : Cells A) : Type 0 where
  pub item : A
  pub before : Points mk f prev item n
  pub points : Points mk f n b (head_of ys)
  pub chain : Seg mk (write f prev (some (mk item (head_of ys)))) h (xs ++ ys)
  pub inside : has prev xs ≡ true
  pub out : has n (xs ++ ys) ≡ false

module _ {A N : Type 0} {mk : A → Ptr → N} where
  pub unlink-Seg :
      {f : Ptr → Option N} {h : Ptr} (x : Ptr × A) (xs : Cells A) (prev n : Ptr) (b : A)
      (ys : Cells A)
      → Seg mk f h ((x ∷ xs) ++ (n, b) ∷ ys)
      → EndsAt (x ∷ xs) prev
      → Unlinks mk f h prev n b (x ∷ xs) ys
  unlink-Seg {f} (c, a) [] prev n b ys (cons e out (cons e' out' s)) end =
      let apart : has c ys ≡ false = ground (arith, out) in
      let rest : Seg mk f (head_of ys) ys = rw (← Seg-head_of s) s in
      rw end (record {
        item = a;
        before = e;
        points = rw (← Seg-head_of s) e';
        chain =
            cons (record { ne_null = e.ne_null; holds = ground arith }) apart
              (frame-write c (some (mk a (head_of ys))) rest apart);
        inside = ground arith;
        out = ground (arith, out, out');
      })
  unlink-Seg {f} (c, a) (y ∷ xs) prev n b ys (cons e out s) end =
      let r = unlink-Seg y xs prev n b ys s end in
      let apart : (c == prev) ≡ false =
        ground (arith, r.inside, has-append c (y ∷ xs) ((n, b) ∷ ys), out) in
      record {
        item = r.item;
        before = r.before;
        points = r.points;
        chain =
            cons (record { ne_null = e.ne_null; holds = rw apart e.holds })
              (ground (arith, has-append c (y ∷ xs) ((n, b) ∷ ys), has-append c (y ∷ xs) ys, out))
              r.chain;
        inside = ground (arith, r.inside);
        out = ground (arith, r.out, has-append c (y ∷ xs) ((n, b) ∷ ys), out);
      }

-- A chain from its first node on.
pub record Opens {A N : Type 0} (mk : A → Ptr → N) (f : Ptr → Option N) (h p : Ptr) (b : A)
    (ys : Cells A) : Type 0 where
  pub at_head : h ≡ p
  pub points : Points mk f p b (head_of ys)
  pub rest : Seg mk f (head_of ys) ys
  pub out : has p ys ≡ false

module _ {A N : Type 0} {mk : A → Ptr → N} where
  pub open-Seg :
      {f : Ptr → Option N} {h : Ptr} (p : Ptr) (b : A) (ys : Cells A)
      → Seg mk f h ((p, b) ∷ ys)
      → Opens mk f h p b ys
  open-Seg p b ys (cons e out s) = record {
    at_head = refl;
    points = rw (← Seg-head_of s) e;
    rest = rw (← Seg-head_of s) s;
    out = out;
  }

  -- A node points at the one behind it.
  pub middle-Points :
      {f : Ptr → Option N} {h : Ptr} (xs : Cells A) (p : Ptr) (b : A) (ys : Cells A)
      → Seg mk f h (xs ++ (p, b) ∷ ys)
      → Points mk f p b (head_of ys)
  middle-Points [] p b ys s = (open-Seg p b ys s).points
  middle-Points (z ∷ xs) p b ys (cons e out s) = middle-Points xs p b ys s
