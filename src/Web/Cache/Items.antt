-- ===== src/Web/Cache/Items.antt =====
-- webserver/server_thread.c: the entries of the LRU list, and the use of one.
use mathlib.Core.Path.{subst}
use ece344_operating_systems.Base.{
  ℕ, ◌≡◌, refl, sym, ap, ◌∙◌, false, some, [], ◌∷◌, ◌++◌, arith, ◌==◌, ==_eq, if◌then◌else◌,
  Bool-cases, inl, inr,
}
use ece344_operating_systems.Base.Store.{Ptr}
use ece344_operating_systems.Base.Chain.{has, not_in_tail, not_in_front}
use ece344_operating_systems.Base.Chain.At.{
  at, same_value, Distinct, Distinct-without, Distinct-snoc, at-moved, at-append-here,
}
use ece344_operating_systems.Web.Lru.Find.{NoEntry}
use ece344_operating_systems.Web.Cache.{FileData}
use ece344_operating_systems.Web.Cache.Valid.{
  Items, Buckets, files, total, Agree, files-append, total-append, Agree-moved,
}

-- An entry of the LRU list, with its node and the cells around it.
pub record Item (items : Items) (p : Ptr) (f : FileData) : Type 0 where
  pub node : Ptr
  pub front : Items
  pub back : Items
  pub parts : items ≡ front ++ (node, (p, f)) ∷ back

pub at-Item :
    (p : Ptr) (f : FileData) (items : Items) → at p (files items) ≡ some f → Item items p f
at-Item p f [] e = ground (arith, e)
at-Item p f ((n, (q, g)) ∷ xs) e = elim (Bool-cases (p == q)) [
  | inl h ↦
      let here : some g ≡ some f = sym (ap (λ t. if t then some g else at p (files xs)) h) ∙ e in
      record {
        node = n;
        front = [];
        back = xs;
        parts =
            ap (λ x. (n, x) ∷ xs)
              (ap (λ a. (a, g)) (sym (==_eq p q h)) ∙ ap (λ f'. (p, f')) (same_value refl here));
      }
  | inr h ↦
      let r = at-Item p f xs (sym (ap (λ t. if t then some g else at p (files xs)) h) ∙ e) in
      record {
        node = r.node;
        front = (n, (q, g)) ∷ r.front;
        back = r.back;
        parts = ap (λ zs. (n, (q, g)) ∷ zs) r.parts;
      }
]

pub NoEntry-files : (p : Ptr) (xs : Items) → has p (files xs) ≡ false → NoEntry p xs
NoEntry-files p [] o = tt
NoEntry-files p ((n, (q, f)) ∷ xs) o =
    (ground (arith, o), NoEntry-files p xs (not_in_tail p (q, f) (files xs) o))

-- The files behind the move of an item to the end.
moved-files :
    (xs ys : Items) (n p : Ptr) (f : FileData)
    → files ((xs ++ ys) ++ (n, (p, f)) ∷ []) ≡ (files xs ++ files ys) ++ (p, f) ∷ []
moved-files xs ys n p f =
    files-append (xs ++ ys) ((n, (p, f)) ∷ []) ∙ ap (λ zs. zs ++ (p, f) ∷ []) (files-append xs ys)

-- An entry stands once in the list.
pub item-Distinct :
    (xs ys : Items) (n p : Ptr) (f : FileData)
    → Distinct (files (xs ++ (n, (p, f)) ∷ ys))
    → Distinct (files xs ++ files ys) × (has p (files xs ++ files ys) ≡ false)
item-Distinct xs ys n p f d =
    Distinct-without (files xs) p f (files ys)
      (subst Distinct (files-append xs ((n, (p, f)) ∷ ys)) d)

-- The file of an item is found.
pub item-here :
    {capacity : ℕ} {buckets : Buckets} (xs ys : Items) (n p : Ptr) (f : FileData)
    → Agree capacity (xs ++ (n, (p, f)) ∷ ys) buckets
    → at p (files (xs ++ (n, (p, f)) ∷ ys)) ≡ some f
item-here xs ys n p f is =
    ap (λ zs. at p zs) (files-append xs ((n, (p, f)) ∷ ys))
    ∙ at-append-here (files xs) p f (files ys)
        (not_in_front p (files xs) (files ys) (item-Distinct xs ys n p f is.once).1)

pub Agree-used :
    {capacity : ℕ} {buckets : Buckets} (xs ys : Items) (n p : Ptr) (f : FileData)
    → Agree capacity (xs ++ (n, (p, f)) ∷ ys) buckets
    → Agree capacity ((xs ++ ys) ++ (n, (p, f)) ∷ []) buckets
Agree-used xs ys n p f is =
    let d = item-Distinct xs ys n p f is.once in
    Agree-moved ((xs ++ ys) ++ (n, (p, f)) ∷ []) is
      (λ q.
        ap (λ zs. at q zs) (moved-files xs ys n p f)
        ∙ at-moved q p f (files xs) (files ys) d.1
        ∙ ap (λ zs. at q zs) (sym (files-append xs ((n, (p, f)) ∷ ys))))
      (subst Distinct (sym (moved-files xs ys n p f))
        (Distinct-snoc (files xs ++ files ys) p f d.0 d.1))

pub total-used :
    (xs ys : Items) (n p : Ptr) (f : FileData)
    → total ((xs ++ ys) ++ (n, (p, f)) ∷ []) ≡ total (xs ++ (n, (p, f)) ∷ ys)
total-used xs ys n p f = omega (
  arith,
  total-append (xs ++ ys) ((n, (p, f)) ∷ []),
  total-append xs ys,
  total-append xs ((n, (p, f)) ∷ ys),
)
