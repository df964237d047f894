-- ===== src/Web/Cache/Without.antt =====
-- webserver/server_thread.c: the table and the LRU list without an entry.
use mathlib.Core.Path.{subst}
use ece344_operating_systems.Base.{
  ℕ, ◌≡◌, refl, sym, ap, ◌∙◌, true, false, some, none, ◌∷◌, ◌++◌, arith, ◌==◌, ==_eq, ==_sym,
  if◌then◌else◌, Bool-cases, inl, inr,
}
use ece344_operating_systems.Base.Store.{Ptr}
use ece344_operating_systems.Base.Chain.{Cells, has, Seg, frame}
use ece344_operating_systems.Base.Chain.At.{
  at, Distinct, other_address, at-none, has-middle, at-append-other, Distinct-without,
}
use ece344_operating_systems.Web.Cache.{FileData, key_of}
use ece344_operating_systems.Web.Cache.Bucket.{Entries, entry_of}
use ece344_operating_systems.Web.Cache.Items.{item-Distinct}
use ece344_operating_systems.Web.Cache.Valid.{
  Items, Buckets, files, Agree, files-append, one_bucket,
}

module _ {capacity : ℕ} {items : Items} {buckets : Buckets} (items' : Items) (buckets' : Buckets)
    (p : Ptr) (is : Agree capacity items buckets)
    (same : (q : Ptr) → (q == p) ≡ false → at q (files items') ≡ at q (files items))
    (gone : at p (files items') ≡ none)
    (same_bucket : (k : ℕ) (q : Ptr) → (q == p) ≡ false → at q (buckets' k) ≡ at q (buckets k))
    (gone_bucket : (k : ℕ) → at p (buckets' k) ≡ none) where
  before : (q : Ptr) (g : FileData) → at q (files items') ≡ some g → at q (files items) ≡ some g
  before q g e = sym (same q (other_address p q g (files items') gone e)) ∙ e

  -- Both structures lose an entry.
  Agree-without : Distinct (files items') → Agree capacity items' buckets'
  Agree-without once = record {
    homes = λ k q g e.
        is.homes k q g
          (sym (same_bucket k q (other_address p q g (buckets' k) (gone_bucket k) e)) ∙ e);
    listed = λ k q g e.
        let apart = other_address p q g (buckets' k) (gone_bucket k) e in
        same q apart ∙ is.listed k q g (sym (same_bucket k q apart) ∙ e);
    stored = λ q g e.
        let apart = other_address p q g (files items') gone e in
        same_bucket (key_of capacity g.file_name) q apart ∙ is.stored q g (sym (same q apart) ∙ e);
    once = once;
    names = λ q r g h e e'. is.names q r g h (before q g e) (before r h e');
  }

-- The buckets with another one at `key`.
abbrev pub with_bucket : Buckets → ℕ → Cells FileData → Buckets
with_bucket buckets key cells k = if k == key then cells else buckets k

pub with_bucket-same :
    (buckets : Buckets) (key : ℕ) (cells : Cells FileData)
    → with_bucket buckets key cells key ≡ cells
with_bucket-same buckets key cells = let h : (key == key) ≡ true = ground arith in rw h refl

-- The chains behind a change of one bucket that spares the nodes of the others.
pub with_bucket-chains :
    {capacity : ℕ} {items : Items} (buckets : Buckets) (f g : Entries) (table table' : ℕ → Ptr)
    (key : ℕ) (cells : Cells FileData)
    → Agree capacity items buckets
    → ((k : ℕ) → Seg entry_of f (table k) (buckets k))
    → Seg entry_of g (table' key) cells
    → ((k : ℕ) → (k == key) ≡ false → table' k ≡ table k)
    → ((k : ℕ) (a : Ptr) → has a (buckets k) ≡ true → has a (buckets key) ≡ false → g a ≡ f a)
    → (k : ℕ) → Seg entry_of g (table' k) (with_bucket buckets key cells k)
with_bucket-chains buckets f g table table' key cells is chains bucket others spared k =
    elim (Bool-cases (k == key)) [
      | inl h ↦ rw h (subst (λ j. Seg entry_of g (table' j) cells) (sym (==_eq k key h)) bucket)
      | inr h ↦
          rw (h, others k h)
            (frame g (chains k) (λ a i. spared k a i (one_bucket is k key a (==_sym k key h) i)))
    ]

module _ {capacity : ℕ} (buckets : Buckets) (xs ys : Items) (n p : Ptr) (f : FileData)
    (us vs : Cells FileData) (is : Agree capacity (xs ++ (n, (p, f)) ∷ ys) buckets)
    (parts : buckets (key_of capacity f.file_name) ≡ us ++ (p, f) ∷ vs)
    (d : Distinct (us ++ (p, f) ∷ vs)) where
  abbrev key : ℕ
  key = key_of capacity f.file_name

  gone_item : at p (files (xs ++ ys)) ≡ none
  gone_item =
      ap (λ zs. at p zs) (files-append xs ys)
      ∙ at-none p (files xs ++ files ys) (item-Distinct xs ys n p f is.once).1

  same_item :
      (q : Ptr) → (q == p) ≡ false → at q (files (xs ++ ys)) ≡ at q (files (xs ++ (n, (p, f)) ∷ ys))
  same_item q apart =
      ap (λ zs. at q zs) (files-append xs ys)
      ∙ sym (at-append-other q (files xs) p f (files ys) apart)
      ∙ ap (λ zs. at q zs) (sym (files-append xs ((n, (p, f)) ∷ ys)))

  same_cells :
      (k : ℕ) (q : Ptr)
      → (q == p) ≡ false
      → at q (with_bucket buckets key (us ++ vs) k) ≡ at q (buckets k)
  same_cells k q apart = elim (Bool-cases (k == key)) [
    | inl h ↦ rw h (
        sym (at-append-other q us p f vs apart)
        ∙ ap (λ zs. at q zs) (sym parts)
        ∙ ap (λ j. at q (buckets j)) (sym (==_eq k key h)))
    | inr h ↦ rw h refl
  ]

  gone_cell : (k : ℕ) → at p (with_bucket buckets key (us ++ vs) k) ≡ none
  gone_cell k = elim (Bool-cases (k == key)) [
    | inl h ↦ rw h (at-none p (us ++ vs) (Distinct-without us p f vs d).1)
    | inr h ↦ rw h (
        at-none p (buckets k)
          (one_bucket is key k p h (ap (λ zs. has p zs) parts ∙ has-middle us p f vs)))
  ]

  pub Agree-evicted : Agree capacity (xs ++ ys) (with_bucket buckets key (us ++ vs))
  Agree-evicted =
      Agree-without (xs ++ ys) (with_bucket buckets key (us ++ vs)) p is same_item gone_item
        same_cells gone_cell
        (subst Distinct (sym (files-append xs ys)) (item-Distinct xs ys n p f is.once).0)
