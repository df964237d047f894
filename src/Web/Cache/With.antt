-- ===== src/Web/Cache/With.antt =====
-- webserver/server_thread.c: the table and the LRU list with a new entry.
use mathlib.Core.Path.{subst}
use ece344_operating_systems.Base.{
  ℕ, ◌≡◌, sym, ap, ◌∙◌, true, false, some, [], ◌∷◌, ◌++◌, arith, ◌==◌, ==_eq, Bool-cases,
  if◌then◌else◌, ◌⊎◌, inl, inr,
}
use ece344_operating_systems.Base.Store.{Ptr}
use ece344_operating_systems.Base.Chain.{Cells, has}
use ece344_operating_systems.Base.Chain.At.{
  at, has-at, at-has, Distinct, Distinct-snoc, at-append-here, at-snoc, snoc-at,
}
use ece344_operating_systems.Web.Cache.{FileData, same_name, key_of}
use ece344_operating_systems.Web.Cache.Names.{Absent, same_name_sound, same_name_refl}
use ece344_operating_systems.Web.Cache.Without.{with_bucket, with_bucket-same}
use ece344_operating_systems.Web.Cache.Valid.{Items, Buckets, files, Agree, files-append}

module _ {capacity : ℕ} (items : Items) (buckets : Buckets) (n p : Ptr) (f : FileData)
    (is : Agree capacity items buckets) (fresh : (k : ℕ) → has p (buckets k) ≡ false)
    (absent : Absent f.file_name (files items)) where
  abbrev key : ℕ
  key = key_of capacity f.file_name

  abbrev cells : Cells FileData
  cells = buckets key ++ (p, f) ∷ []

  abbrev more : Items
  more = items ++ (n, (p, f)) ∷ []

  new-files : files more ≡ files items ++ (p, f) ∷ []
  new-files = files-append items ((n, (p, f)) ∷ [])

  not_listed : has p (files items) ≡ false
  not_listed = elim (Bool-cases (has p (files items))) [
    | inr o ↦ o
    | inl i ↦
        let a = has-at p (files items) i in
        let b = at-has p (a.0) (buckets (key_of capacity a.0.file_name)) (is.stored p (a.0) a.1) in
        let clash : true ≡ false = sym b ∙ fresh (key_of capacity a.0.file_name) in
        ground (arith, clash)
  ]

  listed_new : at p (files more) ≡ some f
  listed_new = ap (λ zs. at p zs) new-files ∙ at-append-here (files items) p f [] not_listed

  listed_old : (q : Ptr) (g : FileData) → at q (files items) ≡ some g → at q (files more) ≡ some g
  listed_old q g e = ap (λ zs. at q zs) new-files ∙ snoc-at q (files items) p f g not_listed e

  listed-cases :
      (q : Ptr) (g : FileData)
      → at q (files more) ≡ some g
      → ((q ≡ p) × (f ≡ g)) ⊎ (at q (files items) ≡ some g)
  listed-cases q g e =
      at-snoc q (files items) p f g not_listed (sym (ap (λ zs. at q zs) new-files) ∙ e)

  bucket_new : at p (with_bucket buckets key cells key) ≡ some f
  bucket_new =
      ap (λ zs. at p zs) (with_bucket-same buckets key cells)
      ∙ at-append-here (buckets key) p f [] (fresh key)

  bucket_old :
      (k : ℕ) (q : Ptr) (g : FileData)
      → at q (buckets k) ≡ some g
      → at q (with_bucket buckets key cells k) ≡ some g
  bucket_old k q g e = elim (Bool-cases (k == key)) [
    | inr h ↦ rw h e
    | inl h ↦ rw h (
        snoc-at q (buckets key) p f g (fresh key)
          (ap (λ j. at q (buckets j)) (sym (==_eq k key h)) ∙ e))
  ]

  bucket-cases :
      (k : ℕ) (q : Ptr) (g : FileData)
      → at q (with_bucket buckets key cells k) ≡ some g
      → ((k ≡ key) × ((q ≡ p) × (f ≡ g))) ⊎ (at q (buckets k) ≡ some g)
  bucket-cases k q g e = elim (Bool-cases (k == key)) [
    | inr h ↦ inr (sym (ap (λ b. at q (if b then cells else buckets k)) h) ∙ e)
    | inl h ↦
        let here : at q cells ≡ some g =
          sym (ap (λ b. at q (if b then cells else buckets k)) h) ∙ e in
        elim (at-snoc q (buckets key) p f g (fresh key) here) [
          | inl r ↦ inl (==_eq k key h, r)
          | inr r ↦ inr (ap (λ j. at q (buckets j)) (==_eq k key h) ∙ r)
        ]
  ]

  other_name :
      (q : Ptr) (g : FileData)
      → at q (files items) ≡ some g
      → same_name f.file_name g.file_name ≡ false
  other_name q g e = elim (Bool-cases (same_name f.file_name g.file_name)) [
    | inr h ↦ h
    | inl h ↦
        let same = same_name_sound f.file_name g.file_name h in
        let clash : true ≡ false =
          sym (same_name_refl g.file_name)
          ∙ ap (λ m. same_name g.file_name m) (sym same)
          ∙ absent q g e in
        ground (arith, clash)
  ]

  stored_new :
      (q : Ptr) (g : FileData)
      → q ≡ p
      → f ≡ g
      → at q (with_bucket buckets key cells (key_of capacity g.file_name)) ≡ some g
  stored_new q g e e' =
      subst (λ h. at q (with_bucket buckets key cells (key_of capacity h.file_name)) ≡ some h) e'
        (subst (λ a. at a (with_bucket buckets key cells key) ≡ some f) (sym e) bucket_new)

  -- Both structures get an entry for a file whose name they do not have.
  pub Agree-inserted : Agree capacity more (with_bucket buckets key cells)
  Agree-inserted = record {
    homes = λ k q g e. elim (bucket-cases k q g e) [
      | inl r ↦ r.0 ∙ ap (λ h. key_of capacity h.file_name) r.1.1
      | inr r ↦ is.homes k q g r
    ];
    listed = λ k q g e. elim (bucket-cases k q g e) [
      | inl r ↦ ap (λ a. at a (files more)) r.1.0 ∙ listed_new ∙ ap some r.1.1
      | inr r ↦ listed_old q g (is.listed k q g r)
    ];
    stored = λ q g e. elim (listed-cases q g e) [
      | inl r ↦ stored_new q g r.0 r.1
      | inr r ↦ bucket_old (key_of capacity g.file_name) q g (is.stored q g r)
    ];
    once = subst Distinct (sym new-files) (Distinct-snoc (files items) p f is.once not_listed);
    names = λ q r g h e e' same. elim (listed-cases q g e) [
      | inl a ↦ elim (listed-cases r h e') [
        | inl b ↦ a.0 ∙ sym b.0
        | inr b ↦
            let clash : true ≡ false =
              sym same ∙ ap (λ m. same_name m.file_name h.file_name) (sym a.1) ∙ other_name r h b in
            ground (arith, clash)
      ]
      | inr a ↦ elim (listed-cases r h e') [
        | inl b ↦
            let clash : true ≡ false =
              sym same ∙ ap (λ m. same_name g.file_name m.file_name) (sym b.1) ∙ absent q g a in
            ground (arith, clash)
        | inr b ↦ is.names q r g h a b same
      ]
    ];
  }
