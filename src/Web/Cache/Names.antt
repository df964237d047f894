-- ===== src/Web/Cache/Names.antt =====
-- webserver/server_thread.c: what the search for a name in a bucket finds.
use mathlib.Core.Path.{subst}
use ece344_operating_systems.Base.{
  ℕ, ◌≡◌, refl, sym, ap, ◌∙◌, true, false, some, List, [], ◌∷◌, ◌++◌, arith, ◌==◌, if◌then◌else◌,
  Bool-cases, ◌⊎◌, inl, inr,
}
pub use ece344_operating_systems.Base.Strings.{same_name_sound, same_name_refl}
use ece344_operating_systems.Base.Store.{Ptr, null}
use ece344_operating_systems.Base.Chain.{Cells, not_in_front}
use ece344_operating_systems.Base.Chain.At.{
  at, same_value, Distinct, Distinct-without, at-append-here,
}
use ece344_operating_systems.Web.Cache.{FileData, same_name}
use ece344_operating_systems.Web.Cache.Bucket.{find_name}

-- No file has the name.
abbrev pub Absent : List ℕ → Cells FileData → Type 0
Absent name xs = (p : Ptr) (f : FileData) → at p xs ≡ some f → same_name f.file_name name ≡ false

pub record Named (name : List ℕ) (xs : Cells FileData) (p : Ptr) : Type 0 where
  pub file : FileData
  pub front : Cells FileData
  pub back : Cells FileData
  pub parts : xs ≡ front ++ (p, file) ∷ back
  pub same : same_name file.file_name name ≡ true

pub Named-at :
    (name : List ℕ) (p : Ptr) (xs : Cells FileData) (r : Named name xs p)
    → Distinct xs
    → at p xs ≡ some r.file
Named-at name p xs r d =
    let parted : Distinct (r.front ++ (p, r.file) ∷ r.back) = subst Distinct r.parts d in
    let out = Distinct-without r.front p r.file r.back parted in
    ap (λ zs. at p zs) r.parts
    ∙ at-append-here r.front p r.file r.back (not_in_front p r.front r.back out.1)

Absent-cons :
    (name : List ℕ) (q : Ptr) (g : FileData) (xs : Cells FileData)
    → same_name g.file_name name ≡ false
    → Absent name xs
    → Absent name ((q, g) ∷ xs)
Absent-cons name q g xs h absent p f e = elim (Bool-cases (p == q)) [
  | inl i ↦
      let here : some g ≡ some f = sym (ap (λ t. if t then some g else at p xs) i) ∙ e in
      ap (λ f'. same_name f'.file_name name) (sym (same_value refl here)) ∙ h
  | inr i ↦ absent p f (sym (ap (λ t. if t then some g else at p xs) i) ∙ e)
]

-- The search finds an entry with the name, or there is none and it finds NULL.
pub find_name-cases :
    (name : List ℕ) (xs : Cells FileData)
    → Named name xs (find_name name xs) ⊎ ((find_name name xs ≡ null) × Absent name xs)
find_name-cases name [] = inr (refl, λ p f e. ground (arith, e))
find_name-cases name ((q, g) ∷ xs) = elim (Bool-cases (same_name g.file_name name)) [
  | inl h ↦ rw h (inl record { file = g; front = []; back = xs; parts = refl; same = h })
  | inr h ↦ elim (find_name-cases name xs) [
    | inl r ↦ rw h (
        inl record {
          file = r.file;
          front = (q, g) ∷ r.front;
          back = r.back;
          parts = ap (λ zs. (q, g) ∷ zs) r.parts;
          same = r.same;
        })
    | inr r ↦ rw h (inr (r.0, Absent-cons name q g xs h r.1))
  ]
]
