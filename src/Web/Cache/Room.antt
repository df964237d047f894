-- ===== src/Web/Cache/Room.antt =====
-- webserver/server_thread.c: the room that cache_insert makes, and its test for the name.
use ece344_operating_systems.Base.{
  ℕ, ◌+◌, ◌-◌, ◌<◌, ◌≤◌, ◌%◌, ◌^◌, ◌≡◌, refl, sym, ap, ◌∙◌, Bool, true, false, not, ◌||◌, some,
  List, [], ◌∷◌, arith, ltb, leb, ◌==◌, if◌then◌else◌, Bool-cases, or_left, or_right, inl, inr,
}
use ece344_operating_systems.Base.Int.{ℤ, pos, sub_ℕ}
use ece344_operating_systems.Base.Run.{ok}
use ece344_operating_systems.Base.Store.{Ptr, null, is_null}
use ece344_operating_systems.Base.Chain.{Cells, Points-not_null}
use ece344_operating_systems.Base.Chain.At.{
  at, same_value, at-none, other_address, Distinct, Seg-Distinct, Seg-at,
}
use ece344_operating_systems.Web.Cache.{
  FileData, Cache, same_name, key_of, add, sub_from, above, unsigned_long, cache_exists,
}
use ece344_operating_systems.Web.Cache.Bucket.{find_name}
use ece344_operating_systems.Web.Cache.Names.{Absent, Named-at, find_name-cases}
use ece344_operating_systems.Web.Cache.Lookup.{find_in_table-find_name, bucket-Absent}
use ece344_operating_systems.Web.Cache.Evicts.{evict_list}
use ece344_operating_systems.Web.Cache.Valid.{Items, Buckets, files, total, IsCache}

-- Whether a file has the name.
abbrev pub named : List ℕ → Cells FileData → Bool
named name [] = false
named name ((_, f) ∷ xs) = same_name f.file_name name || named name xs

pub named-Absent : (name : List ℕ) (xs : Cells FileData) → named name xs ≡ false → Absent name xs
named-Absent name [] h p f e = ground (arith, e)
named-Absent name ((q, g) ∷ xs) h p f e = elim (Bool-cases (p == q)) [
  | inl i ↦
      let here : some g ≡ some f = sym (ap (λ t. if t then some g else at p xs) i) ∙ e in
      let other : same_name g.file_name name ≡ false =
        or_left (same_name g.file_name name) (named name xs) h in
      ap (λ f'. same_name f'.file_name name) (sym (same_value refl here)) ∙ other
  | inr i ↦
      named-Absent name xs (or_right (same_name g.file_name name) (named name xs) h) p f
        (sym (ap (λ t. if t then some g else at p xs) i) ∙ e)
]

at-named :
    (name : List ℕ) (p : Ptr) (f : FileData) (xs : Cells FileData)
    → at p xs ≡ some f
    → same_name f.file_name name ≡ true
    → named name xs ≡ true
at-named name p f xs e same = elim (Bool-cases (named name xs)) [
  | inl h ↦ h
  | inr h ↦
      let clash : true ≡ false = sym same ∙ named-Absent name xs h p f e in ground (arith, clash)
]

Absent-named :
    (name : List ℕ) (xs : Cells FileData) → Distinct xs → Absent name xs → named name xs ≡ false
Absent-named name [] d absent = refl
Absent-named name ((q, g) ∷ xs) d absent =
    let same : (q == q) ≡ true = ground arith in
    let head : same_name g.file_name name ≡ false = absent q g (rw same refl) in
    rw head (
      Absent-named name xs d.1 (λ p f e.
        let apart : (p == q) ≡ false = other_address q p f xs (at-none q xs d.0) e in
        absent p f (rw apart e)))

-- An eviction brings no name in.
pub named-evict :
    (name : List ℕ) (in_use : Ptr → ℕ) (amount evicted : ℕ) (xs : Items)
    → named name (files xs) ≡ false
    → named name (files (evict_list in_use amount evicted xs)) ≡ false
named-evict name in_use amount evicted [] h = refl
named-evict name in_use amount evicted ((n, (p, f)) ∷ xs) h =
    let head : same_name f.file_name name ≡ false =
      or_left (same_name f.file_name name) (named name (files xs)) h in
    let tail : named name (files xs) ≡ false =
      or_right (same_name f.file_name name) (named name (files xs)) h in
    let evicted' = (evicted + f.file_size) % 2 ^ 64 in
    elim (Bool-cases (ltb 0 (in_use p))) [
      | inl used ↦ rw (used, head) (named-evict name in_use amount evicted xs tail)
      | inr free ↦ elim (Bool-cases (leb amount evicted')) [
        | inl enough ↦ rw (free, enough) tail
        | inr more ↦ rw (free, more) (named-evict name in_use amount evicted' xs tail)
      ]
    ]

module _ (c : Cache) (items : Items) (buckets : Buckets) (is : IsCache c items buckets) where
  exists-run :
      (name : List ℕ) (p : Ptr) (b : Bool)
      → find_name name (buckets (key_of c.capacity name)) ≡ p
      → not (is_null p) ≡ b
      → cache_exists name c ≡ ok b c
  unfolding cache_exists
  exists-run name p b e h =
      rw (find_in_table-find_name c items buckets is name, e) (ap (λ a. ok a c) h)

  -- cache_exists tells whether a file in the cache has the name.
  pub cache_exists-named : (name : List ℕ) → cache_exists name c ≡ ok (named name (files items)) c
  cache_exists-named name =
      let key = key_of c.capacity name in
      let p = find_name name (buckets key) in
      elim (find_name-cases name (buckets key)) [
        | inl r ↦
            let e = Named-at name p (buckets key) r (Seg-Distinct (is.chains key)) in
            let points = Seg-at p r.file (buckets key) (is.chains key) e in
            let full =
              at-named name p r.file (files items) (is.agree.listed key p r.file e) r.same in
            exists-run name p (named name (files items)) refl
              (ap not (Points-not_null points.1) ∙ sym full)
        | inr r ↦ exists-run name null (named name (files items)) r.0 (
            sym (
              Absent-named name (files items) is.agree.once
                (bucket-Absent c.capacity items buckets is.agree name r.1)))
      ]

-- What cache_insert leaves of the list to make room.
abbrev pub room_list : (Ptr → ℕ) → ℕ → ℕ → Items → Items
room_list in_use max file_size items =
    if leb (total items + file_size) max
    then items
    else evict_list in_use (total items + file_size - max) 0 items

sub_ℕ-le : (a b : ℕ) → b ≤ a → sub_ℕ a b ≡ pos (a - b)
sub_ℕ-le a b le = let h : leb b a ≡ true = ground (arith, le) in rw h refl

small_amount :
    (a s max : ℕ)
    → a ≤ max
    → s ≤ max
    → max < 2 ^ 63
    → max < a + s
    → (s - (max - a)) % 2 ^ 64 ≡ a + s - max
small_amount a s max le le' lt more = omega (arith, le, le', lt, more)

pub amount_value :
    (z : ℤ) (a s max : ℕ)
    → z ≡ pos a
    → a ≤ max
    → s ≤ max
    → max < 2 ^ 63
    → leb (a + s) max ≡ false
    → unsigned_long (sub_from s (sub_from max z)) ≡ a + s - max
amount_value z a s max e le le' lt h =
    let more : max < a + s = ground (arith, h) in
    let left : sub_from max z ≡ pos (max - a) = rw e (sub_ℕ-le max a le) in
    let need : sub_ℕ s (max - a) ≡ pos (s - (max - a)) =
      sub_ℕ-le s (max - a) (omega (arith, more, le)) in
    rw (left, need) (small_amount a s max le le' lt more)

pub above_value : (z : ℤ) (a s max : ℕ) → z ≡ pos a → above (add z s) max ≡ not (leb (a + s) max)
above_value z a s max e = rw e (ground arith)
