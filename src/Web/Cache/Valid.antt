-- ===== src/Web/Cache/Valid.antt =====
-- webserver/server_thread.c: when the hash table and the LRU list of a cache agree.
use ece344_operating_systems.Base.{
  ℕ, suc, ◌+◌, ◌≤◌, ◌<◌, ◌^◌, ◌≡◌, refl, sym, ap, ◌∙◌, false, true, some, [], ◌∷◌, ◌++◌, arith,
  ◌==◌, length, Bool-cases, inl, inr,
}
use ece344_operating_systems.Base.Int.{pos}
use ece344_operating_systems.Base.Store.{Ptr}
use ece344_operating_systems.Base.Chain.{Cells, has, Seg}
use ece344_operating_systems.Base.Chain.At.{at, same_value, Distinct, at-has, has-at}
use ece344_operating_systems.Base.Chain.Length.{Distinct-length}
use ece344_operating_systems.Web.Lru.Ends.{IsLru}
use ece344_operating_systems.Web.Cache.{FileData, Cache, same_name, key_of}
use ece344_operating_systems.Web.Cache.Bucket.{entry_of}

-- The LRU list: the address of each node, with the entry and its file.
abbrev pub Items : Type 0
Items = Cells (Ptr × FileData)

abbrev pub Buckets : Type 0
Buckets = ℕ → Cells FileData

-- The entries of the list and their files, the least recently used one first.
abbrev pub files : Items → Cells FileData
files [] = []
files ((_, x) ∷ xs) = x ∷ files xs

abbrev pub total : Items → ℕ
total [] = 0
total ((_, (_, f)) ∷ xs) = f.file_size + total xs

-- The LRU list and the buckets have the same entries, each of them once and in the bucket of its
-- name's hash, and no two of them have one name.
pub record Agree (capacity : ℕ) (items : Items) (buckets : Buckets) : Type 0 where
  pub homes :
      (k : ℕ) (p : Ptr) (f : FileData) → at p (buckets k) ≡ some f → k ≡ key_of capacity f.file_name
  pub listed :
      (k : ℕ) (p : Ptr) (f : FileData) → at p (buckets k) ≡ some f → at p (files items) ≡ some f
  pub stored :
      (p : Ptr) (f : FileData)
      → at p (files items) ≡ some f
      → at p (buckets (key_of capacity f.file_name)) ≡ some f
  pub once : Distinct (files items)
  pub names :
      (p q : Ptr) (f g : FileData)
      → at p (files items) ≡ some f
      → at q (files items) ≡ some g
      → same_name f.file_name g.file_name ≡ true
      → p ≡ q

-- The size is the sum of the files' sizes and at most the maximum, which is a `long`.
pub record IsCache (c : Cache) (items : Items) (buckets : Buckets) : Type 0 where
  pub lru : IsLru c.lru items
  pub chains : (k : ℕ) → Seg entry_of c.entries (c.table k) (buckets k)
  pub agree : Agree c.capacity items buckets
  pub size : c.size ≡ pos (total items)
  pub room : total items ≤ c.max_cache_size
  pub max : c.max_cache_size < 2 ^ 63

pub length-files : (xs : Items) → length (files xs) ≡ length xs
length-files [] = refl
length-files (x ∷ xs) = ap suc (length-files xs)

pub files-append : (xs ys : Items) → files (xs ++ ys) ≡ files xs ++ files ys
files-append [] ys = refl
files-append ((n, x) ∷ xs) ys = ap (λ zs. x ∷ zs) (files-append xs ys)

pub total-append : (xs ys : Items) → total (xs ++ ys) ≡ total xs + total ys
total-append [] ys = omega arith
total-append ((n, (p, f)) ∷ xs) ys = omega (arith, total-append xs ys)

module _ {capacity : ℕ} {items : Items} {buckets : Buckets}
    (is : Agree capacity items buckets) where
  pub bucket-listed : (k : ℕ) (p : Ptr) → has p (buckets k) ≡ true → has p (files items) ≡ true
  bucket-listed k p h =
      let b = has-at p (buckets k) h in at-has p (b.0) (files items) (is.listed k p (b.0) b.1)

  -- A bucket is no longer than the LRU list.
  pub bucket-length : (k : ℕ) → Distinct (buckets k) → length (buckets k) ≤ length items
  bucket-length k d =
      let le = Distinct-length (buckets k) (files items) d (bucket-listed k) in
      omega (arith, le, length-files items)

  -- An entry stands in one bucket.
  pub one_bucket :
      (k l : ℕ) (p : Ptr) → (l == k) ≡ false → has p (buckets k) ≡ true → has p (buckets l) ≡ false
  one_bucket k l p apart h = elim (Bool-cases (has p (buckets l))) [
    | inr o ↦ o
    | inl i ↦
        let a = has-at p (buckets k) h in
        let b = has-at p (buckets l) i in
        let same : a.0 ≡ b.0 = same_value (is.listed k p (a.0) a.1) (is.listed l p (b.0) b.1) in
        let keys : l ≡ k =
          is.homes l p (b.0) b.1
          ∙ sym (ap (λ f. key_of capacity f.file_name) same)
          ∙ sym (is.homes k p (a.0) a.1) in
        ground (arith, keys, apart)
  ]

-- The file of an entry is found where another list finds it.
pub Agree-moved :
    {capacity : ℕ} {items : Items} {buckets : Buckets} (items' : Items)
    → Agree capacity items buckets
    → ((p : Ptr) → at p (files items') ≡ at p (files items))
    → Distinct (files items')
    → Agree capacity items' buckets
Agree-moved items' is same once = record {
  homes = is.homes;
  listed = λ k p f e. same p ∙ is.listed k p f e;
  stored = λ p f e. is.stored p f (sym (same p) ∙ e);
  once = once;
  names = λ p q f g e e'. is.names p q f g (sym (same p) ∙ e) (sym (same q) ∙ e');
}
