-- ===== src/Web/Cache/Evict.antt =====
-- webserver/server_thread.c: an entry that no worker uses leaves the cache.
use mathlib.Core.Path.{subst}
use ece344_operating_systems.Base.{
  ℕ, ◌+◌, ◌<◌, ◌≤◌, ◌≡◌, refl, sym, ap, ◌∙◌, false, ◌∷◌, ◌++◌, arith, ◌==◌, length, length-append,
}
use ece344_operating_systems.Base.Int.{ℤ, pos}
use ece344_operating_systems.Base.Run.{Run, ok}
use ece344_operating_systems.Base.Store.{Ptr, null}
use ece344_operating_systems.Base.Chain.{Cells, has, Points, Seg, not_in_front, middle-Seg, last_of}
use ece344_operating_systems.Base.Chain.Unlink.{head_of, apart-Seg}
use ece344_operating_systems.Base.Chain.At.{
  Split, at-Split, Distinct, Distinct-without, Seg-Distinct, Seg-at, not_without,
}
use ece344_operating_systems.Web.Lru.{Lru}
use ece344_operating_systems.Web.Lru.Remove.{remove_node_from_lru-Leaves}
use ece344_operating_systems.Web.Cache.{FileData, Cache, in_table, key_of, sub, remove_from_cache}
use ece344_operating_systems.Web.Cache.Insert.{evict_one}
use ece344_operating_systems.Web.Cache.Bucket.{Entries, entry_of, entry_at-Points, target_loop-hit}
use ece344_operating_systems.Web.Cache.Unlink.{Relinks, unlink_entry-Relinks}
use ece344_operating_systems.Web.Cache.Items.{item-here}
use ece344_operating_systems.Web.Cache.Without.{
  with_bucket, with_bucket-same, with_bucket-chains, Agree-evicted,
}
use ece344_operating_systems.Web.Cache.Valid.{
  Items, Buckets, total, Agree, IsCache, total-append, bucket-length,
}

module _ (c : Cache) (p : Ptr) (f : FileData) (us vs : Cells FileData) where
  -- remove_from_cache takes an entry out of the bucket of its name.
  pub remove_from_cache-Relinks :
      Seg entry_of c.entries (c.table (key_of c.capacity f.file_name)) (us ++ (p, f) ∷ vs)
      → length us < c.lru.list.size + 1
      → Relinks c
          (key_of c.capacity f.file_name)
          (sub c.size f.file_size)
          (us ++ (p, f) ∷ vs)
          (us ++ vs)
          (remove_from_cache p c)
  unfolding remove_from_cache
  remove_from_cache-Relinks s lt =
      let key = key_of c.capacity f.file_name in
      let m = middle-Seg us p f vs s in
      let out = apart-Seg us p f vs s in
      let r = unlink_entry-Relinks c key p f vs us s in
      record {
        table = r.table;
        entries = r.entries;
        run =
            rw
              (
                entry_at-Points c m.1,
                target_loop-hit c (c.lru.list.size + 1) (in_table key) (c.table key) us p f vs s
                    (not_in_front p us vs out) lt,
                r.run,
              )
              refl;
        bucket = r.bucket;
        others = r.others;
        outside = r.outside;
      }

-- The cache with another table, other entries, another LRU list and another size.
abbrev pub with_parts : Cache → (ℕ → Ptr) → Entries → Lru → ℤ → Cache
with_parts c table entries lru size = record c {
  table = table;
  entries = entries;
  lru = lru;
  size = size;
}

-- A run with the answer `a` that leaves the items `items`.
pub record Keeps {A : Type 0} (c : Cache) (items : Items) (a : A) (r : Run Cache A) : Type 0 where
  pub table : ℕ → Ptr
  pub entries : Entries
  pub lru : Lru
  pub size : ℤ
  pub buckets : Buckets
  pub run : r ≡ ok a (with_parts c table entries lru size)
  pub valid : IsCache (with_parts c table entries lru size) items buckets

less_than :
    (us vs : Cells FileData) (size k : ℕ) → size ≡ k → length (us ++ vs) ≤ k → length us < size + 1
less_than us vs size k e le = omega (arith, e, le, length-append {0} us vs)

less_total :
    (xs ys : Items) (n p : Ptr) (f : FileData)
    → total (xs ++ (n, (p, f)) ∷ ys) ≡ total (xs ++ ys) + f.file_size
less_total xs ys n p f = omega (arith, total-append xs ((n, (p, f)) ∷ ys), total-append xs ys)

le_left : (a b m s : ℕ) → a ≤ m → a ≡ b + s → b ≤ m
le_left a b m s le e = omega (arith, le, e)

sub_total : (z : ℤ) (s left : ℕ) → z ≡ pos (left + s) → sub z s ≡ pos left
sub_total z s left e = rw e (ground arith)

pub Keeps-by :
    {A : Type 0} {c : Cache} {items items' : Items} {a a' : A} {r r' : Run Cache A}
    → Keeps c items a r
    → items' ≡ items
    → a' ≡ a
    → r' ≡ r
    → Keeps c items' a' r'
Keeps-by {c} k same same_answer same_run =
    let final = with_parts c k.table k.entries k.lru k.size in
    record {
      table = k.table;
      entries = k.entries;
      lru = k.lru;
      size = k.size;
      buckets = k.buckets;
      run = same_run ∙ k.run ∙ ap (λ b. ok b final) (sym same_answer);
      valid = subst (λ zs. IsCache final zs k.buckets) (sym same) k.valid;
    }

module _ (c : Cache) (buckets : Buckets) (xs ys : Items) (n p : Ptr) (f : FileData)
    (is : IsCache c (xs ++ (n, (p, f)) ∷ ys) buckets) where
  abbrev key : ℕ
  key = key_of c.capacity f.file_name

  pub evict-Points : (after : Ptr) × Points entry_of c.entries p f after
  evict-Points =
      Seg-at p f (buckets key) (is.chains key)
        (is.agree.stored p f (item-here xs ys n p f is.agree))

  evict_parts : Split p f (buckets key)
  evict_parts = at-Split p f (buckets key) (is.agree.stored p f (item-here xs ys n p f is.agree))

  module _ (us vs : Cells FileData) (parts : buckets key ≡ us ++ (p, f) ∷ vs) where
    bucket-Seg : Seg entry_of c.entries (c.table key) (us ++ (p, f) ∷ vs)
    bucket-Seg = subst (λ zs. Seg entry_of c.entries (c.table key) zs) parts (is.chains key)

    agree : Agree c.capacity (xs ++ ys) (with_bucket buckets key (us ++ vs))
    agree = Agree-evicted buckets xs ys n p f us vs is.agree parts (Seg-Distinct bucket-Seg)

    left_fuel : (size : ℕ) → size ≡ length (xs ++ ys) → length us < size + 1
    left_fuel size count =
        let d = Distinct-without us p f vs (Seg-Distinct bucket-Seg) in
        let same = with_bucket-same buckets key (us ++ vs) in
        let le = bucket-length agree key (subst Distinct (sym same) d.0) in
        less_than us vs size (length (xs ++ ys)) count
          (subst (λ zs. length zs ≤ length (xs ++ ys)) same le)

    left_chains :
        (table : ℕ → Ptr) (g : Entries)
        → Seg entry_of g (table key) (us ++ vs)
        → ((k : ℕ) → (k == key) ≡ false → table k ≡ c.table k)
        → ((a : Ptr)
            → has a (us ++ (p, f) ∷ vs) ≡ false
            → has a (us ++ vs) ≡ false
            → g a ≡ c.entries a)
        → (k : ℕ) → Seg entry_of g (table k) (with_bucket buckets key (us ++ vs) k)
    left_chains table g bucket others outside =
        with_bucket-chains buckets c.entries g c.table table key (us ++ vs) is.agree is.chains
          bucket others
          (λ k a i o.
            let o' : has a (us ++ (p, f) ∷ vs) ≡ false = sym (ap (λ zs. has a zs) parts) ∙ o in
            outside a o' (not_without a us p f vs o'))

    evict_cells : Keeps c (xs ++ ys) (head_of ys) (evict_one p n (last_of null xs) c)
    unfolding evict_one
    evict_cells =
        let l = remove_node_from_lru-Leaves c.lru n (p, f) xs ys is.lru in
        let r =
          remove_from_cache-Relinks (record c { lru = l.final }) p f us vs bucket-Seg
            (left_fuel l.final.list.size l.valid.count) in
        let total_left = less_total xs ys n p f in
        record {
          table = r.table;
          entries = r.entries;
          lru = l.final;
          size = sub c.size f.file_size;
          buckets = with_bucket buckets key (us ++ vs);
          run = rw (l.run, r.run) refl;
          valid = record {
            lru = l.valid;
            chains = left_chains r.table r.entries r.bucket r.others r.outside;
            agree = agree;
            size = sub_total c.size f.file_size (total (xs ++ ys)) (is.size ∙ ap pos total_left);
            room =
                le_left (total (xs ++ (n, (p, f)) ∷ ys)) (total (xs ++ ys)) c.max_cache_size
                  f.file_size is.room total_left;
            max = is.max;
          };
        }

  -- An entry leaves both structures, and the rest stays as it is.
  pub evict_one-Keeps : Keeps c (xs ++ ys) (head_of ys) (evict_one p n (last_of null xs) c)
  evict_one-Keeps = evict_cells evict_parts.front evict_parts.back evict_parts.parts
