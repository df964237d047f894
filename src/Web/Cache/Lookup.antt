-- ===== src/Web/Cache/Lookup.antt =====
-- webserver/server_thread.c: cache_lookup and cache_exists.
use mathlib.Core.Path.{subst}
use ece344_operating_systems.Base.Int.{pos}
use ece344_operating_systems.Base.{
  ℕ, ◌+◌, ◌<◌, ◌≡◌, refl, sym, ap, ◌∙◌, true, false, some, List, [], ◌∷◌, ◌++◌, arith,
  if◌then◌else◌, length, Bool-cases, ◌⊎◌, inl, inr,
}
use ece344_operating_systems.Base.Run.{Run, ok, pure}
use ece344_operating_systems.Base.Store.{Ptr, null, write, is_null}
use ece344_operating_systems.Base.Chain.{Points-not_null, not_in_front}
use ece344_operating_systems.Base.Chain.At.{at, Seg-Distinct, Seg-at}
use ece344_operating_systems.Web.Lru.{Lru}
use ece344_operating_systems.Web.Lru.Ends.{IsLru}
use ece344_operating_systems.Web.Lru.Move.{move_node_to_end-Leaves}
use ece344_operating_systems.Web.Cache.{
  FileData, Cache, same_name, key_of, find_in_table, use_entry, cache_lookup,
}
use ece344_operating_systems.Web.Cache.Bucket.{find_name, entry_at-Points, lookup_loop-find_name}
use ece344_operating_systems.Web.Cache.Names.{same_name_sound, Absent, Named-at, find_name-cases}
use ece344_operating_systems.Web.Cache.Items.{
  Item, at-Item, NoEntry-files, item-Distinct, Agree-used, total-used,
}
use ece344_operating_systems.Web.Cache.Valid.{
  Items, Buckets, files, total, Agree, IsCache, bucket-length,
}

module _ (c : Cache) (items : Items) (buckets : Buckets) (is : IsCache c items buckets) where
  pub bucket_fuel : (k : ℕ) → length (buckets k) < c.lru.list.size + 1
  bucket_fuel k =
      let le = bucket-length is.agree k (Seg-Distinct (is.chains k)) in
      omega (arith, le, is.lru.count)

  pub find_in_table-find_name :
      (name : List ℕ)
      → find_in_table name c ≡ ok (find_name name (buckets (key_of c.capacity name))) c
  unfolding find_in_table
  find_in_table-find_name name =
      lookup_loop-find_name c (c.lru.list.size + 1) (c.table (key_of c.capacity name)) name
        (buckets (key_of c.capacity name)) (is.chains (key_of c.capacity name))
        (bucket_fuel (key_of c.capacity name))

-- A lookup that finds the entry `p`: it is in use once more, and stands at the end of the list.
pub record Hit (c : Cache) (name : List ℕ) (items : Items) (buckets : Buckets) (r : Run Cache Ptr)
    : Type 0 where
  pub entry : Ptr
  pub file : FileData
  pub item : Item items entry file
  pub same : same_name file.file_name name ≡ true
  pub not_null : is_null entry ≡ false
  pub lru : Lru
  pub run :
      r ≡ ok entry (record c { in_use = write c.in_use entry (c.in_use entry + 1); lru = lru })
  pub valid :
      IsCache
        (record c { in_use = write c.in_use entry (c.in_use entry + 1); lru = lru })
        ((item.front ++ item.back) ++ (item.node, (entry, file)) ∷ [])
        buckets

-- A lookup that finds nothing, since no file in the cache has the name.
pub record Miss (c : Cache) (name : List ℕ) (items : Items) (r : Run Cache Ptr) : Type 0 where
  pub run : r ≡ ok null c
  pub absent : Absent name (files items)

module _ (capacity : ℕ) (items : Items) (buckets : Buckets) (is : Agree capacity items buckets)
    (name : List ℕ) where
  -- A name that its bucket does not have is nowhere.
  pub bucket-Absent : Absent name (buckets (key_of capacity name)) → Absent name (files items)
  bucket-Absent absent p f e = elim (Bool-cases (same_name f.file_name name)) [
    | inr h ↦ h
    | inl h ↦
        let names : f.file_name ≡ name = same_name_sound f.file_name name h in
        absent p f
          (subst (λ m. at p (buckets (key_of capacity m)) ≡ some f) names (is.stored p f e))
  ]

module _ (c : Cache) (name : List ℕ) (items : Items) (buckets : Buckets)
    (is : IsCache c items buckets) where
  abbrev key : ℕ
  key = key_of c.capacity name

  -- An entry of the bucket is used.
  use_entry-Hit :
      (p : Ptr) (f : FileData)
      → at p (buckets key) ≡ some f
      → same_name f.file_name name ≡ true
      → cache_lookup name c ≡ use_entry p c
      → Hit c name items buckets (cache_lookup name c)
  unfolding use_entry
  use_entry-Hit p f e same found =
      let item = at-Item p f items (is.agree.listed key p f e) in
      let xs = item.front in
      let ys = item.back in
      let lru : IsLru c.lru (xs ++ (item.node, (p, f)) ∷ ys) =
        subst (λ zs. IsLru c.lru zs) item.parts is.lru in
      let agree : Agree c.capacity (xs ++ (item.node, (p, f)) ∷ ys) buckets =
        subst (λ zs. Agree c.capacity zs buckets) item.parts is.agree in
      let d = item-Distinct xs ys item.node p f agree.once in
      let l =
        move_node_to_end-Leaves c.lru item.node (p, f) xs ys lru
          (NoEntry-files p xs (not_in_front p (files xs) (files ys) d.1)) in
      let points = Seg-at p f (buckets key) (is.chains key) e in
      let same_total : total ((xs ++ ys) ++ (item.node, (p, f)) ∷ []) ≡ total items =
        total-used xs ys item.node p f ∙ ap total (sym item.parts) in
      record {
        entry = p;
        file = f;
        item = item;
        same = same;
        not_null = Points-not_null points.1;
        lru = l.final;
        run = found ∙ rw (entry_at-Points c points.1, l.run) refl;
        valid = record {
          lru = l.valid;
          chains = is.chains;
          agree = Agree-used xs ys item.node p f agree;
          size = is.size ∙ ap pos (sym same_total);
          room = rw same_total is.room;
          max = is.max;
        };
      }

  lookup-found :
      (p : Ptr)
      → find_in_table name c ≡ ok p c
      → is_null p ≡ false
      → cache_lookup name c ≡ use_entry p c
  unfolding cache_lookup
  lookup-found p found h = rw found (ap (λ b. (if b then pure null else use_entry p) c) h)

  lookup-null :
      (p : Ptr) → find_in_table name c ≡ ok p c → p ≡ null → cache_lookup name c ≡ ok null c
  unfolding cache_lookup
  lookup-null p found e = let h : is_null p ≡ true = ground (arith, e) in rw (found, h) refl

  -- cache_lookup on a cache in order returns. Either it answers an entry of the LRU list whose
  -- file has the name, counts one more use of it, moves it to the end of the list and keeps the
  -- cache in order; or no file in the cache has the name, and it answers NULL and changes nothing.
  pub cache_lookup-outcome :
      Hit c name items buckets (cache_lookup name c) ⊎ Miss c name items (cache_lookup name c)
  cache_lookup-outcome =
      let found = find_in_table-find_name c items buckets is name in
      let p = find_name name (buckets key) in
      elim (find_name-cases name (buckets key)) [
        | inl r ↦
            let e = Named-at name p (buckets key) r (Seg-Distinct (is.chains key)) in
            let points = Seg-at p r.file (buckets key) (is.chains key) e in
            inl (use_entry-Hit p r.file e r.same (lookup-found p found (Points-not_null points.1)))
        | inr r ↦ inr record {
          run = lookup-null p found r.0;
          absent = bucket-Absent c.capacity items buckets is.agree name r.1;
        }
      ]
