-- ===== src/Web/Cache/Grow.antt =====
-- webserver/server_thread.c: a new entry in the cache.
use ece344_operating_systems.Base.{
  ℕ, ◌+◌, ◌≤◌, ◌≡◌, refl, ◌∙◌, false, some, none, [], ◌∷◌, ◌++◌, arith, ==_sym,
}
use ece344_operating_systems.Base.Int.{ℤ, pos}
use ece344_operating_systems.Base.Store.{Ptr, null, write, write-other, is_null}
use ece344_operating_systems.Base.Chain.{has, has-ne}
use ece344_operating_systems.Base.Chain.At.{not_allocated}
use ece344_operating_systems.Web.Lru.Ends.{add_to_lru-Leaves}
use ece344_operating_systems.Web.Cache.{FileData, Cache, in_table, key_of, add}
use ece344_operating_systems.Web.Cache.Insert.{append_entry}
use ece344_operating_systems.Web.Cache.Bucket.{Entries, entry_of, last_loop-end}
use ece344_operating_systems.Web.Cache.Append.{Links, set_link-Links}
use ece344_operating_systems.Web.Cache.Names.{Absent}
use ece344_operating_systems.Web.Cache.Lookup.{bucket_fuel}
use ece344_operating_systems.Web.Cache.Evict.{Keeps}
use ece344_operating_systems.Web.Cache.Without.{with_bucket, with_bucket-chains}
use ece344_operating_systems.Web.Cache.With.{Agree-inserted}
use ece344_operating_systems.Web.Cache.Valid.{Items, Buckets, files, total, IsCache, total-append}

-- What `malloc` returns for an entry and a node: addresses that are not in use.
pub record Fresh (c : Cache) (entry node : Ptr) : Type 0 where
  pub some_entry : is_null entry ≡ false
  pub some_node : is_null node ≡ false
  pub no_entry : c.entries entry ≡ none
  pub no_node : c.lru.nodes node ≡ none

abbrev pub with_use : Cache → Ptr → ℕ → Cache
with_use c entry n = record c { in_use = write c.in_use entry n }

grown_total :
    (items : Items) (n p : Ptr) (f : FileData)
    → total (items ++ (n, (p, f)) ∷ []) ≡ total items + f.file_size
grown_total items n p f = omega (arith, total-append items ((n, (p, f)) ∷ []))

add_total : (z : ℤ) (a b s : ℕ) → z ≡ pos a → b ≡ a + s → add z s ≡ pos b
add_total z a b s e e' = rw (e, e') refl

module _ (c : Cache) (items : Items) (buckets : Buckets) (entry node : Ptr) (file : FileData)
    (is : IsCache c items buckets) (fresh : Fresh c entry node)
    (absent : Absent file.file_name (files items))
    (fits : total items + file.file_size ≤ c.max_cache_size) where
  abbrev key : ℕ
  key = key_of c.capacity file.file_name

  no_cell : (k : ℕ) → has entry (buckets k) ≡ false
  no_cell k = not_allocated entry (buckets k) (is.chains k) fresh.no_entry

  links : Links c key entry file (buckets key)
  links =
      set_link-Links c key entry file fresh.some_entry (buckets key) (is.chains key) (no_cell key)

  -- append_entry puts a new entry into the cache that nobody uses.
  pub append_entry-Keeps :
      Keeps
        (with_use c entry 0)
        (items ++ (node, (entry, file)) ∷ [])
        tt
        (append_entry entry node file c)
  unfolding append_entry
  append_entry-Keeps =
      let new = some (entry_of file null) in
      let l =
        add_to_lru-Leaves c.lru node (entry, file) fresh.some_node items is.lru
          (not_allocated node items is.lru.chain fresh.no_node) in
      let g : Entries = write links.linked entry new in
      record {
        table = links.table;
        entries = g;
        lru = l.final;
        size = add c.size file.file_size;
        buckets = with_bucket buckets key (buckets key ++ (entry, file) ∷ []);
        run =
            rw
              (
                last_loop-end c (c.lru.list.size + 1) (in_table key) (c.table key) (buckets key)
                    (is.chains key) (bucket_fuel c items buckets is key),
                links.run,
                fresh.some_entry,
                l.run,
              )
              refl;
        valid = record {
          lru = l.valid;
          chains =
              with_bucket-chains buckets c.entries g c.table links.table key
                (buckets key ++ (entry, file) ∷ []) is.agree is.chains links.bucket links.others
                (λ k a i o.
                  write-other links.linked entry new a
                    (==_sym entry a (has-ne a entry (buckets k) i (no_cell k)))
                  ∙ links.outside a o);
          agree = Agree-inserted items buckets node entry file is.agree no_cell absent;
          size =
              add_total c.size (total items) (total (items ++ (node, (entry, file)) ∷ []))
                file.file_size is.size (grown_total items node entry file);
          room = rw (grown_total items node entry file) fits;
          max = is.max;
        };
      }
