-- ===== src/Web/Cache/Append.antt =====
-- webserver/server_thread.c: a new entry at the end of its bucket.
use ece344_operating_systems.Base.{ℕ, ◌≡◌, refl, false, some, [], ◌∷◌, ◌++◌, arith, ◌==◌, ==_sym}
use ece344_operating_systems.Base.Run.{ok}
use ece344_operating_systems.Base.Store.{Ptr, null, write, write-same, write_comm, is_null}
use ece344_operating_systems.Base.Chain.{
  Cells, has, Points, Seg, nil, cons, last_of, EndsAt-last_of, frame, frame-write, has-EndsWith,
  has-ne, EndsWith-Last, snoc-Seg,
}
use ece344_operating_systems.Web.Cache.{FileData, Cache, in_table, set_link}
use ece344_operating_systems.Web.Cache.Bucket.{Entries, entry_of, place_behind, set_link-Points}
use ece344_operating_systems.Web.Cache.Unlink.{with_table, place_behind-last}

-- The link to a new entry behind the cells `xs` of a bucket, and the bucket with the entry.
pub record Links (c : Cache) (key : ℕ) (entry : Ptr) (file : FileData) (xs : Cells FileData)
    : Type 0 where
  pub table : ℕ → Ptr
  pub linked : Entries
  pub run :
      set_link (place_behind (in_table key) xs) entry c ≡ ok tt (with_table c table linked c.size)
  pub bucket :
      Seg entry_of
        (write linked entry (some (entry_of file null)))
        (table key)
        (xs ++ (entry, file) ∷ [])
  pub others : (k : ℕ) → (k == key) ≡ false → table k ≡ c.table k
  pub outside : (a : Ptr) → has a xs ≡ false → linked a ≡ c.entries a

module _ (c : Cache) (key : ℕ) (entry : Ptr) (file : FileData)
    (some_entry : is_null entry ≡ false) where
  new-Points :
      (f : Entries) → Points entry_of (write f entry (some (entry_of file null))) entry file null
  new-Points f = record {
    ne_null = ground (arith, some_entry);
    holds = write-same f entry (some (entry_of file null));
  }

  pub set_link-Links :
      (xs : Cells FileData)
      → Seg entry_of c.entries (c.table key) xs
      → has entry xs ≡ false
      → Links c key entry file xs
  unfolding set_link
  set_link-Links [] s out = record {
    table = write c.table key entry;
    linked = c.entries;
    run = refl;
    bucket = rw (write-same c.table key entry) (cons (new-Points c.entries) refl nil);
    others = λ k apart. rw apart refl;
    outside = λ a o. refl;
  }
  set_link-Links ((q, g) ∷ xs) s out =
      let prev = last_of null ((q, g) ∷ xs) in
      let l = EndsWith-Last (q, g) xs prev s (EndsAt-last_of null (q, g) xs) in
      let inside = has-EndsWith (q, g) xs prev l.item l.ends in
      let apart : (prev == entry) ≡ false =
        ==_sym entry prev (has-ne prev entry ((q, g) ∷ xs) inside out) in
      let link = some (entry_of l.item entry) in
      let new = some (entry_of file null) in
      let chain =
        snoc-Seg (q, g) xs prev l.item entry file (frame-write entry new s out) l.ends
          (new-Points c.entries) out in
      record {
        table = c.table;
        linked = write c.entries prev link;
        run = rw (place_behind-last (in_table key) q g xs, set_link-Points c l.points entry) refl;
        bucket =
            frame (write (write c.entries prev link) entry new) chain
              (λ a i. write_comm c.entries prev entry link new apart a);
        others = λ k apart'. refl;
        outside =
            λ a o. let h : (a == prev) ≡ false = has-ne prev a ((q, g) ∷ xs) inside o in rw h refl;
      }
