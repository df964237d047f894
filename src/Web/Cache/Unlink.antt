-- ===== src/Web/Cache/Unlink.antt =====
-- webserver/server_thread.c: taking an entry out of its bucket.
use ece344_operating_systems.Base.{ℕ, ◌≡◌, refl, false, none, some, [], ◌∷◌, ◌++◌, arith, ◌==◌}
use ece344_operating_systems.Base.Int.{ℤ}
use ece344_operating_systems.Base.Run.{Run, ok}
use ece344_operating_systems.Base.Store.{Ptr, null, write, write-same, write-other}
use ece344_operating_systems.Base.Chain.{
  Cells, has, Points, Seg, last_of, EndsAt-last_of, frame-write, has-ne, not_in_front, not_in_back,
}
use ece344_operating_systems.Base.Chain.Unlink.{head_of, open-Seg, unlink-Seg}
use ece344_operating_systems.Web.Cache.{
  FileData, Cache, Place, in_table, in_entry, set_link, unlink_entry, sub,
}
use ece344_operating_systems.Web.Cache.Bucket.{
  Entries, entry_of, place_behind, with_entries, entry_at-Points, set_link-Points,
}

abbrev pub with_table : Cache → (ℕ → Ptr) → Entries → ℤ → Cache
with_table c table f size = record c { table = table; entries = f; size = size }

-- A run that leaves the bucket `key` with the cells `ys`, in place of `xs`, and the size `size`.
pub record Relinks (c : Cache) (key : ℕ) (size : ℤ) (xs ys : Cells FileData)
    (r : Run Cache (Unit {0})) : Type 0 where
  pub table : ℕ → Ptr
  pub entries : Entries
  pub run : r ≡ ok tt (with_table c table entries size)
  pub bucket : Seg entry_of entries (table key) ys
  pub others : (k : ℕ) → (k == key) ≡ false → table k ≡ c.table k
  pub outside : (a : Ptr) → has a xs ≡ false → has a ys ≡ false → entries a ≡ c.entries a

pub place_behind-last :
    (place : Place) (p : Ptr) (f : FileData) (xs : Cells FileData)
    → place_behind place ((p, f) ∷ xs) ≡ in_entry (last_of p xs)
place_behind-last place p f [] = refl
place_behind-last place p f ((q, g) ∷ xs) = place_behind-last (in_entry p) q g xs

not_head_at :
    (a p : Ptr) (f : FileData) (ys : Cells FileData)
    → has a ((p, f) ∷ ys) ≡ false
    → (a == p) ≡ false
not_head_at a p f ys o = ground (arith, o)

module _ (c : Cache) (key : ℕ) (p : Ptr) (f : FileData) (ys : Cells FileData) where
  -- Behind the dummy head.
  unlink-first :
      Seg entry_of c.entries (c.table key) ((p, f) ∷ ys)
      → Relinks c key
          (sub c.size f.file_size)
          ((p, f) ∷ ys)
          ys
          (unlink_entry (some (in_table key)) p c)
  unfolding unlink_entry set_link
  unlink-first s =
      let a = open-Seg p f ys s in
      let table : ℕ → Ptr = write c.table key (head_of ys) in
      let f₁ : Entries = write c.entries p (some (entry_of f null)) in
      record {
        table = table;
        entries = write f₁ p none;
        run =
            rw (entry_at-Points c a.points, entry_at-Points (record c { table = table }) a.points)
              refl;
        bucket =
            rw (write-same c.table key (head_of ys))
              (frame-write p none (frame-write p (some (entry_of f null)) a.rest a.out) a.out);
        others = λ k apart. write-other c.table key (head_of ys) k apart;
        outside = λ a o o'. let h : (a == p) ≡ false = not_head_at a p f ys o in rw h refl;
      }

  unlink-behind :
      (z : Ptr × FileData) (xs : Cells FileData)
      → Seg entry_of c.entries (c.table key) ((z ∷ xs) ++ (p, f) ∷ ys)
      → Relinks c key
          (sub c.size f.file_size)
          ((z ∷ xs) ++ (p, f) ∷ ys)
          ((z ∷ xs) ++ ys)
          (unlink_entry (some (place_behind (in_table key) (z ∷ xs))) p c)
  unfolding unlink_entry
  unlink-behind (q, g) xs s =
      let prev = last_of null ((q, g) ∷ xs) in
      let u = unlink-Seg (q, g) xs prev p f ys s (EndsAt-last_of null (q, g) xs) in
      let apart : (p == prev) ≡ false =
        has-ne prev p ((q, g) ∷ xs) u.inside (not_in_front p ((q, g) ∷ xs) ys u.out) in
      let f₁ : Entries = write c.entries prev (some (entry_of u.item (head_of ys))) in
      let f₂ : Entries = write f₁ p (some (entry_of f null)) in
      let points₁ : Points entry_of f₁ p f (head_of ys) = record {
        ne_null = u.points.ne_null;
        holds = rw apart u.points.holds;
      } in
      record {
        table = c.table;
        entries = write f₂ p none;
        run =
            rw
              (
                place_behind-last (in_table key) q g xs,
                entry_at-Points c u.points,
                set_link-Points c u.before (head_of ys),
                set_link-Points (with_entries c f₁) points₁ null,
              )
              refl;
        bucket = frame-write p none (frame-write p (some (entry_of f null)) u.chain u.out) u.out;
        others = λ k apart'. refl;
        outside = λ a o o'.
            let h : (a == p) ≡ false =
              not_head_at a p f ys (not_in_back a ((q, g) ∷ xs) ((p, f) ∷ ys) o) in
            let h' : (a == prev) ≡ false =
              has-ne prev a ((q, g) ∷ xs) u.inside (not_in_front a ((q, g) ∷ xs) ys o') in
            rw (h, h') refl;
      }

  -- unlink_entry takes out an entry, given with the place before it, and its size.
  pub unlink_entry-Relinks :
      (xs : Cells FileData)
      → Seg entry_of c.entries (c.table key) (xs ++ (p, f) ∷ ys)
      → Relinks c key
          (sub c.size f.file_size)
          (xs ++ (p, f) ∷ ys)
          (xs ++ ys)
          (unlink_entry (some (place_behind (in_table key) xs)) p c)
  unlink_entry-Relinks [] s = unlink-first s
  unlink_entry-Relinks (z ∷ xs) s = unlink-behind z xs s
