-- ===== src/Web/Cache/Bucket.antt =====
-- webserver/server_thread.c: the loops over the entries of a bucket.
use ece344_operating_systems.Base.{
  ℕ, zero, suc, ◌<◌, ◌≡◌, refl, true, false, Option, some, List, [], ◌∷◌, ◌++◌, arith, ◌==◌,
  if◌then◌else◌, length, Bool-cases, inl, inr,
}
use ece344_operating_systems.Base.Run.{ok}
use ece344_operating_systems.Base.Store.{Ptr, null, write, is_null}
use ece344_operating_systems.Base.Chain.{
  Cells, has, Points, Seg, cons, null_of_nil, Points-not_null, not_in_tail,
}
use ece344_operating_systems.Web.Cache.{
  FileData, CacheEntry, Cache, Place, in_entry, same_name, entry_at, lookup_loop, set_link,
  target_loop,
}
use ece344_operating_systems.Web.Cache.Insert.{last_loop}

abbrev pub Entries : Type 0
Entries = Ptr → Option CacheEntry

abbrev pub entry_of : FileData → Ptr → CacheEntry
entry_of file next = record { file = file; next = next }

-- The place behind the entries `xs`, which follow a place.
abbrev pub place_behind : Place → Cells FileData → Place
place_behind place [] = place
place_behind place ((p, _) ∷ xs) = place_behind (in_entry p) xs

-- The first entry with the name, or NULL.
abbrev pub find_name : List ℕ → Cells FileData → Ptr
find_name name [] = null
find_name name ((p, f) ∷ xs) =
    let rest = find_name name xs in if same_name f.file_name name then p else rest

abbrev pub with_entries : Cache → Entries → Cache
with_entries c f = record c { entries = f }

module _ (c : Cache) {p next : Ptr} {f : FileData} (e : Points entry_of c.entries p f next) where
  pub entry_at-Points : entry_at p c ≡ ok (entry_of f next) c
  unfolding entry_at
  entry_at-Points = rw (Points-not_null e, e.holds) refl

  pub set_link-Points :
      (r : Ptr)
      → set_link (in_entry p) r c ≡ ok tt (with_entries c (write c.entries p (some (entry_of f r))))
  unfolding set_link
  set_link-Points r = rw entry_at-Points refl

module _ (c : Cache) where
  pub lookup_loop-find_name :
      (fuel : ℕ) (next : Ptr) (name : List ℕ) (xs : Cells FileData)
      → Seg entry_of c.entries next xs
      → length xs < fuel
      → lookup_loop fuel next name c ≡ ok (find_name name xs) c
  unfolding lookup_loop
  lookup_loop-find_name zero next name xs s lt = ground arith
  lookup_loop-find_name (suc fuel) next name [] s lt =
      let h : is_null next ≡ true = ground (arith, null_of_nil s) in rw h refl
  lookup_loop-find_name (suc fuel) next name ((p, f) ∷ xs) (cons {next = n} e out s) lt =
      elim (Bool-cases (same_name f.file_name name)) [
        | inl h ↦ rw (Points-not_null e, entry_at-Points c e, h) refl
        | inr h ↦
            rw (Points-not_null e, entry_at-Points c e, h)
              (lookup_loop-find_name fuel n name xs s (omega (arith, lt)))
      ]

  pub target_loop-hit :
      (fuel : ℕ) (prev : Place) (next : Ptr) (xs : Cells FileData) (p : Ptr) (f : FileData)
      (ys : Cells FileData)
      → Seg entry_of c.entries next (xs ++ (p, f) ∷ ys)
      → has p xs ≡ false
      → length xs < fuel
      → target_loop fuel prev next p c ≡ ok (some (place_behind prev xs)) c
  unfolding target_loop
  target_loop-hit zero prev next xs p f ys s out lt = elim lt [ ]
  target_loop-hit (suc fuel) prev next [] p f ys (cons e o s) out lt =
      let h : (p == p) ≡ true = ground arith in rw (Points-not_null e, h) refl
  target_loop-hit (suc fuel) prev next ((q, g) ∷ xs) p f ys (cons {next = n} e o s) out lt =
      let h : (q == p) ≡ false = ground (arith, out) in
      rw (Points-not_null e, h, entry_at-Points c e)
        (target_loop-hit fuel (in_entry q) n xs p f ys s (not_in_tail p (q, g) xs out)
          (omega (arith, lt)))

  pub last_loop-end :
      (fuel : ℕ) (prev : Place) (next : Ptr) (xs : Cells FileData)
      → Seg entry_of c.entries next xs
      → length xs < fuel
      → last_loop fuel prev next c ≡ ok (place_behind prev xs) c
  unfolding last_loop
  last_loop-end zero prev next xs s lt = ground arith
  last_loop-end (suc fuel) prev next [] s lt =
      let h : is_null next ≡ true = ground (arith, null_of_nil s) in rw h refl
  last_loop-end (suc fuel) prev next ((p, f) ∷ xs) (cons {next = n} e out s) lt =
      rw (Points-not_null e, entry_at-Points c e)
        (last_loop-end fuel (in_entry p) n xs s (omega (arith, lt)))
