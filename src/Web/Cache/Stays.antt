-- ===== src/Web/Cache/Stays.antt =====
-- webserver/server_thread.c: cache_insert spares the entries that workers hold.
use mathlib.Core.Path.{subst}
use ece344_operating_systems.Base.{
  ℕ, ◌+◌, ◌-◌, ◌≤◌, ◌≡◌, refl, sym, ap, ◌∙◌, Bool, true, false, some, none, List, [], ◌∷◌, arith,
  ltb, leb, ◌==◌, ==_eq, Bool-cases, inl, inr,
}
use ece344_operating_systems.Base.Run.{ok, ok_state}
use ece344_operating_systems.Base.Store.{Ptr}
use ece344_operating_systems.Base.Chain.At.{at, at-append-left, Seg-at}
use ece344_operating_systems.Web.Cache.{FileData, Cache, key_of}
use ece344_operating_systems.Web.Cache.Insert.{cache_insert}
use ece344_operating_systems.Web.Cache.Evict.{with_parts}
use ece344_operating_systems.Web.Cache.Room.{named, room_list}
use ece344_operating_systems.Web.Cache.Inserts.{make_room-Keeps}
use ece344_operating_systems.Web.Cache.Answer.{
  FreshThen, small_le, insert_list, inserted_use, cache_insert-Keeps,
}
use ece344_operating_systems.Web.Cache.Spared.{evict_list-keeps}
use ece344_operating_systems.Web.Cache.Serve.{holders}
use ece344_operating_systems.Web.Cache.Held.{IsServing}
use ece344_operating_systems.Web.Cache.Valid.{Items, files, total, files-append}

module _ (in_use : Ptr → ℕ) (max : ℕ) (items : Items) (p : Ptr) (f : FileData)
    (used : ltb 0 (in_use p) ≡ true) (e : at p (files items) ≡ some f) where
  room_list-keeps : (file_size : ℕ) → at p (files (room_list in_use max file_size items)) ≡ some f
  room_list-keeps file_size = elim (Bool-cases (leb (total items + file_size) max)) [
    | inl fits ↦ rw fits e
    | inr full ↦
        rw full (evict_list-keeps in_use (total items + file_size - max) 0 p f items used e)
  ]

  -- An entry in use stays, with its file.
  pub insert_list-keeps :
      (entry node : Ptr) (file : FileData)
      → at p (files (insert_list in_use max entry node file items).1) ≡ some f
  insert_list-keeps entry node file =
      let kept = room_list in_use max file.file_size items in
      let stays = room_list-keeps file.file_size in
      elim (Bool-cases (named file.file_name (files items))) [
        | inl h ↦ rw h e
        | inr h ↦ elim (Bool-cases (ltb max file.file_size)) [
          | inl large ↦ rw (h, large) e
          | inr small ↦ elim (Bool-cases (leb (total kept + file.file_size) max)) [
            | inr full ↦ rw (h, small, full) stays
            | inl fits ↦
                rw (h, small, fits)
                  (ap (λ zs. at p zs) (files-append kept ((node, (entry, file)) ∷ []))
                    ∙ at-append-left p f (files kept) ((entry, file) ∷ []) stays)
          ]
        ]
      ]

false_clash : {X : Type 0} {b : Bool} → b ≡ true → b ≡ false → X
false_clash e e' = ground (arith, sym e ∙ e')

zero_of : (n : ℕ) → ltb 0 n ≡ false → n ≡ 0
zero_of n h = ground (arith, h)

module _ (c : Cache) (held : List Ptr) (is : IsServing (record { cache = c; held = held }))
    (entry node : Ptr) (file : FileData) (fresh : FreshThen c entry node file.file_size) where
  abbrev outcome : Bool × Items
  outcome = insert_list c.in_use c.max_cache_size entry node file is.items

  -- Nobody holds an entry at the address that `malloc` returns.
  unheld :
      file.file_size ≤ c.max_cache_size
      → leb
          (total (room_list c.in_use c.max_cache_size file.file_size is.items) + file.file_size)
          c.max_cache_size
        ≡ true
      → ltb 0 (holders entry held) ≡ false
  unheld small fits = elim (Bool-cases (ltb 0 (holders entry held))) [
    | inr h ↦ h
    | inl h ↦
        let r = make_room-Keeps c is.items is.buckets file.file_size is.valid small in
        let c' = with_parts c r.table r.entries r.lru r.size in
        let free = fresh c' (r.run ∙ ap (λ b. ok b c') fits) in
        let used = ap (λ n. ltb 0 n) (is.counts entry) ∙ h in
        let f = is.cached entry h in
        let stays =
          room_list-keeps c.in_use c.max_cache_size is.items entry (f.0) used f.1 file.file_size in
        let key = key_of c.capacity f.0.file_name in
        let points =
          Seg-at entry (f.0) (r.buckets key) (r.valid.chains key)
            (r.valid.agree.stored entry (f.0) stays) in
        let clash : none ≡ some _ = sym free.no_entry ∙ points.1.holds in ground (arith, clash)
  ]

  unheld_lem : outcome.0 ≡ true → ltb 0 (holders entry held) ≡ false
  unheld_lem stored =
      let max = c.max_cache_size in
      let kept = room_list c.in_use max file.file_size is.items in
      elim (Bool-cases (named file.file_name (files is.items))) [
        | inl h ↦ let no : outcome.0 ≡ false = rw h refl in false_clash stored no
        | inr h ↦ elim (Bool-cases (ltb max file.file_size)) [
          | inl large ↦ let no : outcome.0 ≡ false = rw (h, large) refl in false_clash stored no
          | inr small ↦ elim (Bool-cases (leb (total kept + file.file_size) max)) [
            | inr full ↦
                let no : outcome.0 ≡ false = rw (h, small, full) refl in false_clash stored no
            | inl fits ↦ unheld (small_le file.file_size max small) fits
          ]
        ]
      ]

  insert-counts :
      (b : Bool)
      → (b ≡ true → ltb 0 (holders entry held) ≡ false)
      → (p : Ptr) → (inserted_use b c entry).in_use p ≡ holders p held
  insert-counts false free p = is.counts p
  insert-counts true free p = elim (Bool-cases (p == entry)) [
    | inr h ↦ rw h (is.counts p)
    | inl h ↦ rw h (
        sym (ap (λ a. holders a held) (==_eq p entry h) ∙ zero_of (holders entry held) (free refl)))
  ]

  -- cache_insert keeps the entries that workers hold, and the counts.
  pub insert-IsServing :
      (c' : Cache) (answer : Bool)
      → cache_insert entry node file c ≡ ok answer c'
      → IsServing (record { cache = c'; held = held })
  insert-IsServing c' answer run =
      let k = cache_insert-Keeps c is.items is.buckets entry node file is.valid fresh in
      subst (λ d. IsServing (record { cache = d; held = held })) (ok_state (sym k.run ∙ run))
        record {
          items = outcome.1;
          buckets = k.buckets;
          valid = k.valid;
          counts = insert-counts (outcome.0) unheld_lem;
          cached = λ p h.
              let f = is.cached p h in
              let used = ap (λ n. ltb 0 n) (is.counts p) ∙ h in
              (
                f.0,
                insert_list-keeps c.in_use c.max_cache_size is.items p (f.0) used f.1 entry node
                    file,
              );
        }
