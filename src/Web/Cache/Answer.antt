-- ===== src/Web/Cache/Answer.antt =====
-- webserver/server_thread.c: cache_insert and what it answers and leaves.
use mathlib.Core.Path.{subst}
use ece344_operating_systems.Base.{
  ℕ, ◌+◌, ◌-◌, ◌≤◌, ◌≡◌, refl, sym, ap, ◌∙◌, Bool, true, false, not, ◌&&◌, [], ◌∷◌, ◌++◌, arith,
  ltb, leb, leb→le, if◌then◌else◌, Bool-cases, inl, inr,
}
use ece344_operating_systems.Base.Run.{ok, pure}
use ece344_operating_systems.Base.Store.{Ptr}
use ece344_operating_systems.Web.Cache.{FileData, Cache}
use ece344_operating_systems.Web.Cache.Insert.{make_room, append_entry, insert_new, cache_insert}
use ece344_operating_systems.Web.Cache.Evict.{with_parts, Keeps, Keeps-by}
use ece344_operating_systems.Web.Cache.Grow.{Fresh, with_use, append_entry-Keeps}
use ece344_operating_systems.Web.Cache.Room.{
  named, named-Absent, named-evict, cache_exists-named, room_list,
}
use ece344_operating_systems.Web.Cache.Spared.{used_total, room_list-fits}
use ece344_operating_systems.Web.Cache.Valid.{Items, Buckets, files, total, IsCache}
use ece344_operating_systems.Web.Cache.Inserts.{make_room-Keeps}

-- What cache_insert answers and leaves, by the items of the cache alone.
abbrev pub insert_list : (Ptr → ℕ) → ℕ → Ptr → Ptr → FileData → Items → Bool × Items
insert_list in_use max entry node file items =
    let kept = room_list in_use max file.file_size items in
    if named file.file_name (files items)
    then (false, items)
    else if ltb max file.file_size
    then (false, items)
    else if leb (total kept + file.file_size) max
    then (true, kept ++ (node, (entry, file)) ∷ [])
    else (false, kept)

-- A new entry is not in use.
abbrev pub inserted_use : Bool → Cache → Ptr → Cache
inserted_use answer c entry = if answer then with_use c entry 0 else c

-- When `malloc` is called, behind the eviction, it returns addresses that are not in use.
abbrev pub FreshThen : Cache → Ptr → Ptr → ℕ → Type 0
FreshThen c entry node file_size =
    (c' : Cache) → make_room file_size c ≡ ok true c' → Fresh c' entry node

module _ (c : Cache) (items : Items) (buckets : Buckets) (entry node : Ptr) (file : FileData)
    (is : IsCache c items buckets) where
  insert-exists :
      named file.file_name (files items) ≡ true → cache_insert entry node file c ≡ ok false c
  unfolding cache_insert
  insert-exists h = rw (cache_exists-named c items buckets is file.file_name, h) refl

  insert-large :
      named file.file_name (files items) ≡ false
      → ltb c.max_cache_size file.file_size ≡ true
      → cache_insert entry node file c ≡ ok false c
  unfolding cache_insert
  insert-large h large = rw (cache_exists-named c items buckets is file.file_name, h, large) refl

  insert-small :
      named file.file_name (files items) ≡ false
      → ltb c.max_cache_size file.file_size ≡ false
      → cache_insert entry node file c ≡ insert_new entry node file c
  unfolding cache_insert
  insert-small h small =
      rw (cache_exists-named c items buckets is file.file_name, h)
        (ap (λ b. (if b then pure false else insert_new entry node file) c) small)

insert_new-full :
    (c c' : Cache) (entry node : Ptr) (file : FileData)
    → make_room file.file_size c ≡ ok false c'
    → insert_new entry node file c ≡ ok false c'
unfolding insert_new
insert_new-full c c' entry node file run = rw run refl

insert_new-room :
    (c c' c'' : Cache) (entry node : Ptr) (file : FileData)
    → make_room file.file_size c ≡ ok true c'
    → append_entry entry node file c' ≡ ok tt c''
    → insert_new entry node file c ≡ ok true c''
unfolding insert_new
insert_new-room c c' c'' entry node file run run' = rw (run, run') refl

pub small_le : (s max : ℕ) → ltb max s ≡ false → s ≤ max
small_le s max h = ground (arith, h)

too_large : (used s max : ℕ) → ltb max s ≡ true → leb (used + s) max ≡ false
too_large used s max h = ground (arith, h)

module _ (in_use : Ptr → ℕ) (max : ℕ) (file : FileData) (items : Items) where
  named-room :
      named file.file_name (files items) ≡ false
      → named file.file_name (files (room_list in_use max file.file_size items)) ≡ false
  named-room h = elim (Bool-cases (leb (total items + file.file_size) max)) [
    | inl fits ↦ rw fits h
    | inr full ↦
        rw full (named-evict file.file_name in_use (total items + file.file_size - max) 0 items h)
  ]

module _ (c : Cache) (items : Items) (buckets : Buckets) (entry node : Ptr) (file : FileData)
    (is : IsCache c items buckets) where
  abbrev outcome : Bool × Items
  outcome = insert_list c.in_use c.max_cache_size entry node file items

  unchanged : Keeps c items false (ok false c)
  unchanged = record {
    table = c.table;
    entries = c.entries;
    lru = c.lru;
    size = c.size;
    buckets = buckets;
    run = refl;
    valid = is;
  }

  Keeps_by_answer :
      (b : Bool) (items' : Items)
      → outcome ≡ (b, items')
      → Keeps (inserted_use b c entry) items' b (cache_insert entry node file c)
      → Keeps
          (inserted_use (outcome.0) c entry)
          (outcome.1)
          (outcome.0)
          (cache_insert entry node file c)
  Keeps_by_answer b items' e k =
      subst (λ t. Keeps (inserted_use (t.0) c entry) (t.1) (t.0) (cache_insert entry node file c))
        (sym e) k

  -- cache_insert on a cache in order, where malloc returns addresses that are then not in use,
  -- returns and keeps the cache in order. It answers and leaves what a function on the LRU list
  -- says: a name that the cache has, and a file above the maximum, change nothing; else room is
  -- made by an eviction where it is needed, and where the file then fits, it is last in the list,
  -- with nobody using it.
  pub cache_insert-Keeps :
      FreshThen c entry node file.file_size
      → Keeps
          (inserted_use (outcome.0) c entry)
          (outcome.1)
          (outcome.0)
          (cache_insert entry node file c)
  cache_insert-Keeps fresh =
      let kept = room_list c.in_use c.max_cache_size file.file_size items in
      elim (Bool-cases (named file.file_name (files items))) [
        | inl h ↦
            Keeps_by_answer false items (rw h refl)
              (Keeps-by unchanged refl refl (insert-exists c items buckets entry node file is h))
        | inr h ↦ elim (Bool-cases (ltb c.max_cache_size file.file_size)) [
          | inl large ↦ Keeps_by_answer false items (rw (h, large) refl) (
              Keeps-by unchanged refl refl
                (insert-large c items buckets entry node file is h large))
          | inr small ↦
              let room =
                make_room-Keeps c items buckets file.file_size is
                  (small_le file.file_size c.max_cache_size small) in
              let c' = with_parts c room.table room.entries room.lru room.size in
              let start = insert-small c items buckets entry node file is h small in
              elim (Bool-cases (leb (total kept + file.file_size) c.max_cache_size)) [
                | inr full ↦
                    let run =
                      insert_new-full c c' entry node file (room.run ∙ ap (λ b. ok b c') full) in
                    let k : Keeps c kept false (ok false c') = record {
                      table = room.table;
                      entries = room.entries;
                      lru = room.lru;
                      size = room.size;
                      buckets = room.buckets;
                      run = refl;
                      valid = room.valid;
                    } in
                    Keeps_by_answer false kept (rw (h, small, full) refl)
                      (Keeps-by k refl refl (start ∙ run))
                | inl fits ↦
                    let roomy : make_room file.file_size c ≡ ok true c' =
                      room.run ∙ ap (λ b. ok b c') fits in
                    let absent =
                      named-Absent file.file_name (files kept)
                        (named-room c.in_use c.max_cache_size file items h) in
                    let a =
                      append_entry-Keeps c' kept room.buckets entry node file room.valid
                        (fresh c' roomy) absent
                        (leb→le (total kept + file.file_size) c.max_cache_size fits) in
                    let c'' = with_parts (with_use c entry 0) a.table a.entries a.lru a.size in
                    let run = insert_new-room c c' c'' entry node file roomy a.run in
                    let k : Keeps (with_use c entry 0) (kept ++ (node, (entry, file)) ∷ []) true
                        (ok true c'') =
                      record {
                        table = a.table;
                        entries = a.entries;
                        lru = a.lru;
                        size = a.size;
                        buckets = a.buckets;
                        run = refl;
                        valid = a.valid;
                      } in
                    Keeps_by_answer true (kept ++ (node, (entry, file)) ∷ [])
                      (rw (h, small, fits) refl) (Keeps-by k refl refl (start ∙ run))
              ]
        ]
      ]

  answer_lem : outcome.0 ≡ (
      not (named file.file_name (files items))
      && leb (used_total c.in_use items + file.file_size) c.max_cache_size)
  answer_lem =
      let max = c.max_cache_size in
      let kept = room_list c.in_use max file.file_size items in
      let used = used_total c.in_use items in
      let same = room_list-fits c.in_use max file.file_size items is.room is.max in
      elim (Bool-cases (named file.file_name (files items))) [
        | inl h ↦ rw h refl
        | inr h ↦ elim (Bool-cases (ltb max file.file_size)) [
          | inl large ↦
              let no : leb (used + file.file_size) max ≡ false =
                too_large used file.file_size max large in
              rw (h, large, no) refl
          | inr small ↦ elim (Bool-cases (leb (total kept + file.file_size) max)) [
            | inl fits ↦ rw (h, small, fits) (sym fits ∙ same)
            | inr full ↦ rw (h, small, full) (sym full ∙ same)
          ]
        ]
      ]

  -- cache_insert on a cache in order, where malloc returns addresses that are then not in use,
  -- returns, and stores the file exactly if the cache has no file of its name and the file fits
  -- beside the files in use.
  pub cache_insert-answer :
      FreshThen c entry node file.file_size
      → (c' : Cache) × (cache_insert entry node file c
          ≡ ok
              (not (named file.file_name (files items))
                && leb (used_total c.in_use items + file.file_size) c.max_cache_size)
              c')
  cache_insert-answer fresh =
      let k = cache_insert-Keeps fresh in
      let c' = with_parts (inserted_use (outcome.0) c entry) k.table k.entries k.lru k.size in
      (c', k.run ∙ ap (λ b. ok b c') answer_lem)
