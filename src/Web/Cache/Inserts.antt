-- ===== src/Web/Cache/Inserts.antt =====
-- webserver/server_thread.c: cache_insert.
use ece344_operating_systems.Base.{
  ℕ, ◌+◌, ◌-◌, ◌≤◌, ◌≡◌, refl, ap, ◌∙◌, Bool, true, false, not, leb, Bool-cases, inl, inr,
}
use ece344_operating_systems.Base.Run.{ok}
use ece344_operating_systems.Web.Cache.{Cache, add, sub_from, above, unsigned_long}
use ece344_operating_systems.Web.Cache.Insert.{cache_evict, make_room}
use ece344_operating_systems.Web.Cache.Evict.{with_parts, Keeps, Keeps-by}
use ece344_operating_systems.Web.Cache.Evicts.{evict_list, evict_sum, cache_evict-Keeps}
use ece344_operating_systems.Web.Cache.Room.{room_list, amount_value, above_value}
use ece344_operating_systems.Web.Cache.Valid.{Items, Buckets, total, IsCache}

module _ (c : Cache) (file_size : ℕ) where
  make_room-none :
      above (add c.size file_size) c.max_cache_size ≡ false → make_room file_size c ≡ ok true c
  unfolding make_room
  make_room-none h = rw h refl

  make_room-evicts :
      (amount evicted : ℕ) (c' : Cache) (b : Bool)
      → above (add c.size file_size) c.max_cache_size ≡ true
      → unsigned_long (sub_from file_size (sub_from c.max_cache_size c.size)) ≡ amount
      → cache_evict amount c ≡ ok evicted c'
      → above (add c'.size file_size) c'.max_cache_size ≡ not b
      → make_room file_size c ≡ ok b c'
  unfolding make_room
  make_room-evicts amount evicted c' true h e run h' = rw (h, e, run, h') refl
  make_room-evicts amount evicted c' false h e run h' = rw (h, e, run, h') refl

module _ (c : Cache) (items : Items) (buckets : Buckets) (file_size : ℕ)
    (is : IsCache c items buckets) (small : file_size ≤ c.max_cache_size) where
  abbrev max : ℕ
  max = c.max_cache_size

  abbrev amount : ℕ
  amount = total items + file_size - max

  -- make_room leaves the abstract list, and tells whether the file fits behind it.
  pub make_room-Keeps :
      Keeps c
        (room_list c.in_use max file_size items)
        (leb (total (room_list c.in_use max file_size items) + file_size) max)
        (make_room file_size c)
  make_room-Keeps = elim (Bool-cases (leb (total items + file_size) max)) [
    | inl fits ↦
        let k : Keeps c items true (ok true c) = record {
          table = c.table;
          entries = c.entries;
          lru = c.lru;
          size = c.size;
          buckets = buckets;
          run = refl;
          valid = is;
        } in
        Keeps-by k (rw fits refl) (rw fits fits) (
          make_room-none c file_size
            (above_value c.size (total items) file_size max is.size ∙ ap not fits))
    | inr full ↦
        let r = cache_evict-Keeps c items buckets amount is in
        let left = evict_list c.in_use amount 0 items in
        let c' = with_parts c r.table r.entries r.lru r.size in
        let b : Bool = leb (total left + file_size) max in
        let run =
          make_room-evicts c file_size amount (evict_sum c.in_use amount 0 items) c' b
            (above_value c.size (total items) file_size max is.size ∙ ap not full)
            (amount_value c.size (total items) file_size max is.size is.room small is.max full)
            r.run (above_value r.size (total left) file_size max r.valid.size) in
        let k : Keeps c left b (ok b c') = record {
          table = r.table;
          entries = r.entries;
          lru = r.lru;
          size = r.size;
          buckets = r.buckets;
          run = refl;
          valid = r.valid;
        } in
        Keeps-by k (rw full refl) (rw full refl) run
  ]
