-- ===== src/Web/Cache/Insert.antt =====
-- webserver/server_thread.c: eviction from the cache, insertion into it and its end. The loop of
-- an eviction runs on fuel, one round more than the size of the LRU list.
use ece344_operating_systems.Base.{
  ℕ, zero, suc, ◌+◌, ◌%◌, ◌^◌, Bool, true, false, none, some, ltb, leb, ◌-◌, if◌then◌else◌,
}
use ece344_operating_systems.Base.Run.{ok, halt, aborted, faulted, diverged, Cmd, pure, ◌>>=◌, ◌>>◌}
use ece344_operating_systems.Base.Store.{Ptr, null, is_null}
use ece344_operating_systems.Web.Lru.{node_at, add_to_lru, remove_node_from_lru, clear_lru}
use ece344_operating_systems.Web.Cache.{
  FileData, Cache, Place, in_table, in_entry, key_of, add, sub_from, above, unsigned_long,
  get_cache, entry_at, set_entry, file_data_free, on_lru, set_in_use, set_link, cache_exists,
  remove_from_cache,
}

-- Taking the entry out of both structures; the answer is the node behind its node.
unfoldable pub evict_one : Ptr → Ptr → Ptr → Cmd Cache Ptr
unfolding remove_from_cache
evict_one entry current prev = do
  next ← on_lru (remove_node_from_lru current prev)
  remove_from_cache entry
  pure next

unfoldable pub evict_loop : ℕ → Ptr → Ptr → ℕ → ℕ → Cmd Cache ℕ
unfolding evict_one entry_at
evict_loop zero current prev evicted amount = λ _. halt diverged
evict_loop (suc fuel) current prev evicted amount =
    let body : Cmd Cache ℕ = (do
      n ← on_lru (node_at current)
      e ← entry_at n.entry
      get_cache λ c.
          let kept = evict_loop fuel n.next current evicted amount in
          let evicted' = (evicted + e.file.file_size) % 2 ^ 64 in
          let removed : Cmd Cache ℕ = (do
            next ← evict_one n.entry current prev
            let rest = evict_loop fuel next prev evicted' amount
            if leb amount evicted' then pure evicted' else rest) in
          if ltb 0 (c.in_use n.entry) then kept else removed) in
    if is_null current then pure evicted else body

unfoldable pub cache_evict : ℕ → Cmd Cache ℕ
unfolding evict_loop
cache_evict amount_to_evict =
    get_cache λ c. evict_loop (c.lru.list.size + 1) c.lru.list.head null 0 amount_to_evict

-- Whether a file of that size fits behind an eviction, if one is necessary.
unfoldable pub make_room : ℕ → Cmd Cache Bool
unfolding cache_evict
make_room file_size = get_cache λ c.
    if above (add c.size file_size) c.max_cache_size
    then (do
      cache_evict (unsigned_long (sub_from file_size (sub_from c.max_cache_size c.size)))
      get_cache
          λ c'. if above (add c'.size file_size) c'.max_cache_size then pure false else pure true)
    else pure true

-- The place of the last link of a bucket; `next` is the link of `prev`.
unfoldable pub last_loop : ℕ → Place → Ptr → Cmd Cache Place
unfolding entry_at
last_loop zero prev next = λ _. halt diverged
last_loop (suc fuel) prev next =
    let body : Cmd Cache Place = (do e ← entry_at next; last_loop fuel (in_entry next) e.next) in
    if is_null next then pure prev else body

-- The arguments `entry` and `node` are what `malloc` returned.
unfoldable pub append_entry : Ptr → Ptr → FileData → Cmd Cache (Unit {0})
unfolding last_loop set_link key_of
append_entry entry node file = get_cache λ c. do
  let key = key_of c.capacity file.file_name
  prev ← last_loop (c.lru.list.size + 1) (in_table key) (c.table key)
  set_link prev entry
  if is_null entry then (λ _. halt aborted) else do
    set_entry entry (some (record { file = file; next = null }))
    set_in_use entry 0
    (λ c'. ok tt (record c' { size = add c'.size file.file_size }))
    on_lru (add_to_lru node entry)

unfoldable pub insert_new : Ptr → Ptr → FileData → Cmd Cache Bool
unfolding make_room append_entry
insert_new entry node file = do
  room ← make_room file.file_size
  if room then (do append_entry entry node file; pure true) else pure false

unfoldable pub cache_insert : Ptr → Ptr → FileData → Cmd Cache Bool
unfolding cache_exists insert_new
cache_insert entry node file = do
  exists ← cache_exists file.file_name
  if exists
      then pure false
      else get_cache λ c.
        if ltb c.max_cache_size file.file_size then pure false else insert_new entry node file

-- The entries of a bucket are freed with their file data.
unfoldable pub clear_bucket : ℕ → Ptr → Cmd Cache (Unit {0})
unfolding entry_at
clear_bucket zero entry = λ _. halt diverged
clear_bucket (suc fuel) entry =
    let body : Cmd Cache (Unit {0}) = (do
      e ← entry_at entry
      file_data_free e.file
      set_entry entry none
      clear_bucket fuel e.next) in
    if is_null entry then pure tt else body

-- The buckets from `i` on, `count` of them.
unfoldable pub clear_table : ℕ → ℕ → Cmd Cache (Unit {0})
unfolding clear_bucket
clear_table zero i = pure tt
clear_table (suc count) i =
    get_cache λ c. do clear_bucket (c.lru.list.size + 1) (c.table i); clear_table count (i + 1)

unfoldable pub cache_clear : Cmd Cache (Unit {0})
unfolding clear_table
cache_clear = get_cache λ c. clear_table c.capacity 0

-- The cache is not NULL; its mutex lies in the cache that is freed before the unlock.
unfoldable pub cache_destroy : Cmd Cache (Unit {0})
unfolding cache_clear
cache_destroy = do cache_clear; on_lru clear_lru; λ _. halt faulted

-- Behind request_sendfile, for an entry that a lookup returned.
unfoldable pub finish_entry : Ptr → Cmd Cache (Unit {0})
unfolding entry_at
finish_entry entry = get_cache λ c. do
  entry_at entry
  if ltb 0 (c.in_use entry) then set_in_use entry (c.in_use entry - 1) else (λ _. halt aborted)
