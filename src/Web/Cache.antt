-- ===== src/Web/Cache.antt =====
-- webserver/server_thread.c: the cache of files, a hash table of entries with the LRU list.
-- Each function that takes the cache's mutex is one atomic step. The loops over a bucket run on
-- fuel, one round more than the size of the LRU list, which lists every entry. The sums of `long`
-- are exact: a file's size is an `int`, and the size of the cache stays below the maximum.
pub mod Insert
pub mod Bucket
pub mod Unlink
pub mod Append
pub mod Valid
pub mod Names
pub mod Items
pub mod Lookup
pub mod Without
pub mod Evict
pub mod Evicts
pub mod With
pub mod Grow
pub mod Room
pub mod Inserts
pub mod Answer
pub mod Spared
pub mod Serve
pub mod Held
pub mod Stays
pub mod Serves
pub mod Clear
use ece344_operating_systems.Base.{
  ℕ, zero, suc, ◌+◌, ◌-◌, ◌*◌, ◌%◌, ◌^◌, Bool, true, false, not, ◌&&◌, Option, none, some, List, [],
  ◌∷◌, ltb, leb, ◌==◌, if◌then◌else◌,
}
use ece344_operating_systems.Base.Int.{ℤ, pos, negsuc, sub_ℕ}
use ece344_operating_systems.Base.Run.{
  Run, ok, halt, Halt, aborted, faulted, diverged, Cmd, pure, and_then, ◌>>=◌, ◌>>◌,
}
unfoldable pub use ece344_operating_systems.Base.Strings.{hash, same_name}
use ece344_operating_systems.Base.Store.{Ptr, null, write, is_null}
use ece344_operating_systems.Web.Lru.{
  Lru, found, node_at, add_to_lru, move_node_to_end, remove_node_from_lru, clear_lru,
}

-- struct file_data: the bytes of the name in front of the NUL, and the size.
pub record FileData : Type 0 where
  pub file_name : List ℕ
  pub file_size : ℕ

pub record CacheEntry : Type 0 where
  pub file : FileData
  pub next : Ptr

-- `table` has the field `next` of each dummy head, and the field `in_use` of the entries has a
-- store of its own. `freed_files` are the file data that file_data_free was called with, the last
-- one first.
pub record Cache : Type 0 where
  pub table : ℕ → Ptr
  pub entries : Ptr → Option CacheEntry
  pub in_use : Ptr → ℕ
  pub freed_files : List FileData
  pub lru : Lru
  pub size : ℤ
  pub capacity : ℕ
  pub max_cache_size : ℕ

-- The cache that server_init sets up.
abbrev pub cache_init : ℕ → Cache
cache_init max_cache_size = record {
  table = λ _. null;
  entries = λ _. none;
  in_use = λ _. 0;
  freed_files = [];
  lru = record { list = record { head = null; tail = null; size = 0 }; nodes = λ _. none };
  size = pos 0;
  capacity = 5000;
  max_cache_size = max_cache_size;
}

unfoldable pub key_of : ℕ → List ℕ → ℕ
unfolding hash
key_of capacity filename = hash filename % capacity

-- z + n, z - n, n - z and z > n
abbrev pub add : ℤ → ℕ → ℤ
add (pos a) n = pos (a + n)
add (negsuc a) n = sub_ℕ n (a + 1)

abbrev pub sub : ℤ → ℕ → ℤ
sub (pos a) n = sub_ℕ a n
sub (negsuc a) n = negsuc (a + n)

abbrev pub sub_from : ℕ → ℤ → ℤ
sub_from n (pos a) = sub_ℕ n a
sub_from n (negsuc a) = pos (n + a + 1)

abbrev pub above : ℤ → ℕ → Bool
above (pos a) n = ltb n a
above (negsuc _) n = false

-- A `long` as an `unsigned long`.
abbrev pub unsigned_long : ℤ → ℕ
unsigned_long (pos n) = n % 2 ^ 64
unsigned_long (negsuc n) = 2 ^ 64 - 1 - n % 2 ^ 64

abbrev pub get_cache : {A : Type 0} → (Cache → Cmd Cache A) → Cmd Cache A
get_cache k c = k c c

abbrev pub entry_in : (Ptr → Option CacheEntry) → Ptr → Cmd Cache CacheEntry
entry_in entries p = if is_null p then (λ _. halt faulted) else found (entries p)

unfoldable pub entry_at : Ptr → Cmd Cache CacheEntry
entry_at p c = entry_in c.entries p c

abbrev pub set_entry : Ptr → Option CacheEntry → Cmd Cache (Unit {0})
set_entry p e c = ok tt (record c { entries = write c.entries p e })

-- A function of the LRU list on the cache's list.
abbrev pub lift_lru : {A : Type 0} → Cache → Run Lru A → Run Cache A
lift_lru c (ok a l) = ok a (record c { lru = l })
lift_lru c (halt h) = halt h

abbrev pub on_lru : {A : Type 0} → Cmd Lru A → Cmd Cache A
on_lru m c = lift_lru c (m c.lru)

-- The entry behind `next` with the name, or NULL.
unfoldable pub lookup_loop : ℕ → Ptr → List ℕ → Cmd Cache Ptr
unfolding entry_at
lookup_loop zero next filename = λ _. halt diverged
lookup_loop (suc fuel) next filename =
    let body : Cmd Cache Ptr = (do
      e ← entry_at next
      let rest = lookup_loop fuel e.next filename
      if same_name e.file.file_name filename then pure next else rest) in
    if is_null next then pure null else body

unfoldable pub find_in_table : List ℕ → Cmd Cache Ptr
unfolding lookup_loop key_of
find_in_table filename =
    get_cache λ c. lookup_loop (c.lru.list.size + 1) (c.table (key_of c.capacity filename)) filename

-- file_data_free(data)
abbrev pub file_data_free : FileData → Cmd Cache (Unit {0})
file_data_free f c = ok tt (record c { freed_files = f ∷ c.freed_files })

-- entry->in_use = n
abbrev pub set_in_use : Ptr → ℕ → Cmd Cache (Unit {0})
set_in_use p n c = ok tt (record c { in_use = write c.in_use p n })

unfoldable pub use_entry : Ptr → Cmd Cache Ptr
unfolding entry_at
use_entry entry = get_cache λ c. do
  entry_at entry
  set_in_use entry (c.in_use entry + 1)
  on_lru (move_node_to_end entry)
  pure entry

unfoldable pub cache_lookup : List ℕ → Cmd Cache Ptr
unfolding find_in_table use_entry
cache_lookup filename = do
  entry ← find_in_table filename
  if is_null entry then pure null else use_entry entry

unfoldable pub cache_exists : List ℕ → Cmd Cache Bool
unfolding find_in_table
cache_exists filename = do entry ← find_in_table filename; pure (not (is_null entry))

-- A place for a link: the dummy head of a bucket, or an entry.
pub data Place : Type 0 where
  in_table : ℕ → Place
  in_entry : Ptr → Place

-- prev->next = next
unfoldable pub set_link : Place → Ptr → Cmd Cache (Unit {0})
unfolding entry_at
set_link (in_table k) next = λ c. ok tt (record c { table = write c.table k next })
set_link (in_entry p) next = do e ← entry_at p; set_entry p (some (record e { next = next }))

-- The place whose link is the target; `next` is the link of `prev`.
unfoldable pub target_loop : ℕ → Place → Ptr → Ptr → Cmd Cache (Option Place)
unfolding entry_at
target_loop zero prev next target = λ _. halt diverged
target_loop (suc fuel) prev next target =
    let body : Cmd Cache (Option Place) = (do
      e ← entry_at next
      target_loop fuel (in_entry next) e.next target) in
    if is_null next then pure none else if next == target then pure (some prev) else body

unfoldable pub unlink_entry : Option Place → Ptr → Cmd Cache (Unit {0})
unfolding set_link entry_at
unlink_entry none target = pure tt
unlink_entry (some prev) target = do
  e ← entry_at target
  set_link prev e.next
  set_link (in_entry target) null
  (λ c. ok tt (record c { size = sub c.size e.file.file_size }))
  set_entry target none

unfoldable pub remove_from_cache : Ptr → Cmd Cache (Unit {0})
unfolding target_loop unlink_entry key_of entry_at
remove_from_cache target = get_cache λ c. do
  e ← entry_at target
  let key = key_of c.capacity e.file.file_name
  prev ← target_loop (c.lru.list.size + 1) (in_table key) (c.table key) target
  unlink_entry prev target
