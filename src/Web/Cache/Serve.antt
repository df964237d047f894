-- ===== src/Web/Cache/Serve.antt =====
-- webserver/server_thread.c: the workers around the cache, in do_server_request. A worker looks up
-- the name of its request; on a hit it holds the entry while it sends the file, and on a miss it
-- inserts the file that it read. Each step is one run under the cache's mutex.
use ece344_operating_systems.Base.{
  ℕ, suc, ◌≡◌, Bool, false, List, [], ◌∷◌, ◌++◌, ◌==◌, if◌then◌else◌,
}
use ece344_operating_systems.Base.Run.{ok}
use ece344_operating_systems.Base.Store.{Ptr, null, is_null}
use ece344_operating_systems.Web.Cache.{FileData, Cache, cache_lookup, cache_init}
use ece344_operating_systems.Web.Cache.Insert.{cache_insert, finish_entry}
use ece344_operating_systems.Web.Cache.Answer.{FreshThen}

-- The cache and the entries that workers hold, one for each worker that sends a file of the cache.
pub record Serving : Type 0 where
  pub cache : Cache
  pub held : List Ptr

-- How many workers hold an entry.
abbrev pub holders : Ptr → List Ptr → ℕ
holders p [] = 0
holders p (q ∷ qs) = let rest = holders p qs in if p == q then suc rest else rest

pub data Step : Serving → Serving → Type 0 where
  hit :
      (c c' : Cache) (held : List Ptr) (filename : List ℕ) (entry : Ptr)
      → cache_lookup filename c ≡ ok entry c'
      → is_null entry ≡ false
      → Step (record { cache = c; held = held }) (record { cache = c'; held = entry ∷ held })
  miss :
      (c c' : Cache) (held : List Ptr) (filename : List ℕ)
      → cache_lookup filename c ≡ ok null c'
      → Step (record { cache = c; held = held }) (record { cache = c'; held = held })
  insert :
      (c c' : Cache) (held : List Ptr) (entry node : Ptr) (file : FileData) (answer : Bool)
      → FreshThen c entry node file.file_size
      → cache_insert entry node file c ≡ ok answer c'
      → Step (record { cache = c; held = held }) (record { cache = c'; held = held })
  finish :
      (c c' : Cache) (entry : Ptr) (front back : List Ptr)
      → finish_entry entry c ≡ ok tt c'
      → Step
          (record { cache = c; held = front ++ entry ∷ back })
          (record { cache = c'; held = front ++ back })

-- What can be reached from the cache that server_init sets up.
pub data Reach (max_cache_size : ℕ) : Serving → Type 0 where
  start : Reach max_cache_size (record { cache = cache_init max_cache_size; held = [] })
  step : {s t : Serving} → Reach max_cache_size s → Step s t → Reach max_cache_size t
