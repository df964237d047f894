-- ===== src/Web/Cache/Serves.antt =====
-- webserver/server_thread.c: the cache under every order of the workers' steps.
use ece344_operating_systems.Base.{ℕ, ◌-◌, ◌<◌, ◌^◌, ◌≡◌, true, List, ltb}
use ece344_operating_systems.Base.Run.{ok}
use ece344_operating_systems.Base.Store.{Ptr, write}
use ece344_operating_systems.Web.Cache.{Cache}
use ece344_operating_systems.Web.Cache.Insert.{finish_entry}
use ece344_operating_systems.Web.Cache.Serve.{
  Serving, holders, Step, hit, miss, insert, finish, Reach, start, step,
}
use ece344_operating_systems.Web.Cache.Held.{
  IsServing, start-IsServing, hit-IsServing, miss-IsServing, finish-IsServing, finish_entry-held,
}
use ece344_operating_systems.Web.Cache.Stays.{insert-IsServing}

Step-IsServing : {s t : Serving} → Step s t → IsServing s → IsServing t
Step-IsServing (hit c c' held filename entry run some_entry) is =
    hit-IsServing c held is c' filename entry run some_entry
Step-IsServing (miss c c' held filename run) is = miss-IsServing c held is c' filename run
Step-IsServing (insert c c' held entry node file answer fresh run) is =
    insert-IsServing c held is entry node file fresh c' answer run
Step-IsServing (finish c c' entry front back run) is = finish-IsServing c c' entry front back is run

-- Under every order of lookups, insertions and ends of requests by the workers, from the cache
-- that server_init sets up with a maximum that a long holds, the hash table and the LRU list have
-- the same entries, each once, under the hash of its name and with no name twice; the size is the
-- sum of the sizes of the files and at most the maximum; the use count of each entry is the number
-- of workers that hold it, and what a worker holds is in the cache.
pub Reach-IsServing :
    (max_cache_size : ℕ) {s : Serving}
    → max_cache_size < 2 ^ 63
    → Reach max_cache_size s
    → IsServing s
Reach-IsServing max_cache_size lt start = start-IsServing max_cache_size lt
Reach-IsServing max_cache_size lt (step r st) =
    Step-IsServing st (Reach-IsServing max_cache_size lt r)

-- In every state of the cache that the workers reach, a worker that holds an entry finds it still
-- allocated when it has sent the file, and the use count, which it decrements, does not become
-- negative: the assertion holds.
pub finish_entry-Reach :
    (max_cache_size : ℕ) (c : Cache) (held : List Ptr) (entry : Ptr)
    → max_cache_size < 2 ^ 63
    → Reach max_cache_size (record { cache = c; held = held })
    → ltb 0 (holders entry held) ≡ true
    → finish_entry entry c ≡ ok tt (record c { in_use = write c.in_use entry (c.in_use entry - 1) })
finish_entry-Reach max_cache_size c held entry lt r used =
    finish_entry-held c held (Reach-IsServing max_cache_size lt r) entry used
