-- ===== src/Web/Cache/Clear.antt =====
-- webserver/server_thread.c: cache_clear frees the entries and their file data.
use ece344_operating_systems.Base.{ℕ, zero, suc, ◌+◌, none, List, [], ◌∷◌}
use ece344_operating_systems.Base.Store.{write}
use ece344_operating_systems.Base.Chain.{Cells}
use ece344_operating_systems.Web.Cache.{FileData, Cache}
use ece344_operating_systems.Web.Cache.Bucket.{Entries}
use ece344_operating_systems.Web.Cache.Valid.{Buckets}

-- The entries without those of a bucket, and without those of `count` buckets from `i` on.
abbrev pub freed : Entries → Cells FileData → Entries
freed f [] = f
freed f ((p, _) ∷ xs) = freed (write f p none) xs

abbrev pub freed_buckets : Entries → Buckets → ℕ → ℕ → Entries
freed_buckets f buckets zero i = f
freed_buckets f buckets (suc count) i = freed_buckets (freed f (buckets i)) buckets count (i + 1)

-- The file data of a bucket, and of `count` buckets from `i` on, in front of `fs`, the last one
-- first.
abbrev pub freed_data : List FileData → Cells FileData → List FileData
freed_data fs [] = fs
freed_data fs ((_, f) ∷ xs) = freed_data (f ∷ fs) xs

abbrev pub freed_bucket_data : List FileData → Buckets → ℕ → ℕ → List FileData
freed_bucket_data fs buckets zero i = fs
freed_bucket_data fs buckets (suc count) i =
    freed_bucket_data (freed_data fs (buckets i)) buckets count (i + 1)

-- The cache with other entries, and more file data freed.
abbrev pub with_freed : Cache → Entries → List FileData → Cache
with_freed c f fs = record c { entries = f; freed_files = fs }
