-- ===== src/Web/Cache/Evicts.antt =====
-- webserver/server_thread.c: cache_evict goes through the LRU list.
use mathlib.Core.Path.{subst}
use mathlib.Core.List.{append_assoc}
use ece344_operating_systems.Base.{
  ℕ, zero, suc, ◌+◌, ◌<◌, ◌%◌, ◌^◌, ◌≡◌, refl, sym, ap, ◌∙◌, true, false, [], ◌∷◌, ◌++◌, arith, ltb,
  leb, if◌then◌else◌, length, Bool-cases, inl, inr,
}
use ece344_operating_systems.Base.Run.{ok, pure}
use ece344_operating_systems.Base.Store.{Ptr, null}
use ece344_operating_systems.Base.Chain.{Points, Points-not_null, last_of}
use ece344_operating_systems.Base.Chain.Unlink.{head_of, Seg-head_of, middle-Points}
use ece344_operating_systems.Web.Lru.Ends.{node_of, node_at-Points}
use ece344_operating_systems.Web.Cache.{FileData, Cache}
use ece344_operating_systems.Web.Cache.Insert.{evict_one, evict_loop, cache_evict}
use ece344_operating_systems.Web.Cache.Bucket.{entry_of, entry_at-Points}
use ece344_operating_systems.Web.Cache.Evict.{
  Keeps, Keeps-by, with_parts, evict_one-Keeps, evict-Points,
}
use ece344_operating_systems.Web.Cache.Valid.{Items, Buckets, IsCache}

-- What an eviction leaves of a list: the entries in use, and all behind the point where enough
-- bytes were evicted.
abbrev pub evict_list : (Ptr → ℕ) → ℕ → ℕ → Items → Items
evict_list in_use amount evicted [] = []
evict_list in_use amount evicted ((n, (p, f)) ∷ xs) =
    let kept = evict_list in_use amount evicted xs in
    let evicted' = (evicted + f.file_size) % 2 ^ 64 in
    let rest = evict_list in_use amount evicted' xs in
    if ltb 0 (in_use p) then (n, (p, f)) ∷ kept else if leb amount evicted' then xs else rest

-- The number of evicted bytes.
abbrev pub evict_sum : (Ptr → ℕ) → ℕ → ℕ → Items → ℕ
evict_sum in_use amount evicted [] = evicted
evict_sum in_use amount evicted ((n, (p, f)) ∷ xs) =
    let kept = evict_sum in_use amount evicted xs in
    let evicted' = (evicted + f.file_size) % 2 ^ 64 in
    let rest = evict_sum in_use amount evicted' xs in
    if ltb 0 (in_use p) then kept else if leb amount evicted' then evicted' else rest

module _ (c : Cache) (fuel : ℕ) (n p : Ptr) (f : FileData) (next after prev : Ptr)
    (evicted amount : ℕ) (e : Points node_of c.lru.nodes n (p, f) next)
    (e' : Points entry_of c.entries p f after) where
  evict_loop-kept :
      ltb 0 (c.in_use p) ≡ true
      → evict_loop (suc fuel) n prev evicted amount c ≡ evict_loop fuel next n evicted amount c
  unfolding evict_loop
  evict_loop-kept used =
      rw (Points-not_null e, node_at-Points c.lru e, entry_at-Points c e', used) refl

  evict_loop-removed :
      (left : Ptr) (c' : Cache)
      → ltb 0 (c.in_use p) ≡ false
      → evict_one p n prev c ≡ ok left c'
      → evict_loop (suc fuel) n prev evicted amount c
        ≡ (if leb amount ((evicted + f.file_size) % 2 ^ 64)
              then pure ((evicted + f.file_size) % 2 ^ 64)
              else evict_loop fuel left prev ((evicted + f.file_size) % 2 ^ 64) amount)
            c'
  unfolding evict_loop
  evict_loop-removed left c' used run =
      rw (Points-not_null e, node_at-Points c.lru e, entry_at-Points c e', used, run) refl

last_of-snoc : (a n : Ptr) (x : Ptr × FileData) (xs : Items) → last_of a (xs ++ (n, x) ∷ []) ≡ n
last_of-snoc a n x [] = refl
last_of-snoc a n x ((m, y) ∷ xs) = last_of-snoc m n x xs

evict_loop-end :
    (fuel : ℕ) (prev : Ptr) (evicted amount : ℕ) (c : Cache)
    → evict_loop (suc fuel) null prev evicted amount c ≡ ok evicted c
unfolding evict_loop
evict_loop-end fuel prev evicted amount c = refl

evict_loop-Keeps :
    (fuel : ℕ) (c : Cache) (buckets : Buckets) (xs ys : Items) (evicted amount : ℕ)
    → IsCache c (xs ++ ys) buckets
    → length ys < fuel
    → Keeps c
        (xs ++ evict_list c.in_use amount evicted ys)
        (evict_sum c.in_use amount evicted ys)
        (evict_loop fuel (head_of ys) (last_of null xs) evicted amount c)
evict_loop-Keeps zero c buckets xs ys evicted amount is lt = elim lt [ ]
evict_loop-Keeps (suc fuel) c buckets xs [] evicted amount is lt = record {
  table = c.table;
  entries = c.entries;
  lru = c.lru;
  size = c.size;
  buckets = buckets;
  run = evict_loop-end fuel (last_of null xs) evicted amount c;
  valid = is;
}
evict_loop-Keeps (suc fuel) c buckets xs ((n, (p, f)) ∷ ys) evicted amount is lt =
    let e = middle-Points xs n (p, f) ys is.lru.chain in
    let e' = evict-Points c buckets xs ys n p f is in
    let prev = last_of null xs in
    let evicted' = (evicted + f.file_size) % 2 ^ 64 in
    elim (Bool-cases (ltb 0 (c.in_use p))) [
      | inl used ↦
          let xs' = xs ++ (n, (p, f)) ∷ [] in
          let same : (zs : Items) → xs' ++ zs ≡ xs ++ (n, (p, f)) ∷ zs =
            λ zs. append_assoc xs ((n, (p, f)) ∷ []) zs in
          let r =
            evict_loop-Keeps fuel c buckets xs' ys evicted amount
              (subst (λ zs. IsCache c zs buckets) (sym (same ys)) is) (omega (arith, lt)) in
          Keeps-by r (rw used (sym (same (evict_list c.in_use amount evicted ys)))) (rw used refl) (
            evict_loop-kept c fuel n p f (head_of ys) (e'.0) prev evicted amount e e'.1 used
            ∙ ap (λ a. evict_loop fuel (head_of ys) a evicted amount c)
                (sym (last_of-snoc null n (p, f) xs)))
      | inr free ↦
          let r = evict_one-Keeps c buckets xs ys n p f is in
          let c' = with_parts c r.table r.entries r.lru r.size in
          let run =
            evict_loop-removed c fuel n p f (head_of ys) (e'.0) prev evicted amount e e'.1
              (head_of ys) c' free r.run in
          elim (Bool-cases (leb amount evicted')) [
            | inl enough ↦
                let k : Keeps c (xs ++ ys) evicted' (ok evicted' c') = record {
                  table = r.table;
                  entries = r.entries;
                  lru = r.lru;
                  size = r.size;
                  buckets = r.buckets;
                  run = refl;
                  valid = r.valid;
                } in
                Keeps-by k (rw (free, enough) refl) (rw (free, enough) refl) (
                  run
                  ∙ ap
                      (λ b.
                        (if b
                            then pure evicted'
                            else evict_loop fuel (head_of ys) prev evicted' amount)
                          c')
                      enough)
            | inr more ↦
                let r' =
                  evict_loop-Keeps fuel c' r.buckets xs ys evicted' amount r.valid
                    (omega (arith, lt)) in
                let k : Keeps c (xs ++ evict_list c.in_use amount evicted' ys)
                    (evict_sum c.in_use amount evicted' ys)
                    (evict_loop fuel (head_of ys) prev evicted' amount c') =
                  record {
                    table = r'.table;
                    entries = r'.entries;
                    lru = r'.lru;
                    size = r'.size;
                    buckets = r'.buckets;
                    run = r'.run;
                    valid = r'.valid;
                  } in
                Keeps-by k (rw (free, more) refl) (rw (free, more) refl) (
                  run
                  ∙ ap
                      (λ b.
                        (if b
                            then pure evicted'
                            else evict_loop fuel (head_of ys) prev evicted' amount)
                          c')
                      more)
          ]
    ]

-- cache_evict on a cache in order returns, keeps it in order and changes no use count. It takes
-- the entries that are not in use out of the LRU list and their buckets, the least recently used
-- first, until at least the given number of bytes is evicted, keeps the others in their order, and
-- answers the number of bytes evicted.
pub cache_evict-Keeps :
    (c : Cache) (items : Items) (buckets : Buckets) (amount : ℕ)
    → IsCache c items buckets
    → Keeps c
        (evict_list c.in_use amount 0 items)
        (evict_sum c.in_use amount 0 items)
        (cache_evict amount c)
unfolding cache_evict
cache_evict-Keeps c items buckets amount is =
    Keeps-by
      (evict_loop-Keeps (c.lru.list.size + 1) c buckets [] items 0 amount is
        (omega (arith, is.lru.count)))
      refl refl
      (ap (λ h. evict_loop (c.lru.list.size + 1) h null 0 amount c) (Seg-head_of is.lru.chain))
