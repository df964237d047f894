-- ===== src/Web/Cache/Held.antt =====
-- webserver/server_thread.c: an entry that workers hold stays in the cache.
use mathlib.Core.Path.{subst}
use ece344_operating_systems.Base.{
  ℕ, suc, ◌+◌, ◌-◌, ◌<◌, ◌^◌, ◌≡◌, refl, sym, ap, ◌∙◌, Bool, true, false, some, List, [], ◌∷◌, ◌++◌,
  arith, ltb, ◌==◌, ==_eq, if◌then◌else◌, Bool-cases, inl, inr,
}
use ece344_operating_systems.Base.Run.{Run, ok, ok_answer, ok_state}
use ece344_operating_systems.Base.Store.{Ptr, null, write, is_null, null_clash}
use ece344_operating_systems.Base.Chain.{nil}
use ece344_operating_systems.Base.Chain.At.{at, Seg-at}
use ece344_operating_systems.Web.Cache.{FileData, Cache, key_of, cache_init, cache_lookup}
use ece344_operating_systems.Web.Cache.Insert.{finish_entry}
use ece344_operating_systems.Web.Cache.Bucket.{entry_at-Points}
use ece344_operating_systems.Web.Cache.Serve.{Serving, holders}
use ece344_operating_systems.Web.Cache.Lookup.{Hit, cache_lookup-outcome}
use ece344_operating_systems.Web.Cache.Items.{item-here}
use ece344_operating_systems.Web.Cache.Valid.{Items, Buckets, files, Agree, IsCache}

-- The use counts are the numbers of workers, and what a worker holds is in the cache.
pub record IsServing (s : Serving) : Type 0 where
  pub items : Items
  pub buckets : Buckets
  pub valid : IsCache s.cache items buckets
  pub counts : (p : Ptr) → s.cache.in_use p ≡ holders p s.held
  pub cached :
      (p : Ptr) → ltb 0 (holders p s.held) ≡ true → (f : FileData) × (at p (files items) ≡ some f)

-- The cache that server_init sets up is empty.
pub cache_init-IsCache :
    (max_cache_size : ℕ)
    → max_cache_size < 2 ^ 63
    → IsCache (cache_init max_cache_size) [] (λ _. [])
cache_init-IsCache max_cache_size lt = record {
  lru = record { chain = nil; count = refl; ends = tt };
  chains = λ k. nil;
  agree = record {
    homes = λ k p f e. ground (arith, e);
    listed = λ k p f e. e;
    stored = λ p f e. e;
    once = tt;
    names = λ p q f g e e' same. ground (arith, e);
  };
  size = refl;
  room = omega arith;
  max = lt;
}

pub start-IsServing :
    (max_cache_size : ℕ)
    → max_cache_size < 2 ^ 63
    → IsServing (record { cache = cache_init max_cache_size; held = [] })
start-IsServing max_cache_size lt = record {
  items = [];
  buckets = λ _. [];
  valid = cache_init-IsCache max_cache_size lt;
  counts = λ p. refl;
  cached = λ p h. ground (arith, h);
}

suc_if : (b : Bool) (n : ℕ) → suc (if b then suc n else n) ≡ (if b then suc (suc n) else suc n)
suc_if true n = refl
suc_if false n = refl

holders-without :
    (p q : Ptr) (xs ys : List Ptr)
    → holders p (xs ++ q ∷ ys)
      ≡ (if p == q then suc (holders p (xs ++ ys)) else holders p (xs ++ ys))
holders-without p q [] ys = refl
holders-without p q (r ∷ xs) ys = elim (Bool-cases (p == r)) [
  | inl h ↦ rw (h, holders-without p q xs ys) (suc_if (p == q) (holders p (xs ++ ys)))
  | inr h ↦ rw (h, holders-without p q xs ys) refl
]

-- The use counts are no part of what the structures agree on.
IsCache-use :
    {c : Cache} {items : Items} {buckets : Buckets} (in_use : Ptr → ℕ)
    → IsCache c items buckets
    → IsCache (record c { in_use = in_use }) items buckets
IsCache-use in_use is = record {
  lru = is.lru;
  chains = is.chains;
  agree = is.agree;
  size = is.size;
  room = is.room;
  max = is.max;
}

module _ (c : Cache) (held : List Ptr) (is : IsServing (record { cache = c; held = held })) where
  Hit-holds :
      {filename : List ℕ} {r : Run Cache Ptr} (h : Hit c filename is.items is.buckets r)
      → IsServing (record {
        cache = record c { in_use = write c.in_use h.entry (c.in_use h.entry + 1); lru = h.lru };
        held = h.entry ∷ held;
      })
  Hit-holds h =
      let xs = h.item.front in
      let ys = h.item.back in
      let items' = (xs ++ ys) ++ (h.item.node, (h.entry, h.file)) ∷ [] in
      let moved : (p : Ptr) (f : FileData)
          → at p (files is.items) ≡ some f
          → at p (files items') ≡ some f =
        λ p f e.
          h.valid.agree.listed (key_of c.capacity f.file_name) p f (is.valid.agree.stored p f e) in
      let here : at h.entry (files is.items) ≡ some h.file =
        subst (λ zs. at h.entry (files zs) ≡ some h.file) (sym h.item.parts)
          (item-here xs ys h.item.node h.entry h.file
            (subst (λ zs. Agree c.capacity zs is.buckets) h.item.parts is.valid.agree)) in
      record {
        items = items';
        buckets = is.buckets;
        valid = h.valid;
        counts = λ p. elim (Bool-cases (p == h.entry)) [
          | inl e ↦ rw e (
              omega (arith, is.counts h.entry ∙ ap (λ a. holders a held) (sym (==_eq p h.entry e))))
          | inr e ↦ rw e (is.counts p)
        ];
        cached = λ p used. elim (Bool-cases (p == h.entry)) [
          | inl e ↦ (
            h.file,
            subst (λ a. at a (files items') ≡ some h.file) (sym (==_eq p h.entry e))
                (moved h.entry h.file here),
          )
          | inr e ↦
              let f = is.cached p (
                sym (ap (λ b. ltb 0 (if b then suc (holders p held) else holders p held)) e)
                ∙ used) in
              (f.0, moved p (f.0) f.1)
        ];
      }

  -- A worker that looks up a name holds the entry that it gets.
  pub hit-IsServing :
      (c' : Cache) (filename : List ℕ) (entry : Ptr)
      → cache_lookup filename c ≡ ok entry c'
      → is_null entry ≡ false
      → IsServing (record { cache = c'; held = entry ∷ held })
  hit-IsServing c' filename entry run some_entry =
      elim (cache_lookup-outcome c filename is.items is.buckets is.valid) [
        | inl h ↦
            let same = ok_answer (sym h.run ∙ run) in
            let state = ok_state (sym h.run ∙ run) in
            subst (λ d. IsServing (record { cache = d; held = entry ∷ held })) state
              (subst
                (λ e. IsServing (record {
                  cache = record c {
                    in_use = write c.in_use h.entry (c.in_use h.entry + 1);
                    lru = h.lru;
                  };
                  held = e ∷ held;
                }))
                same (Hit-holds h))
        | inr m ↦ null_clash (ok_answer (sym run ∙ m.run)) some_entry
      ]

  pub miss-IsServing :
      (c' : Cache) (filename : List ℕ)
      → cache_lookup filename c ≡ ok null c'
      → IsServing (record { cache = c'; held = held })
  miss-IsServing c' filename run =
      elim (cache_lookup-outcome c filename is.items is.buckets is.valid) [
        | inl h ↦ null_clash (ok_answer (sym h.run ∙ run)) h.not_null
        | inr m ↦
            subst (λ d. IsServing (record { cache = d; held = held })) (ok_state (sym m.run ∙ run))
              is
      ]

  -- A worker that sent its file lets go of its entry: the `assert` holds.
  pub finish_entry-held :
      (entry : Ptr)
      → ltb 0 (holders entry held) ≡ true
      → finish_entry entry c
        ≡ ok tt (record c { in_use = write c.in_use entry (c.in_use entry - 1) })
  unfolding finish_entry
  finish_entry-held entry used =
      let f = is.cached entry used in
      let key = key_of c.capacity f.0.file_name in
      let points =
        Seg-at entry (f.0) (is.buckets key) (is.valid.chains key)
          (is.valid.agree.stored entry (f.0) f.1) in
      let positive : ltb 0 (c.in_use entry) ≡ true = ap (λ n. ltb 0 n) (is.counts entry) ∙ used in
      rw (entry_at-Points c points.1, positive) refl

still_held : (b : Bool) (n : ℕ) → ltb 0 n ≡ true → ltb 0 (if b then suc n else n) ≡ true
still_held true n h = ground arith
still_held false n h = h

finished_count :
    (in_use : Ptr → ℕ) (p entry : Ptr) (front back : List Ptr)
    → ((q : Ptr) → in_use q ≡ holders q (front ++ entry ∷ back))
    → write in_use entry (in_use entry - 1) p ≡ holders p (front ++ back)
finished_count in_use p entry front back counts =
    let e = counts p ∙ holders-without p entry front back in
    let n = holders p (front ++ back) in
    elim (Bool-cases (p == entry)) [
      | inl h ↦
          let e' : in_use entry ≡ suc n =
            ap in_use (sym (==_eq p entry h)) ∙ e ∙ ap (λ b. if b then suc n else n) h in
          rw h (omega (arith, e'))
      | inr h ↦ rw h (e ∙ ap (λ b. if b then suc n else n) h)
    ]

pub finish-IsServing :
    (c c' : Cache) (entry : Ptr) (front back : List Ptr)
    → IsServing (record { cache = c; held = front ++ entry ∷ back })
    → finish_entry entry c ≡ ok tt c'
    → IsServing (record { cache = c'; held = front ++ back })
finish-IsServing c c' entry front back is run =
    let held = front ++ entry ∷ back in
    let same : (entry == entry) ≡ true = ground arith in
    let used : ltb 0 (holders entry held) ≡ true =
      rw (holders-without entry entry front back, same) (ground arith) in
    let state = ok_state (sym (finish_entry-held c held is entry used) ∙ run) in
    subst (λ d. IsServing (record { cache = d; held = front ++ back })) state
      record {
        items = is.items;
        buckets = is.buckets;
        valid = IsCache-use (write c.in_use entry (c.in_use entry - 1)) is.valid;
        counts = λ p. finished_count c.in_use p entry front back is.counts;
        cached = λ p h. is.cached p (
            rw (holders-without p entry front back)
              (still_held (p == entry) (holders p (front ++ back)) h));
      }
