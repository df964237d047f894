-- ===== src/Web/CacheExamples.antt =====
-- The cache of webserver/server_thread.c at concrete files: a cache for 10 bytes.
use mathlib.Core.Path.{subst}
use ece344_operating_systems.Base.{◌-◌, ◌≡◌, refl, sym, ◌∙◌, true, none, some, [], ◌∷◌, arith, ◌⊎◌}
use ece344_operating_systems.Base.Run.{ok, ok_state, state_of}
use ece344_operating_systems.Base.Store.{write}
use ece344_operating_systems.Web.Cache.{FileData, Cache, cache_init, cache_lookup}
use ece344_operating_systems.Base.Chain.{nil, cons}
use ece344_operating_systems.Web.Lru.{Lru, add_to_lru, move_node_to_end, remove_node_from_lru}
use ece344_operating_systems.Web.Lru.Ends.{IsLru, Leaves, node_of}
use ece344_operating_systems.Web.Lru.Move.{move_node_to_end-Leaves}
use ece344_operating_systems.Web.Cache.Insert.{cache_insert, make_room, cache_evict, finish_entry}
use ece344_operating_systems.Web.Cache.Evict.{Keeps}
use ece344_operating_systems.Web.Cache.Evicts.{cache_evict-Keeps}
use ece344_operating_systems.Web.Cache.Grow.{Fresh, with_use}
use ece344_operating_systems.Web.Cache.Answer.{FreshThen, cache_insert-Keeps, cache_insert-answer}
use ece344_operating_systems.Web.Cache.Lookup.{Hit, Miss, cache_lookup-outcome}
use ece344_operating_systems.Web.Cache.Serve.{Serving, hit, insert, Reach, start, step}
use ece344_operating_systems.Web.Cache.Held.{IsServing, cache_init-IsCache}
use ece344_operating_systems.Web.Cache.Serves.{Reach-IsServing, finish_entry-Reach}
use ece344_operating_systems.Web.Cache.Valid.{IsCache}

-- "a", a byte that is negative as a `char`, and "b".
abbrev file_a : FileData
file_a = record { file_name = 97 ∷ 200 ∷ []; file_size = 7 }

abbrev file_b : FileData
file_b = record { file_name = 98 ∷ []; file_size = 5 }

abbrev empty : Cache
empty = cache_init 10

abbrev with_a : Cache
with_a = state_of empty (cache_insert 1 2 file_a empty)

insert_a : cache_insert 1 2 file_a empty ≡ ok true with_a
unfolding cache_insert add_to_lru
insert_a = refl

fresh_a : FreshThen empty 1 2 7
unfolding make_room
fresh_a c' run =
    subst (λ c. Fresh c 1 2) (ok_state {a = true} {b = true} {s = empty} {t = c'} run)
      record { some_entry = refl; some_node = refl; no_entry = refl; no_node = refl }

keeps_a : Keeps (with_use empty 1 0) ((2, (1, file_a)) ∷ []) true (cache_insert 1 2 file_a empty)
keeps_a =
    cache_insert-Keeps empty [] (λ _. []) 1 2 file_a (cache_init-IsCache 10 (omega arith)) fresh_a

valid_a : IsCache with_a ((2, (1, file_a)) ∷ []) keeps_a.buckets
valid_a =
    subst (λ c. IsCache c ((2, (1, file_a)) ∷ []) keeps_a.buckets)
      (ok_state (sym keeps_a.run ∙ insert_a)) keeps_a.valid

cache_lookup-outcome_example :
    Hit with_a
      (97 ∷ 200 ∷ [])
      ((2, (1, file_a)) ∷ [])
      keeps_a.buckets
      (cache_lookup (97 ∷ 200 ∷ []) with_a)
    ⊎ Miss with_a (97 ∷ 200 ∷ []) ((2, (1, file_a)) ∷ []) (cache_lookup (97 ∷ 200 ∷ []) with_a)
cache_lookup-outcome_example =
    cache_lookup-outcome with_a (97 ∷ 200 ∷ []) ((2, (1, file_a)) ∷ []) keeps_a.buckets valid_a

cache_evict-Keeps_example : Keeps with_a [] 7 (cache_evict 2 with_a)
unfolding cache_insert add_to_lru
cache_evict-Keeps_example =
    cache_evict-Keeps with_a ((2, (1, file_a)) ∷ []) keeps_a.buckets 2 valid_a

-- The file "b" fits only without the file "a".
abbrev without_a : Cache
without_a = state_of empty (cache_evict 2 with_a)

room_b : make_room 5 with_a ≡ ok true without_a
unfolding make_room cache_insert add_to_lru remove_node_from_lru
room_b = refl

Fresh-without_a : Fresh without_a 3 4
unfolding make_room cache_insert add_to_lru remove_node_from_lru
Fresh-without_a = record { some_entry = refl; some_node = refl; no_entry = refl; no_node = refl }

fresh_b : FreshThen with_a 3 4 5
fresh_b c' run = subst (λ c. Fresh c 3 4) (ok_state (sym room_b ∙ run)) Fresh-without_a

cache_insert-Keeps_example :
    Keeps (with_use with_a 3 0) ((4, (3, file_b)) ∷ []) true (cache_insert 3 4 file_b with_a)
unfolding cache_insert add_to_lru
cache_insert-Keeps_example =
    cache_insert-Keeps with_a ((2, (1, file_a)) ∷ []) keeps_a.buckets 3 4 file_b valid_a fresh_b

cache_insert-answer_example : (c' : Cache) × (cache_insert 3 4 file_b with_a ≡ ok true c')
unfolding cache_insert add_to_lru
cache_insert-answer_example =
    cache_insert-answer with_a ((2, (1, file_a)) ∷ []) keeps_a.buckets 3 4 file_b valid_a fresh_b

-- A worker sends the file "a".
abbrev used_a : Cache
used_a = state_of empty (cache_lookup (97 ∷ 200 ∷ []) with_a)

look_a : cache_lookup (97 ∷ 200 ∷ []) with_a ≡ ok 1 used_a
unfolding cache_lookup cache_insert add_to_lru move_node_to_end
look_a = refl

abbrev serving : Serving
serving = record { cache = used_a; held = 1 ∷ [] }

Reach-a : Reach 10 serving
Reach-a =
    step (step start (insert empty with_a [] 1 2 file_a true fresh_a insert_a))
      (hit with_a used_a [] (97 ∷ 200 ∷ []) 1 look_a refl)

Reach-IsServing_example : IsServing serving
Reach-IsServing_example = Reach-IsServing 10 (omega arith) Reach-a

finish_entry-Reach_example :
    finish_entry 1 used_a
    ≡ ok tt (record used_a { in_use = write used_a.in_use 1 (used_a.in_use 1 - 1) })
finish_entry-Reach_example = finish_entry-Reach 10 used_a (1 ∷ []) 1 (omega arith) Reach-a refl

-- A list of three entries.
abbrev lru₃ : Lru
lru₃ = record {
  list = record { head = 2; tail = 6; size = 3 };
  nodes =
      write (write (write (λ _. none) 2 (some (node_of (1, tt) 4))) 4 (some (node_of (3, tt) 6))) 6
        (some (node_of (5, tt) 0));
}

lru₃-IsLru : IsLru lru₃ ((2, (1, tt)) ∷ (4, (3, tt)) ∷ (6, (5, tt)) ∷ [])
lru₃-IsLru = record {
  chain =
      cons (record { ne_null = omega arith; holds = refl }) refl
        (cons (record { ne_null = omega arith; holds = refl }) refl
          (cons (record { ne_null = omega arith; holds = refl }) refl nil));
  count = refl;
  ends = refl;
}

move_node_to_end-Leaves_example :
    Leaves ((2, (1, tt)) ∷ (6, (5, tt)) ∷ (4, (3, tt)) ∷ []) tt (move_node_to_end 3 lru₃)
move_node_to_end-Leaves_example =
    move_node_to_end-Leaves lru₃ 4 (3, tt) ((2, (1, tt)) ∷ []) ((6, (5, tt)) ∷ []) lru₃-IsLru
      (refl, tt)
