-- ===== src/Web/Lru/Find.antt =====
-- webserver/server_thread.c: the search for the node of an entry in the LRU list.
use ece344_operating_systems.Base.{
  ℕ, zero, suc, ◌+◌, ◌<◌, ◌≡◌, refl, true, false, [], ◌∷◌, ◌++◌, arith, ◌==◌, length, length-append,
}
use ece344_operating_systems.Base.Run.{ok}
use ece344_operating_systems.Base.Store.{Ptr, null}
use ece344_operating_systems.Base.Chain.{Cells, Seg, cons, last_of, Points-not_null}
use ece344_operating_systems.Web.Lru.{Lru, find_loop_with_prev, find_in_lru_with_prev}
use ece344_operating_systems.Web.Lru.Ends.{node_of, IsLru, node_at-Points}

-- No cell refers to the entry.
abbrev pub NoEntry : {A : Type 0} → Ptr → Cells (Ptr × A) → Type 0
NoEntry e [] = Unit
NoEntry e ((_, (d, _)) ∷ xs) = ((d == e) ≡ false) × NoEntry e xs

module _ {A : Type 0} (s : Lru) (n e : Ptr) (a : A) (ys : Cells (Ptr × A)) where
  -- The first node of an entry is found, with the one before it.
  find_loop_with_prev-hit :
      (fuel : ℕ) (current prev : Ptr) (xs : Cells (Ptr × A))
      → Seg node_of s.nodes current (xs ++ (n, (e, a)) ∷ ys)
      → NoEntry e xs
      → length xs < fuel
      → find_loop_with_prev fuel current prev e s ≡ ok (n, last_of prev xs) s
  unfolding find_loop_with_prev
  find_loop_with_prev-hit zero current prev xs c others lt = elim lt [ ]
  find_loop_with_prev-hit (suc fuel) current prev [] (cons p out c) others lt =
      let same : (e == e) ≡ true = ground arith in
      rw (Points-not_null p, node_at-Points s p, same) refl
  find_loop_with_prev-hit (suc fuel) current prev ((q, (d, b)) ∷ xs) (cons {next} p out c) others
        lt =
      rw (Points-not_null p, node_at-Points s p, others.0)
        (find_loop_with_prev-hit fuel next q xs c others.1 (omega (arith, lt)))

  pub find_in_lru_with_prev-hit :
      (xs : Cells (Ptr × A))
      → IsLru s (xs ++ (n, (e, a)) ∷ ys)
      → NoEntry e xs
      → find_in_lru_with_prev e s ≡ ok (n, last_of null xs) s
  unfolding find_in_lru_with_prev
  find_in_lru_with_prev-hit xs is others =
      find_loop_with_prev-hit (s.list.size + 1) s.list.head null xs is.chain others
        (omega (arith, is.count, length-append {0} xs ((n, (e, a)) ∷ ys)))
