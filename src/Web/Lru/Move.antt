-- ===== src/Web/Lru/Move.antt =====
-- webserver/server_thread.c: an entry that was used moves to the end of the LRU list.
use mathlib.Core.Path.{transport, subst}
use mathlib.Core.List.{append-nil}
use ece344_operating_systems.Base.{
  ◌≡◌, refl, sym, ◌∙◌, true, false, [], ◌∷◌, ◌++◌, arith, ◌==◌, ◌∙◌, leb, length-append,
}
use ece344_operating_systems.Base.Run.{ok}
use ece344_operating_systems.Base.Store.{Ptr, null, is_null}
use ece344_operating_systems.Base.Chain.{
  Cells, has, EndsAt-append, last_of, EndsAt-last_of, first-Seg, middle-Seg, not_in_front,
  Points-not_null,
}
use ece344_operating_systems.Base.Chain.Unlink.{apart-Seg}
use ece344_operating_systems.Web.Lru.{Lru, move_head_to_end, move_found_to_end, move_node_to_end}
use ece344_operating_systems.Web.Lru.Ends.{IsLru, Leaves, Leaves-by}
use ece344_operating_systems.Web.Lru.Find.{NoEntry, find_in_lru_with_prev-hit}
use ece344_operating_systems.Web.Lru.Rotate.{
  not_at_head, move_head_to_end-Leaves, move_found_to_end-middle,
}

not_null_at : {p q : Ptr} → p ≡ q → is_null p ≡ false → is_null q ≡ false
not_null_at e h = rw (← e) h

module _ {A : Type 0} (s : Lru) where
  many :
      (xs : Cells (Ptr × A)) (n : Ptr) (x : Ptr × A) (y : Ptr × (Ptr × A)) (ys : Cells (Ptr × A))
      → IsLru s (xs ++ (n, x) ∷ y ∷ ys)
      → leb s.list.size 1 ≡ false
  many xs n x y ys is = ground (arith, is.count, length-append {0} xs ((n, x) ∷ y ∷ ys))

  many_before :
      (z : Ptr × (Ptr × A)) (xs : Cells (Ptr × A)) (n : Ptr) (x : Ptr × A)
      → IsLru s ((z ∷ xs) ++ (n, x) ∷ [])
      → leb s.list.size 1 ≡ false
  many_before z xs n x is = ground (arith, is.count, length-append {0} xs ((n, x) ∷ []))

module _ {A : Type 0} (s : Lru) (n : Ptr) (x : Ptr × A) where
  -- move_found_to_end on the last cell changes nothing.
  move_found_to_end-last :
      (z : Ptr × (Ptr × A)) (xs : Cells (Ptr × A)) (prev : Ptr)
      → IsLru s ((z ∷ xs) ++ (n, x) ∷ [])
      → move_found_to_end n prev s ≡ ok tt s
  unfolding move_found_to_end
  move_found_to_end-last (c, d) xs prev is =
      let t : s.list.tail ≡ n =
        transport (EndsAt-append ((c, d) ∷ xs) (n, x) [] s.list.tail) is.ends in
      let m = middle-Seg ((c, d) ∷ xs) n x [] is.chain in
      let first = first-Seg c d (xs ++ (n, x) ∷ []) is.chain in
      let out : has n (((c, d) ∷ xs) ++ []) ≡ false = apart-Seg ((c, d) ∷ xs) n x [] is.chain in
      let front : has n ((c, d) ∷ xs) ≡ false = not_in_front n ((c, d) ∷ xs) [] out in
      let not_head : (n == s.list.head) ≡ false =
        not_at_head n s.list.head c d xs first.at_head front in
      let at_tail : (n == s.list.tail) ≡ true = ground (arith, t) in
      rw (Points-not_null m.1, not_head, at_tail) refl

  -- Among several cells, move_node_to_end moves the one that it finds.
  move_node_to_end-found :
      (xs ys : Cells (Ptr × A))
      → IsLru s (xs ++ (n, x) ∷ ys)
      → NoEntry (x.0) xs
      → leb s.list.size 1 ≡ false
      → move_node_to_end (x.0) s ≡ move_found_to_end n (last_of null xs) s
  unfolding move_node_to_end
  move_node_to_end-found xs ys is others many =
      rw (many, find_in_lru_with_prev-hit s n (x.0) (x.1) ys xs is others) refl

  move_found_to_end-head :
      (prev : Ptr) (y : Ptr × (Ptr × A)) (ys : Cells (Ptr × A))
      → IsLru s ((n, x) ∷ y ∷ ys)
      → move_found_to_end n prev s ≡ move_head_to_end s
  unfolding move_found_to_end
  move_found_to_end-head prev y ys is =
      let first = first-Seg n x (y ∷ ys) is.chain in
      let some_node : is_null n ≡ false =
        not_null_at first.at_head (Points-not_null first.points) in
      let at_head : (n == s.list.head) ≡ true = ground (arith, first.at_head) in
      rw (some_node, at_head) refl

  -- move_node_to_end of an entry in the LRU list puts its first node behind the others, wherever
  -- it stands, and keeps their order.
  pub move_node_to_end-Leaves :
      (xs ys : Cells (Ptr × A))
      → IsLru s (xs ++ (n, x) ∷ ys)
      → NoEntry (x.0) xs
      → Leaves ((xs ++ ys) ++ (n, x) ∷ []) tt (move_node_to_end (x.0) s)
  unfolding move_node_to_end
  move_node_to_end-Leaves [] [] is others =
      let one : leb s.list.size 1 ≡ true = ground (arith, is.count) in
      record { final = s; run = rw one refl; valid = is }
  move_node_to_end-Leaves [] (y ∷ ys) is others =
      Leaves-by
        (move_node_to_end-found [] (y ∷ ys) is others (many s [] n x y ys is)
          ∙ move_found_to_end-head null y ys is)
        (move_head_to_end-Leaves s n x y ys is)
  move_node_to_end-Leaves (z ∷ xs) [] is others = record {
    final = s;
    run =
        move_node_to_end-found (z ∷ xs) [] is others (many_before s z xs n x is)
        ∙ move_found_to_end-last z xs (last_of null (z ∷ xs)) is;
    valid = subst (λ zs. IsLru s (zs ++ (n, x) ∷ [])) (sym (append-nil (z ∷ xs))) is;
  }
  move_node_to_end-Leaves (z ∷ xs) (y ∷ ys) is others =
      Leaves-by (move_node_to_end-found (z ∷ xs) (y ∷ ys) is others (many s (z ∷ xs) n x y ys is)) (
        move_found_to_end-middle s z xs (last_of null (z ∷ xs)) n x y ys is
          (EndsAt-last_of null z xs))
