-- ===== src/Web/Lru/Remove.antt =====
-- webserver/server_thread.c: the removal of a cell of the LRU list.
use mathlib.Core.Path.{transport, subst}
use mathlib.Core.List.{append-nil}
use ece344_operating_systems.Base.{
  ℕ, suc, ◌-◌, ◌≡◌, refl, sym, true, false, Option, none, some, [], ◌∷◌, ◌++◌, arith, ◌==◌, ==_sym,
  if◌then◌else◌, length, length-append,
}
use ece344_operating_systems.Base.Run.{ok}
use ece344_operating_systems.Base.Store.{Ptr, null, write, write-same}
use ece344_operating_systems.Base.Chain.{
  Cells, has, Points, nil, EndsAt, EndsAt-append, has-EndsAt, has-ne, last_of, EndsAt-last_of,
  frame-write, first-Seg, not_in_back, not_in_front, Points-not_null,
}
use ece344_operating_systems.Base.Chain.Unlink.{head_of, Seg-head_of, unlink-Seg}
use ece344_operating_systems.Web.Lru.{LruEntry, Lru, free_node, remove_node_from_lru}
use ece344_operating_systems.Web.Lru.Ends.{
  node_of, IsLru, Leaves, Leaves-answer, with_nodes, node_at-Points, set_next-Points,
}

module _ {A : Type 0} (s : Lru) (n : Ptr) (x : Ptr × A) where
  free_node-Points :
      (next : Ptr)
      → Points node_of s.nodes n x next
      → free_node n s ≡ ok tt (with_nodes s (write s.nodes n none))
  unfolding free_node
  free_node-Points next e = rw (Points-not_null e, node_at-Points s e) refl

-- The tail behind the removal of `n`, the cell behind `prev`.
tail-EndsAt :
    {A : Type 0} (z : Ptr × A) (xs : Cells A) (prev n : Ptr) (x : A) (ys : Cells A) (t : Ptr)
    → EndsAt ((z ∷ xs) ++ (n, x) ∷ ys) t
    → EndsAt (z ∷ xs) prev
    → has n ((z ∷ xs) ++ ys) ≡ false
    → EndsAt ((z ∷ xs) ++ ys) (if n == t then prev else t)
tail-EndsAt z xs prev n x [] t end end' out =
    let at_n : t ≡ n = transport (EndsAt-append (z ∷ xs) (n, x) [] t) end in
    let e : (n == t) ≡ true = ground (arith, at_n) in
    rw e (subst (λ zs. EndsAt zs prev) (sym (append-nil (z ∷ xs))) end')
tail-EndsAt z xs prev n x (y ∷ ys) t end end' out =
    let at_end : EndsAt (y ∷ ys) t = transport (EndsAt-append (z ∷ xs) (n, x) (y ∷ ys) t) end in
    let e : (n == t) ≡ false =
      has-ne t n (y ∷ ys) (has-EndsAt y ys t at_end) (not_in_back n (z ∷ xs) (y ∷ ys) out) in
    rw e (transport (sym (EndsAt-append (z ∷ xs) y ys t)) at_end)

counted_lem :
    {A : Type 0} (k : ℕ) (xs : Cells A) (n : Ptr) (x : A) (ys : Cells A)
    → k ≡ length (xs ++ (n, x) ∷ ys)
    → k ≡ suc (length (xs ++ ys))
counted_lem k xs n x ys e =
    omega (arith, e, length-append {0} xs ((n, x) ∷ ys), length-append {0} xs ys)

not_one :
    {A : Type 0} (k : ℕ) (z : Ptr × A) (xs : Cells A) → k ≡ suc (length (z ∷ xs)) → (k == 1) ≡ false
not_one k z xs e = ground (arith, e)

one_less : (k m : ℕ) → k ≡ suc m → k - 1 ≡ m
one_less k m e = omega (arith, e)

module _ {A : Type 0} (s : Lru) (n : Ptr) (x : Ptr × A) where
  remove-one :
      (prev : Ptr) → IsLru s ((n, x) ∷ []) → Leaves {A = A} [] null (remove_node_from_lru n prev s)
  unfolding remove_node_from_lru
  remove-one prev is =
      let one : (s.list.size == 1) ≡ true = ground (arith, is.count) in
      let a = first-Seg n x [] is.chain in
      let e : Points node_of s.nodes n x a.next = rw (← a.at_head) a.points in
      record {
        final = record {
          list = record { head = null; tail = null; size = s.list.size - 1 };
          nodes = write s.nodes n none;
        };
        run = rw (one, free_node-Points s n x a.next e) refl;
        valid = record { chain = nil; count = ground (arith, is.count); ends = tt };
      }

  remove-head :
      (y : Ptr × (Ptr × A)) (ys : Cells (Ptr × A))
      → IsLru s ((n, x) ∷ y ∷ ys)
      → Leaves (y ∷ ys) (head_of (y ∷ ys)) (remove_node_from_lru n null s)
  unfolding remove_node_from_lru
  remove-head y ys is =
      let many : (s.list.size == 1) ≡ false = ground (arith, is.count) in
      let a = first-Seg n x (y ∷ ys) is.chain in
      let e : Points node_of s.nodes n x a.next = rw (← a.at_head) a.points in
      let f₁ : Ptr → Option LruEntry = write s.nodes n (some (node_of x null)) in
      let e₁ : Points node_of f₁ n x null = record {
        ne_null = e.ne_null;
        holds = write-same s.nodes n (some (node_of x null));
      } in
      let out : has n (y ∷ ys) ≡ false = subst (λ b. has b (y ∷ ys) ≡ false) a.at_head a.out in
      Leaves-answer (Seg-head_of a.rest) record {
        final = record {
          list = record (s.list) { head = a.next; size = s.list.size - 1 };
          nodes = write f₁ n none;
        };
        run =
            rw
              (
                many,
                node_at-Points s a.points,
                set_next-Points s e null,
                free_node-Points (with_nodes s f₁) n x null e₁,
              )
              refl;
        valid = record {
          chain = frame-write n none (frame-write n (some (node_of x null)) a.rest out) out;
          count = omega (arith, is.count);
          ends = is.ends;
        };
      }

  remove-behind :
      (z : Ptr × (Ptr × A)) (xs : Cells (Ptr × A)) (prev : Ptr) (ys : Cells (Ptr × A))
      → IsLru s ((z ∷ xs) ++ (n, x) ∷ ys)
      → EndsAt (z ∷ xs) prev
      → Leaves ((z ∷ xs) ++ ys) (head_of ys) (remove_node_from_lru n prev s)
  unfolding remove_node_from_lru
  remove-behind z xs prev ys is end =
      let u = unlink-Seg z xs prev n x ys is.chain end in
      let next : Ptr = head_of ys in
      let counted : s.list.size ≡ suc (length ((z ∷ xs) ++ ys)) =
        counted_lem s.list.size (z ∷ xs) n x ys is.count in
      let many : (s.list.size == 1) ≡ false = not_one s.list.size z (xs ++ ys) counted in
      let front : has n (z ∷ xs) ≡ false = not_in_front n (z ∷ xs) ys u.out in
      let apart : (n == prev) ≡ false = has-ne prev n (z ∷ xs) u.inside front in
      let f₁ : Ptr → Option LruEntry = write s.nodes prev (some (node_of u.item next)) in
      let f₂ : Ptr → Option LruEntry = write f₁ n (some (node_of x null)) in
      let points₁ : Points node_of f₁ n x next = record {
        ne_null = u.points.ne_null;
        holds = rw apart u.points.holds;
      } in
      let points₂ : Points node_of f₂ n x null = record {
        ne_null = u.points.ne_null;
        holds = write-same f₁ n (some (node_of x null));
      } in
      let before₁ : Points node_of f₁ prev u.item next = record {
        ne_null = u.before.ne_null;
        holds = write-same s.nodes prev (some (node_of u.item next));
      } in
      let before₂ : Points node_of f₂ prev u.item next = record {
        ne_null = u.before.ne_null;
        holds = rw (==_sym n prev apart) before₁.holds;
      } in
      record {
        final = record {
          list = record (s.list) {
            tail = if n == s.list.tail then prev else s.list.tail;
            size = s.list.size - 1;
          };
          nodes = write f₂ n none;
        };
        run =
            rw
              (
                many,
                Points-not_null u.before,
                node_at-Points s u.points,
                set_next-Points s u.before next,
                set_next-Points (with_nodes s f₁) points₁ null,
                node_at-Points (with_nodes s f₂) before₂,
                free_node-Points (with_nodes s f₂) n x null points₂,
              )
              refl;
        valid = record {
          chain = frame-write n none (frame-write n (some (node_of x null)) u.chain u.out) u.out;
          count = one_less s.list.size (length ((z ∷ xs) ++ ys)) counted;
          ends = tail-EndsAt z xs prev n x ys s.list.tail is.ends end u.out;
        };
      }

  -- remove_node_from_lru of a node of the LRU list, given with the node before it, leaves the list
  -- without it, its head, tail and size included, and answers the node that stood behind it.
  pub remove_node_from_lru-Leaves :
      (xs ys : Cells (Ptr × A))
      → IsLru s (xs ++ (n, x) ∷ ys)
      → Leaves (xs ++ ys) (head_of ys) (remove_node_from_lru n (last_of null xs) s)
  remove_node_from_lru-Leaves [] [] is = remove-one null is
  remove_node_from_lru-Leaves [] (y ∷ ys) is = remove-head y ys is
  remove_node_from_lru-Leaves (z ∷ xs) ys is =
      remove-behind z xs (last_of null (z ∷ xs)) ys is (EndsAt-last_of null z xs)
