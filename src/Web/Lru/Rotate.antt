-- ===== src/Web/Lru/Rotate.antt =====
-- webserver/server_thread.c: the first cell of the LRU list, or one in the middle, moves to its end.
use mathlib.Core.Path.{transport, subst}
use ece344_operating_systems.Base.{
  ℕ, ◌≡◌, refl, sym, true, false, Option, some, [], ◌∷◌, ◌++◌, arith, ◌==◌, ==_sym, leb, length,
  length-append,
}
use ece344_operating_systems.Base.Store.{Ptr, null, write, write-same, write_comm}
use ece344_operating_systems.Base.Chain.{
  Cells, has, Points, Seg, EndsAt, EndsAt-snoc, EndsAt-append, has-EndsAt, has-ne, frame,
  frame-write, EndsWith-Last, snoc-Seg, first-Seg, not_in_back, not_in_front, Points-not_null,
}
use ece344_operating_systems.Base.Chain.Unlink.{head_of, unlink-Seg}
use ece344_operating_systems.Web.Lru.{LruEntry, Lru, move_head_to_end, move_found_to_end}
use ece344_operating_systems.Web.Lru.Ends.{
  node_of, IsLru, Leaves, with_nodes, node_at-Points, set_next-Points,
}

pub not_at_head :
    {A : Type 0} (n h c : Ptr) (d : A) (xs : Cells A)
    → h ≡ c
    → has n ((c, d) ∷ xs) ≡ false
    → (n == h) ≡ false
not_at_head n h c d xs e o = ground (arith, e, o)

moved_count :
    {A : Type 0} (k : ℕ) (xs : Cells A) (n : Ptr) (x : A) (y : Ptr × A) (ys : Cells A)
    → k ≡ length (xs ++ (n, x) ∷ y ∷ ys)
    → k ≡ length ((xs ++ y ∷ ys) ++ (n, x) ∷ [])
moved_count k xs n x y ys e = omega (
  arith,
  e,
  length-append {0} xs ((n, x) ∷ y ∷ ys),
  length-append {0} xs (y ∷ ys),
  length-append {0} (xs ++ y ∷ ys) ((n, x) ∷ []),
)

module _ {A : Type 0} (s : Lru) where
  -- move_head_to_end on a list of two or more cells puts the first behind the others.
  pub move_head_to_end-Leaves :
      (p : Ptr) (x : Ptr × A) (y : Ptr × (Ptr × A)) (ys : Cells (Ptr × A))
      → IsLru s ((p, x) ∷ y ∷ ys)
      → Leaves (y ∷ ys ++ (p, x) ∷ []) tt (move_head_to_end s)
  unfolding move_head_to_end
  move_head_to_end-Leaves p x y ys is =
      let many : leb s.list.size 1 ≡ false = ground (arith, is.count) in
      let h = s.list.head in
      let t = s.list.tail in
      let a = first-Seg p x (y ∷ ys) is.chain in
      let l = EndsWith-Last y ys t a.rest is.ends in
      let inside : has t (y ∷ ys) ≡ true = has-EndsAt y ys t is.ends in
      let apart : (h == t) ≡ false = has-ne t h (y ∷ ys) inside a.out in
      let apart' : (t == h) ≡ false = ==_sym h t apart in
      let f₁ : Ptr → Option LruEntry = write s.nodes t (some (node_of l.item h)) in
      let points₁ : Points node_of f₁ h x a.next = record {
        ne_null = a.points.ne_null;
        holds = rw apart a.points.holds;
      } in
      let f₂ : Ptr → Option LruEntry = write f₁ h (some (node_of x null)) in
      let g : Ptr → Option LruEntry = write s.nodes h (some (node_of x null)) in
      let chain : Seg node_of (write g t (some (node_of l.item h))) a.next (y ∷ ys ++ (h, x) ∷ []) =
        snoc-Seg y ys t l.item h x (frame-write h (some (node_of x null)) a.rest a.out) l.ends
          (record {
            ne_null = a.points.ne_null;
            holds = write-same s.nodes h (some (node_of x null));
          })
          a.out in
      record {
        final = record { list = record (s.list) { head = a.next; tail = h }; nodes = f₂ };
        run =
            rw
              (
                many,
                node_at-Points s a.points,
                set_next-Points s l.points h,
                set_next-Points (with_nodes s f₁) points₁ null,
              )
              refl;
        valid = record {
          chain = rw⁻¹ a.at_head (
              frame f₂ chain (λ b i.
                write_comm s.nodes t h (some (node_of l.item h)) (some (node_of x null)) apart' b));
          count = omega (arith, is.count, length-append {0} (y ∷ ys) ((p, x) ∷ []));
          ends = subst (λ b. EndsAt (y ∷ ys ++ (b, x) ∷ []) h) a.at_head (EndsAt-snoc (y ∷ ys) h x);
        };
      }

  -- move_found_to_end puts a cell in the middle, given with the one before it, behind the others.
  pub move_found_to_end-middle :
      (z : Ptr × (Ptr × A)) (xs : Cells (Ptr × A)) (prev n : Ptr) (x : Ptr × A)
      (y : Ptr × (Ptr × A)) (ys : Cells (Ptr × A))
      → IsLru s ((z ∷ xs) ++ (n, x) ∷ y ∷ ys)
      → EndsAt (z ∷ xs) prev
      → Leaves (((z ∷ xs) ++ y ∷ ys) ++ (n, x) ∷ []) tt (move_found_to_end n prev s)
  unfolding move_found_to_end
  move_found_to_end-middle (c, d) xs prev n x y ys is end =
      let h = s.list.head in
      let t = s.list.tail in
      let u = unlink-Seg (c, d) xs prev n x (y ∷ ys) is.chain end in
      let back : has n (y ∷ ys) ≡ false = not_in_back n ((c, d) ∷ xs) (y ∷ ys) u.out in
      let at_end : EndsAt (y ∷ ys) t =
        transport (EndsAt-append ((c, d) ∷ xs) (n, x) (y ∷ ys) t) is.ends in
      let first = first-Seg c d (xs ++ (n, x) ∷ y ∷ ys) is.chain in
      let front : has n ((c, d) ∷ xs) ≡ false = not_in_front n ((c, d) ∷ xs) (y ∷ ys) u.out in
      let not_head : (n == h) ≡ false = not_at_head n h c d xs first.at_head front in
      let not_tail : (n == t) ≡ false = has-ne t n (y ∷ ys) (has-EndsAt y ys t at_end) back in
      let not_prev : (n == prev) ≡ false = has-ne prev n ((c, d) ∷ xs) u.inside front in
      let next : Ptr = head_of (y ∷ ys) in
      let f₁ : Ptr → Option LruEntry = write s.nodes prev (some (node_of u.item next)) in
      let points₁ : Points node_of f₁ n x next = record {
        ne_null = u.points.ne_null;
        holds = rw not_prev u.points.holds;
      } in
      let f₂ : Ptr → Option LruEntry = write f₁ n (some (node_of x null)) in
      let chain : Seg node_of f₂ h (((c, d) ∷ xs) ++ y ∷ ys) =
        frame-write n (some (node_of x null)) u.chain u.out in
      let ends : EndsAt (((c, d) ∷ xs) ++ y ∷ ys) t =
        transport (sym (EndsAt-append ((c, d) ∷ xs) y ys t)) at_end in
      let l = EndsWith-Last (c, d) (xs ++ y ∷ ys) t chain ends in
      record {
        final = record {
          list = record (s.list) { tail = n };
          nodes = write f₂ t (some (node_of l.item n));
        };
        run =
            rw
              (
                Points-not_null u.points,
                not_head,
                not_tail,
                node_at-Points s u.points,
                set_next-Points s u.before next,
                set_next-Points (with_nodes s f₁) points₁ null,
                set_next-Points (with_nodes s f₂) l.points n,
              )
              refl;
        valid = record {
          chain =
              snoc-Seg (c, d) (xs ++ y ∷ ys) t l.item n x chain l.ends
                (record {
                  ne_null = u.points.ne_null;
                  holds = write-same f₁ n (some (node_of x null));
                })
                u.out;
          count = moved_count s.list.size ((c, d) ∷ xs) n x y ys is.count;
          ends = EndsAt-snoc ((c, d) ∷ (xs ++ y ∷ ys)) n x;
        };
      }
