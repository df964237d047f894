-- ===== src/Threads/Queue/Rotate.antt =====
-- threads/thread.c: move_head_to_end.
use mathlib.Core.Path.{subst}
use ece344_operating_systems.Base.{
  ◌≡◌, refl, true, false, [], ◌∷◌, ◌++◌, arith, ◌==◌, leb, length-append,
}
use ece344_operating_systems.Base.Run.{ok}
use ece344_operating_systems.Threads.Memory.{Ptr, null, write}
use ece344_operating_systems.Threads.Memory.Seg.{
  Cells, Nodes, link, Points, Seg, EndsAt, EndsAt-snoc, frame, frame-write, last-Seg, snoc-Seg,
  first-Seg,
}
use ece344_operating_systems.Threads.Queue.{WaitQueue, Queued, move_head_to_end}
use ece344_operating_systems.Threads.Queue.Ends.{
  IsQueue, moved, node_at-Points, set_next-Points, Becomes,
}

-- move_head_to_end on a queue of one cell changes nothing.
pub move_head_to_end-one :
    (s : Queued) (x : Ptr × Ptr)
    → IsQueue s.memory.nodes s.queue (x ∷ [])
    → move_head_to_end s ≡ ok tt s
unfolding move_head_to_end
move_head_to_end-one s x is =
    let e : leb s.queue.size 1 ≡ true = ground (arith, is.count) in rw e refl

-- move_head_to_end on a queue of two or more cells puts the first behind the others.
pub move_head_to_end-Becomes :
    (s : Queued) (p th : Ptr) (y : Ptr × Ptr) (ys : Cells)
    → IsQueue s.memory.nodes s.queue ((p, th) ∷ y ∷ ys)
    → Becomes s ((p, th) ∷ y ∷ ys) (y ∷ ys ++ (p, th) ∷ []) tt (move_head_to_end s)
unfolding move_head_to_end
move_head_to_end-Becomes s p th y ys is =
    let e : leb s.queue.size 1 ≡ false = ground (arith, is.count) in
    let h = s.queue.head in
    let t = s.queue.tail in
    let a = first-Seg p th (y ∷ ys) is.chain in
    let l = last-Seg y ys t a.rest is.ends in
    let apart : (t == h) ≡ false = ground (arith, l.inside, a.out) in
    let f₁ : Nodes = write s.memory.nodes t (link l.item h) in
    let q : WaitQueue = record (s.queue) { head = a.next; tail = h } in
    let points₁ : Points f₁ h th a.next = ground (arith, a.points, apart) in
    let f₂ : Nodes = write f₁ h (link th null) in
    let g : Nodes = write s.memory.nodes h (link th null) in
    let chain : Seg (write g t (link l.item h)) a.next (y ∷ ys ++ (h, th) ∷ []) =
      snoc-Seg y ys t l.item h th (frame-write h (link th null) a.rest a.out) is.ends
        (ground (arith, l.points, apart)) (ground (arith, a.points)) a.out in
    record {
      nodes = f₂;
      queue = q;
      run =
          rw
            (
              e,
              node_at-Points s a.points,
              set_next-Points s l.points h,
              set_next-Points (moved s f₁ s.queue) points₁ null,
            )
            refl;
      valid = record {
        chain = rw⁻¹ a.at_head (frame f₂ chain (λ b i. ground (arith, apart)));
        count = omega (arith, is.count, length-append {0} (y ∷ ys) ((p, th) ∷ []));
        ends = subst (λ b. EndsAt (y ∷ ys ++ (b, th) ∷ []) h) a.at_head (EndsAt-snoc (y ∷ ys) h th);
      };
      outside = λ b out. ground (arith, l.inside, out, a.at_head);
    }
