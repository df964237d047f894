-- ===== src/Threads/Queue/Front.antt =====
-- threads/thread.c: move_to_head.
use mathlib.Core.Path.{subst, transport}
use mathlib.Core.List.{append-nil}
use ece344_operating_systems.Base.{
  suc, ◌+◌, ◌≡◌, refl, sym, true, false, [], ◌∷◌, ◌++◌, arith, ◌==◌, leb, if◌then◌else◌, length,
  length-append,
}
use ece344_operating_systems.Threads.Memory.{Ptr, write}
use ece344_operating_systems.Threads.Memory.Seg.{
  Cells, Nodes, link, has, Points, cons, EndsAt, has-append, EndsAt-append, has-EndsAt, frame-write,
  first-Seg,
}
use ece344_operating_systems.Base.Chain.Unlink.{head_of, unlink-Seg}
use ece344_operating_systems.Threads.Queue.{WaitQueue, Queued, move_to_head}
use ece344_operating_systems.Threads.Queue.Ends.{
  IsQueue, moved, node_at-Points, set_next-Points, Becomes,
}

-- The tail of the queue behind the move of `n`, a node behind `prev`, to the front.
front-EndsAt :
    (x : Ptr × Ptr) (xs : Cells) (prev n thn : Ptr) (ys : Cells) (t : Ptr)
    → EndsAt ((x ∷ xs) ++ (n, thn) ∷ ys) t
    → EndsAt (x ∷ xs) prev
    → has n ((x ∷ xs) ++ ys) ≡ false
    → EndsAt ((n, thn) ∷ (x ∷ xs) ++ ys) (if t == n then prev else t)
front-EndsAt x xs prev n thn [] t end end' out =
    let at_n : t ≡ n = transport (EndsAt-append (x ∷ xs) (n, thn) [] t) end in
    let e : (t == n) ≡ true = ground (arith, at_n) in
    rw e (subst (λ zs. EndsAt (x ∷ zs) prev) (sym (append-nil xs)) end')
front-EndsAt x xs prev n thn (y ∷ ys) t end end' out =
    let at_end : EndsAt (y ∷ ys) t = transport (EndsAt-append (x ∷ xs) (n, thn) (y ∷ ys) t) end in
    let e : (t == n) ≡ false =
      ground (arith, has-EndsAt y ys t at_end, has-append n (x ∷ xs) (y ∷ ys), out) in
    rw e (transport (sym (EndsAt-append (x ∷ xs) y ys t)) at_end)

-- move_to_head brings a node, given with the one before it, to the front of the queue.
pub move_to_head-Becomes :
    (s : Queued) (x : Ptr × Ptr) (xs : Cells) (prev n thn : Ptr) (ys : Cells)
    → IsQueue s.memory.nodes s.queue ((x ∷ xs) ++ (n, thn) ∷ ys)
    → EndsAt (x ∷ xs) prev
    → Becomes s ((x ∷ xs) ++ (n, thn) ∷ ys) ((n, thn) ∷ (x ∷ xs) ++ ys) tt (move_to_head n prev s)
unfolding move_to_head
move_to_head-Becomes s (a, b) xs prev n thn ys is end =
    let h = s.queue.head in
    let u = unlink-Seg (a, b) xs prev n thn ys is.chain end in
    let first = first-Seg a b (xs ++ (n, thn) ∷ ys) is.chain in
    let counted : length ((a, b) ∷ xs ++ (n, thn) ∷ ys) ≡ suc (length xs + suc (length ys)) =
      omega (arith, length-append {0} ((a, b) ∷ xs) ((n, thn) ∷ ys)) in
    let many : leb s.queue.size 1 ≡ false = ground (arith, is.count, counted) in
    let not_head : (n == h) ≡ false = ground (arith, u.out, first.at_head) in
    let apart : (n == prev) ≡ false =
      ground (arith, u.inside, u.out, has-append n ((a, b) ∷ xs) ys) in
    let f₁ : Nodes = write s.memory.nodes prev (link u.item (head_of ys)) in
    let points₁ : Points f₁ n thn (head_of ys) = ground (arith, u.points, apart) in
    let f₂ : Nodes = write f₁ n (link thn h) in
    let q : WaitQueue = record (s.queue) {
      head = n;
      tail = if s.queue.tail == n then prev else s.queue.tail;
    } in
    record {
      nodes = f₂;
      queue = q;
      run =
          rw
            (
              many,
              not_head,
              node_at-Points s u.points,
              set_next-Points s u.before (head_of ys),
              set_next-Points (moved s f₁ s.queue) points₁ h,
            )
            refl;
      valid = record {
        chain = cons (ground (arith, u.points)) u.out (frame-write n (link thn h) u.chain u.out);
        count = omega (arith, is.count, counted, length-append {0} ((a, b) ∷ xs) ys);
        ends = front-EndsAt (a, b) xs prev n thn ys s.queue.tail is.ends end u.out;
      };
      outside = λ c out. ground (arith, out, u.inside, has-append c ((a, b) ∷ xs) ((n, thn) ∷ ys));
    }
