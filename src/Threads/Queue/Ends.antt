-- ===== src/Threads/Queue/Ends.antt =====
-- threads/thread.c: appending to and popping from a queue.
use ece344_operating_systems.Base.{
  ◌+◌, ◌-◌, ◌≡◌, refl, true, false, [], ◌∷◌, ◌++◌, arith, ◌==◌, length, length-append, ap,
}
use ece344_operating_systems.Base.Run.{Run, ok}
use ece344_operating_systems.Threads.Memory.{Ptr, null, write, is_null}
use ece344_operating_systems.Threads.Memory.Seg.{
  Cells, Nodes, link, has, Points, Seg, nil, cons, EndsAt, EndsAt-snoc, EndsAt-tail, frame,
  frame-write, last-Seg, snoc-Seg, null_of_nil, not_null_of_cons, Points-not_null, first-Seg,
}
use ece344_operating_systems.Threads.Queue.{
  WaitQueue, Queued, node_at, set_next, append_node_to_queue, pop_queue,
}

-- A queue holds the cells `xs`.
pub record IsQueue (f : Nodes) (q : WaitQueue) (xs : Cells) : Type 0 where
  pub chain : Seg f q.head xs
  pub count : q.size ≡ length xs
  pub ends : EndsAt xs q.tail

-- A queue survives a change that spares its nodes.
pub IsQueue-frame :
    {f : Nodes} {q : WaitQueue} {xs : Cells} (g : Nodes)
    → IsQueue f q xs
    → ((a : Ptr) → has a xs ≡ true → g a ≡ f a)
    → IsQueue g q xs
IsQueue-frame g is same = record { chain = frame g is.chain same; count = is.count; ends = is.ends }

-- The state with other nodes and another queue.
abbrev pub moved : Queued → Nodes → WaitQueue → Queued
moved s f q = record { memory = record (s.memory) { nodes = f }; queue = q }

module _ (s : Queued) {p th next : Ptr} (e : Points s.memory.nodes p th next) where
  pub node_at-Points : node_at p s ≡ ok (record { thread = th; next = next }) s
  unfolding node_at
  node_at-Points = rw (Points-not_null e, e.holds) refl

  pub set_next-Points :
      (r : Ptr) → set_next p r s ≡ ok tt (moved s (write s.memory.nodes p (link th r)) s.queue)
  unfolding set_next
  set_next-Points r = rw node_at-Points refl

-- A run that makes the queue's cells `xs` to `ys`, and touches no other node.
pub record Becomes {A : Type 0} (s : Queued) (xs ys : Cells) (a : A) (r : Run Queued A)
    : Type 0 where
  pub nodes : Nodes
  pub queue : WaitQueue
  pub run : r ≡ ok a (moved s nodes queue)
  pub valid : IsQueue nodes queue ys
  pub outside : (p : Ptr) → has p xs ≡ false → nodes p ≡ s.memory.nodes p

-- append_node_to_queue puts a node that is not in the queue, and has no successor, at its end.
pub append_node_to_queue-Becomes :
    (s : Queued) (xs : Cells) (node th : Ptr)
    → IsQueue s.memory.nodes s.queue xs
    → Points s.memory.nodes node th null
    → has node xs ≡ false
    → Becomes s xs (xs ++ (node, th) ∷ []) tt (append_node_to_queue node s)
unfolding append_node_to_queue
append_node_to_queue-Becomes s [] node th is new fresh =
    let e : is_null s.queue.head ≡ true = ground (arith, null_of_nil is.chain) in
    record {
      nodes = s.memory.nodes;
      queue = record { size = s.queue.size + 1; head = node; tail = node };
      run = rw e refl;
      valid = record { chain = cons new refl nil; count = omega (arith, is.count); ends = refl };
      outside = λ p out. refl;
    }
append_node_to_queue-Becomes s (x ∷ xs) node th is new fresh =
    let l = last-Seg x xs s.queue.tail is.chain is.ends in
    let apart : (node == s.queue.tail) ≡ false = ground (arith, l.inside, fresh) in
    let h : is_null s.queue.head ≡ false = not_null_of_cons is.chain in
    let f : Nodes = write s.memory.nodes s.queue.tail (link l.item node) in
    let linked : Points f s.queue.tail l.item node = ground (arith, l.points) in
    record {
      nodes = f;
      queue = record { size = s.queue.size + 1; head = s.queue.head; tail = node };
      run = rw (h, set_next-Points s l.points node, node_at-Points (moved s f s.queue) linked) refl;
      valid = record {
        chain = snoc-Seg x xs s.queue.tail l.item node th is.chain is.ends l.points new fresh;
        count = omega (arith, is.count, length-append {0} (x ∷ xs) ((node, th) ∷ []));
        ends = EndsAt-snoc (x ∷ xs) node th;
      };
      outside = λ p out. ground (arith, l.inside, out);
    }

-- A popped node and what is left.
pub record Pops (s : Queued) (p th : Ptr) (xs : Cells) (r : Run Queued Ptr) : Type 0 where
  pub nodes : Nodes
  pub queue : WaitQueue
  pub run : r ≡ ok p (moved s nodes queue)
  pub valid : IsQueue nodes queue xs
  pub points : Points nodes p th null
  pub outside : (a : Ptr) → (a == p) ≡ false → nodes a ≡ s.memory.nodes a

pub pop_queue-Pops :
    (s : Queued) (p th : Ptr) (xs : Cells)
    → IsQueue s.memory.nodes s.queue ((p, th) ∷ xs)
    → Pops s p th xs (pop_queue s)
unfolding pop_queue
pop_queue-Pops s p th xs is =
    let a = first-Seg p th xs is.chain in
    let f : Nodes = write s.memory.nodes s.queue.head (link th null) in
    record {
      nodes = f;
      queue = record (s.queue) { head = a.next; size = s.queue.size - 1 };
      run =
          rw (node_at-Points s a.points, set_next-Points s a.points null)
            (ap
              (λ b. ok b (moved s f (record (s.queue) { head = a.next; size = s.queue.size - 1 })))
              a.at_head);
      valid = record {
        chain = frame-write s.queue.head (link th null) a.rest a.out;
        count = omega (arith, is.count);
        ends = EndsAt-tail (p, th) xs s.queue.tail is.ends;
      };
      points = ground (arith, a.points, a.at_head);
      outside = λ b out. ground (arith, out, a.at_head);
    }
