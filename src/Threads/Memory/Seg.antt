-- ===== src/Threads/Memory/Seg.antt =====
-- threads/thread.c: chains of list nodes.
pub use ece344_operating_systems.Base.Chain.{
  has, nil, cons, EndsAt, EndsWith, has-append, EndsAt-snoc, EndsAt-tail, EndsAt-append, has-EndsAt,
  frame, frame-write, null_of_nil, not_null_of_cons, Points-not_null, last-Seg, first-Seg,
  middle-Seg,
}
use ece344_operating_systems.Base.{◌≡◌, false, Option, some, [], ◌∷◌, ◌++◌, arith}
use ece344_operating_systems.Base.Chain
use ece344_operating_systems.Base.Chain.{Unsnoc, Uncons}
use ece344_operating_systems.Threads.Memory.{Ptr, null, Node, write}

-- What a queue stands for: the address of each node and its thread, from head to tail.
abbrev pub Cells : Type 0
Cells = Chain.Cells Ptr

abbrev pub Nodes : Type 0
Nodes = Ptr → Option Node

abbrev pub node_of : Ptr → Ptr → Node
node_of th next = record { thread = th; next = next }

abbrev pub link : Ptr → Ptr → Option Node
link th next = some (node_of th next)

-- The node at `p` holds the thread `th` and the successor `next`.
abbrev pub Points : Nodes → Ptr → Ptr → Ptr → Type 0
Points = Chain.Points node_of

-- From `p` the nodes `xs`, all different, lead to NULL.
abbrev pub Seg : Nodes → Ptr → Cells → Type 0
Seg = Chain.Seg node_of

EndsWith-Points :
    {f : Nodes} {p : Ptr} (x : Ptr × Ptr) (xs : Cells) (t th : Ptr)
    → Seg f p (x ∷ xs)
    → EndsAt (x ∷ xs) t
    → Points f t th null
    → EndsWith x xs t th
EndsWith-Points (a, b) [] t th (cons e out s) end last =
    (end, ground (arith, end, e.holds, last.holds))
EndsWith-Points x (y ∷ xs) t th (cons e out s) end last = EndsWith-Points y xs t th s end last

-- A node behind the last one, which is linked to it.
pub snoc-Seg :
    {f : Nodes} {p : Ptr} (x : Ptr × Ptr) (xs : Cells) (t th node th' : Ptr)
    → Seg f p (x ∷ xs)
    → EndsAt (x ∷ xs) t
    → Points f t th null
    → Points f node th' null
    → has node (x ∷ xs) ≡ false
    → Seg (write f t (link th node)) p ((x ∷ xs) ++ (node, th') ∷ [])
snoc-Seg x xs t th node th' s end last new fresh =
    Chain.snoc-Seg x xs t th node th' s (EndsWith-Points x xs t th s end last) new fresh
