-- ===== src/Web/Lru/Ends.antt =====
-- webserver/server_thread.c: adding an entry to the LRU list.
use ece344_operating_systems.Base.{
  ◌+◌, ◌≡◌, refl, ap, ◌∙◌, true, false, Option, some, [], ◌∷◌, ◌++◌, arith, ◌==◌, length,
  length-append,
}
use ece344_operating_systems.Base.Run.{Run, ok}
use ece344_operating_systems.Base.Store.{Ptr, null, write, write-same, is_null}
use ece344_operating_systems.Base.Chain.{
  Cells, has, Points, Seg, nil, cons, EndsAt, EndsAt-snoc, frame-write, has-EndsWith, has-ne,
  EndsWith-Last, snoc-Seg, null_of_nil, not_null_of_cons, Points-not_null,
}
use ece344_operating_systems.Web.Lru.{LruEntry, Lru, node_at, set_next, add_to_lru}

-- What a node refers to: an entry, and whatever `A` that entry stands for.
abbrev pub node_of : {A : Type 0} → Ptr × A → Ptr → LruEntry
node_of x next = record { entry = x.0; next = next }

-- The list and its nodes hold the cells `xs`.
pub record IsLru {A : Type 0} (s : Lru) (xs : Cells (Ptr × A)) : Type 0 where
  pub chain : Seg node_of s.nodes s.list.head xs
  pub count : s.list.size ≡ length xs
  pub ends : EndsAt xs s.list.tail

-- A run with the answer `a` that leaves the list with the cells `ys`.
pub record Leaves {A B : Type 0} (ys : Cells (Ptr × A)) (a : B) (r : Run Lru B) : Type 0 where
  pub final : Lru
  pub run : r ≡ ok a final
  pub valid : IsLru final ys

pub Leaves-by :
    {A B : Type 0} {ys : Cells (Ptr × A)} {a : B} {r r' : Run Lru B}
    → r ≡ r'
    → Leaves ys a r'
    → Leaves ys a r
Leaves-by e l = record { final = l.final; run = e ∙ l.run; valid = l.valid }

pub Leaves-answer :
    {A B : Type 0} {ys : Cells (Ptr × A)} {a b : B} {r : Run Lru B}
    → a ≡ b
    → Leaves ys a r
    → Leaves ys b r
Leaves-answer e l = record {
  final = l.final;
  run = l.run ∙ ap (λ c. ok c l.final) e;
  valid = l.valid;
}

abbrev pub with_nodes : Lru → (Ptr → Option LruEntry) → Lru
with_nodes s f = record s { nodes = f }

module _ {A : Type 0} (s : Lru) {p next : Ptr} {x : Ptr × A}
    (e : Points node_of s.nodes p x next) where
  pub node_at-Points : node_at p s ≡ ok (node_of x next) s
  unfolding node_at
  node_at-Points = rw (Points-not_null e, e.holds) refl

  pub set_next-Points :
      (r : Ptr) → set_next p r s ≡ ok tt (with_nodes s (write s.nodes p (some (node_of x r))))
  unfolding set_next
  set_next-Points r = rw node_at-Points refl

module _ {A : Type 0} (s : Lru) (node : Ptr) (c : Ptr × A) (some_node : is_null node ≡ false) where
  abbrev stored : Ptr → Option LruEntry
  stored = write s.nodes node (some (node_of c null))

  new-Points : Points node_of stored node c null
  new-Points = record { ne_null = ground (arith, some_node); holds = ground arith }

  -- add_to_lru puts a fresh node for the entry behind the others.
  pub add_to_lru-Leaves :
      (xs : Cells (Ptr × A))
      → IsLru s xs
      → has node xs ≡ false
      → Leaves (xs ++ (node, c) ∷ []) tt (add_to_lru node (c.0) s)
  unfolding add_to_lru
  add_to_lru-Leaves [] is fresh =
      let e : is_null s.list.head ≡ true = ground (arith, null_of_nil is.chain) in
      record {
        final = record {
          list = record { head = node; tail = node; size = s.list.size + 1 };
          nodes = stored;
        };
        run = rw (some_node, e) refl;
        valid = record {
          chain = cons new-Points refl nil;
          count = omega (arith, is.count);
          ends = refl;
        };
      }
  add_to_lru-Leaves (x ∷ xs) is fresh =
      let t = s.list.tail in
      let s₁ = with_nodes s stored in
      let chain : Seg node_of stored s.list.head (x ∷ xs) =
        frame-write node (some (node_of c null)) is.chain fresh in
      let l = EndsWith-Last x xs t chain is.ends in
      let apart : (node == t) ≡ false =
        has-ne t node (x ∷ xs) (has-EndsWith x xs t l.item l.ends) fresh in
      let h : is_null s.list.head ≡ false = not_null_of_cons is.chain in
      let f : Ptr → Option LruEntry = write stored t (some (node_of l.item node)) in
      let linked : Points node_of f t l.item node = record {
        ne_null = l.points.ne_null;
        holds = write-same stored t (some (node_of l.item node));
      } in
      record {
        final = record {
          list = record { head = s.list.head; tail = node; size = s.list.size + 1 };
          nodes = f;
        };
        run =
            rw
              (
                some_node,
                h,
                set_next-Points s₁ l.points node,
                node_at-Points (with_nodes s f) linked,
              )
              refl;
        valid = record {
          chain = snoc-Seg x xs t l.item node c chain l.ends new-Points fresh;
          count = omega (arith, is.count, length-append {0} (x ∷ xs) ((node, c) ∷ []));
          ends = EndsAt-snoc (x ∷ xs) node c;
        };
      }
