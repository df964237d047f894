-- ===== src/Fs/Inodes/Cached.antt =====
-- fs/inode.c: the invariant of the table of inodes, and lookups in it.
use ece344_operating_systems.Base.{
  ℕ, ◌≡◌, ◌∙◌, sym, ap, ◌≢◌, ◌⊎◌, inl, inr, refl, Bool, true, false, ◌||◌, Option, some, List, [],
  ◌∷◌, ◌==◌, Bool-cases, arith,
}
use ece344_operating_systems.Base.Run.{Run, ok}
use ece344_operating_systems.Base.Store.{Ptr, null, write}
use ece344_operating_systems.Fs.File.{Inode}
use ece344_operating_systems.Fs.Hlist.{Hlists}
use ece344_operating_systems.Fs.Inodes.{
  Cache, found_table, find_loop, inode_hashfn, inode_hash_find,
}

abbrev pub is_in : Ptr → List Ptr → Bool
is_in p [] = false
is_in p (q ∷ qs) = (p == q) || is_in p qs

abbrev pub Distinct : List Ptr → Type 0
Distinct [] = Unit
Distinct (p ∷ ps) = (is_in p ps ≡ false) × Distinct ps

-- At `p` is an inode with the number `nr`.
pub record Numbered (inodes : Ptr → Option Inode) (p : Ptr) (nr : ℕ) : Type 0 where
  pub node : Inode
  pub holds : inodes p ≡ some node
  pub number : node.i_nr ≡ nr

-- What is linked behind head `i` is an inode whose number has the hash value `i`.
pub record Linked (hash : ℕ → ℕ) (inodes : Ptr → Option Inode) (i : ℕ) (p : Ptr) : Type 0 where
  pub nr : ℕ
  pub numbered : Numbered inodes p nr
  pub bucket : hash nr ≡ i
  pub ne_null : p ≢ null

-- The table is there, what it links are inodes in their places, each once, and no two of them have
-- the same number.
pub record IsCached {Heads : Type 0} (api : Hlists Heads) (h : Heads) (s : Cache Heads)
    : Type 0 where
  pub table : s.table ≡ some h
  pub linked :
      (i : ℕ) (p : Ptr) → is_in p (api.nodes h i) ≡ true → Linked (inode_hashfn api) s.inodes i p
  pub distinct : (i : ℕ) → Distinct (api.nodes h i)
  pub unique :
      (i nr : ℕ) (p q : Ptr)
      → is_in p (api.nodes h i) ≡ true
      → is_in q (api.nodes h i) ≡ true
      → Numbered s.inodes p nr
      → Numbered s.inodes q nr
      → p ≡ q

pub same_number :
    {inodes : Ptr → Option Inode} {p : Ptr} {a b : ℕ}
    → Numbered inodes p a
    → Numbered inodes p b
    → a ≡ b
same_number m n =
    let nodes : m.node ≡ n.node = cc in sym m.number ∙ ap (λ i. i.i_nr) nodes ∙ n.number

-- An inode takes the place of another with the same number.
pub Numbered-write :
    {inodes : Ptr → Option Inode} {old : Inode} (p : Ptr) (new : Inode) (q : Ptr) (nr : ℕ)
    → inodes p ≡ some old
    → new.i_nr ≡ old.i_nr
    → Numbered inodes q nr
    → Numbered (write inodes p (some new)) q nr
Numbered-write {old} p new q nr at same n = elim (Bool-cases (q == p)) [
  | inl e ↦
      let here : q ≡ p = ground (arith, e) in
      let numbers : nr ≡ old.i_nr =
        same_number (rw here at n) (record { node = old; holds = at; number = refl }) in
      record { node = new; holds = rw e refl; number = same ∙ sym numbers }
  | inr e ↦ record { node = n.node; holds = rw e n.holds; number = n.number }
]

pub Numbered-unwrite :
    {inodes : Ptr → Option Inode} {old : Inode} (p : Ptr) (new : Inode) (q : Ptr) (nr : ℕ)
    → inodes p ≡ some old
    → new.i_nr ≡ old.i_nr
    → Numbered (write inodes p (some new)) q nr
    → Numbered inodes q nr
Numbered-unwrite {inodes} {old} p new q nr at same n = elim (Bool-cases (q == p)) [
  | inl e ↦
      let here : q ≡ p = ground (arith, e) in
      let nodes : new ≡ n.node = ground (arith, n.holds, e) in
      record {
        node = old;
        holds = rw here at;
        number = sym same ∙ ap (λ i. i.i_nr) nodes ∙ n.number;
      }
  | inr e ↦ record { node = n.node; holds = rw e at n.holds; number = n.number }
]

-- A lookup returns the inode with the number or, where there is none, NULL.
abbrev pub Finds : {Heads : Type 0} → List Ptr → ℕ → Cache Heads → Run (Cache Heads) Ptr → Type 0
Finds ps nr s r =
    ((p : Ptr) × (is_in p ps ≡ true) × Numbered s.inodes p nr × (r ≡ ok p s))
    ⊎ ((r ≡ ok null s)
        × ((p : Ptr) (m : ℕ) → is_in p ps ≡ true → Numbered s.inodes p m → (m == nr) ≡ false))

pub find_loop-Finds :
    {Heads : Type 0} (ps : List Ptr) (nr : ℕ) (s : Cache Heads)
    → ((p : Ptr) → is_in p ps ≡ true → (m : ℕ) × Numbered s.inodes p m)
    → Finds ps nr s (find_loop ps nr s)
unfolding find_loop
find_loop-Finds [] nr s all = inr (refl, λ p m i. ground arith)
find_loop-Finds (p ∷ ps) nr s all =
    let here = all p (ground arith) in
    let rest = find_loop-Finds ps nr s (λ q i. all q (ground (arith, i))) in
    elim (Bool-cases (here.1.node.i_nr == nr)) [
      | inl e ↦ inl (
        p,
        ground arith,
        record { node = here.1.node; holds = here.1.holds; number = ground (arith, e) },
        rw (here.1.holds, e) refl,
      )
      | inr e ↦ elim rest [
        | inl (q, i, n, run) ↦ inl (q, ground (arith, i), n, rw (here.1.holds, e, run) refl)
        | inr (run, others) ↦ inr (
          rw (here.1.holds, e, run) refl,
          λ q m i n. elim (Bool-cases (q == p)) [
            | inl same ↦
                let at : q ≡ p = ground (arith, same) in
                let numbers : m ≡ here.1.node.i_nr =
                  same_number (rw at at n)
                    (record { node = here.1.node; holds = here.1.holds; number = refl }) in
                ground (arith, numbers, e)
            | inr other ↦ others q m (ground (arith, i, other)) n
          ],
        )
      ]
    ]

module _ {Heads : Type 0} {api : Hlists Heads} {h : Heads} {s : Cache Heads}
    (c : IsCached api h s) where
  inode_hash_find-loop :
      (nr : ℕ) → inode_hash_find api nr s ≡ find_loop (api.nodes h (inode_hashfn api nr)) nr s
  unfolding inode_hash_find
  inode_hash_find-loop nr =
      ap (λ t. found_table (λ g. find_loop (api.nodes g (inode_hashfn api nr)) nr) t s) c.table

  pub inode_hash_find-Finds :
      (nr : ℕ) → Finds (api.nodes h (inode_hashfn api nr)) nr s (inode_hash_find api nr s)
  inode_hash_find-Finds nr = rw (inode_hash_find-loop nr) (
      find_loop-Finds (api.nodes h (inode_hashfn api nr)) nr s
        (λ p i. let l = c.linked (inode_hashfn api nr) p i in (l.nr, l.numbered)))
