-- ===== src/Fs/Inodes/Puts.antt =====
-- fs/inode.c: testfs_put_inode.
use ece344_operating_systems.Base.{
  ℕ, ◌+◌, ◌%◌, ◌^◌, ◌≡◌, ◌≢◌, ◌⊎◌, inl, inr, refl, true, false, none, some, List, [], ◌∷◌, ◌==◌,
  Bool-cases, arith,
}
use ece344_operating_systems.Base.Run.{Run, ok, halt, aborted}
use ece344_operating_systems.Base.Store.{Ptr, write}
use ece344_operating_systems.Fs.Super.{minus_one}
use ece344_operating_systems.Fs.File.{Inode}
use ece344_operating_systems.Fs.Hlist.{Hlists, IsHlists, remove}
use ece344_operating_systems.Fs.Inodes.{Cache, inode_hash_remove, put_inode}
use ece344_operating_systems.Fs.Inodes.Cached.{is_in, Distinct, Numbered, IsCached}
use ece344_operating_systems.Fs.Inodes.Links.{hold, hold-IsCached}

is_in-remove : (p q : Ptr) (ps : List Ptr) → is_in q (remove p ps) ≡ true → is_in q ps ≡ true
is_in-remove p q [] i = i
is_in-remove p q (a ∷ ps) i = elim (Bool-cases (p == a)) [
  | inl e ↦ let rest : is_in q ps ≡ true = rw e at i in ground (arith, rest)
  | inr e ↦
      let rest : is_in q (a ∷ remove p ps) ≡ true = rw e at i in
      elim (Bool-cases (q == a)) [
        | inl here ↦ ground (arith, here)
        | inr there ↦ ground (arith, is_in-remove p q ps (ground (arith, rest, there)), there)
      ]
]

remove-not_in : (p : Ptr) (ps : List Ptr) → Distinct ps → is_in p (remove p ps) ≡ false
remove-not_in p [] d = refl
remove-not_in p (a ∷ ps) d = elim (Bool-cases (p == a)) [
  | inl e ↦ let at : p ≡ a = ground (arith, e) in rw e (rw at d.0)
  | inr e ↦ rw (e, e) (remove-not_in p ps d.1)
]

remove-Distinct : (p : Ptr) (ps : List Ptr) → Distinct ps → Distinct (remove p ps)
remove-Distinct p [] d = tt
remove-Distinct p (a ∷ ps) d = elim (Bool-cases (p == a)) [
  | inl e ↦ rw e d.1
  | inr e ↦ rw e (
    elim (Bool-cases (is_in a (remove p ps))) [
      | inl i ↦ ground (arith, is_in-remove p a ps i, d.0)
      | inr i ↦ i
    ],
    remove-Distinct p ps d.1,
  )
]

pub remove-absent : (p : Ptr) (ps : List Ptr) → is_in p ps ≡ false → remove p ps ≡ ps
remove-absent p [] i = refl
remove-absent p (a ∷ ps) i = elim (Bool-cases (p == a)) [
  | inl e ↦ ground (arith, e, i)
  | inr e ↦ rw (e, remove-absent p ps (ground (arith, e, i))) refl
]

-- One reference less.
abbrev pub uncounted : Inode → Inode
uncounted i = record i { i_count = (i.i_count + minus_one) % 2 ^ 32 }

-- The cache without the inode at `p`.
abbrev pub dropped :
    {Heads : Type 0} → Hlists Heads → Heads → Cache Heads → Ptr → Inode → Cache Heads
dropped api h s p node = record {
  super = s.super;
  table = some (api.hlist_del p h);
  inodes = write (write s.inodes p (some (uncounted node))) p none;
}

-- The last reference unlinks and frees the inode, another one is counted down.
abbrev pub Puts :
    {Heads : Type 0}
    → Hlists Heads
    → Heads
    → Cache Heads
    → Ptr
    → Inode
    → Run (Cache Heads) (Unit {0})
    → Type 0
Puts api h s p node r =
    (((uncounted node).i_count ≡ 0)
      × (r ≡ ok tt (dropped api h s p node))
      × IsCached api (api.hlist_del p h) (dropped api h s p node))
    ⊎ (((uncounted node).i_count ≢ 0)
        × (r ≡ ok tt (hold s p (uncounted node)))
        × IsCached api h (hold s p (uncounted node)))

module _ {Heads : Type 0} {api : Hlists Heads} {h : Heads} {s : Cache Heads}
    (c : IsCached api h s) where
  module _ (laws : IsHlists api) (p : Ptr) (node : Inode) (at : s.inodes p ≡ some node) where
    still_in :
        (q : Ptr) (j : ℕ)
        → is_in q (api.nodes (api.hlist_del p h) j) ≡ true
        → is_in q (api.nodes h j) ≡ true
    still_in q j i = is_in-remove p q (api.nodes h j) (rw (laws.nodes-del p j h) at i)

    other_than :
        (q : Ptr) (j : ℕ) → is_in q (api.nodes (api.hlist_del p h) j) ≡ true → (q == p) ≡ false
    other_than q j i = elim (Bool-cases (q == p)) [
      | inl e ↦
          let here : q ≡ p = ground (arith, e) in
          let gone : is_in p (api.nodes (api.hlist_del p h) j) ≡ false =
            rw (laws.nodes-del p j h) (remove-not_in p (api.nodes h j) (c.distinct j)) in
          let there : is_in p (api.nodes (api.hlist_del p h) j) ≡ true = rw here at i in
          ground (arith, gone, there)
      | inr e ↦ e
    ]

    before :
        (q m : ℕ)
        → (q == p) ≡ false
        → Numbered (dropped api h s p node).inodes q m
        → Numbered s.inodes q m
    before q m ne n = record { node = n.node; holds = rw ne at n.holds; number = n.number }

    dropped-IsCached : IsCached api (api.hlist_del p h) (dropped api h s p node)
    dropped-IsCached = record {
      table = refl;
      linked = λ j q i.
          let l = c.linked j q (still_in q j i) in
          record {
            nr = l.nr;
            numbered = record {
              node = l.numbered.node;
              holds = rw (other_than q j i) l.numbered.holds;
              number = l.numbered.number;
            };
            bucket = l.bucket;
            ne_null = l.ne_null;
          };
      distinct = λ j. rw (laws.nodes-del p j h) (remove-Distinct p (api.nodes h j) (c.distinct j));
      unique = λ j m a b ia ib na nb.
          c.unique j m a b (still_in a j ia) (still_in b j ib) (before a m (other_than a j ia) na)
            (before b m (other_than b j ib) nb);
    }

    -- testfs_put_inode of a clean inode, with lists that do what they promise, keeps the table in
    -- order: where its count comes to 0 it is unlinked and freed, else it stays with one reference
    -- less.
    pub put_inode-Puts : node.dirty ≡ false → Puts api h s p node (put_inode api p s)
    unfolding put_inode inode_hash_remove
    put_inode-Puts clean = elim (Bool-cases ((uncounted node).i_count == 0)) [
      | inl e ↦ inl (ground (arith, e), rw (at, clean, e, c.table) refl, dropped-IsCached)
      | inr e ↦ inr (
        ground (arith, e),
        rw (at, clean, e) refl,
        hold-IsCached c p node (uncounted node) at refl,
      )
    ]

    pub put_inode-dirty : node.dirty ≡ true → put_inode api p s ≡ halt aborted
    unfolding put_inode
    put_inode-dirty dirty = rw (at, dirty) refl
