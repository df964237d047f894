-- ===== src/Fs/Inodes/Init.antt =====
-- fs/inode.c: inode_hash_init and inode_hash_destroy.
use ece344_operating_systems.Base.{
  ℕ, zero, suc, ◌+◌, ◌<◌, ◌≤◌, ◌≡◌, ◌⊎◌, inl, inr, refl, true, none, some, [], ◌==◌, leb,
  Bool-cases, arith,
}
use ece344_operating_systems.Base.Run.{ok}
use ece344_operating_systems.Fs.Hlist.{Hlists, IsHlists}
use ece344_operating_systems.Fs.Inodes.{
  Cache, init_loop, all_empty, inode_hash_init, inode_hash_destroy, inode_hash_size,
}
use ece344_operating_systems.Fs.Inodes.Cached.{IsCached}

module _ {Heads : Type 0} {api : Hlists Heads} (laws : IsHlists api) where
  init_loop-empty :
      (rounds i j : ℕ) (h : Heads)
      → (api.nodes h j ≡ []) ⊎ ((i ≤ j) × (j < i + rounds))
      → api.nodes (init_loop api rounds i h) j ≡ []
  unfolding init_loop
  init_loop-empty zero i j h (inl e) = e
  init_loop-empty zero i j h (inr (lo, hi)) = ground arith
  init_loop-empty (suc rounds) i j h e =
      init_loop-empty rounds (i + 1) j (api.init_hlist_head i h) (elim (Bool-cases (i == j)) [
        | inl here ↦ inl (rw (laws.nodes-init i j h, here) refl)
        | inr there ↦ elim e [
          | inl empty ↦ inl (rw (laws.nodes-init i j h, there) empty)
          | inr (lo, hi) ↦ inr (ground (arith, there), omega arith)
        ]
      ])

  pub init_heads-empty : (j : ℕ) → api.nodes (init_loop api inode_hash_size 0 api.new_heads) j ≡ []
  init_heads-empty j =
      init_loop-empty inode_hash_size 0 j api.new_heads (elim (Bool-cases (leb 256 j)) [
        | inl e ↦ inl (laws.nodes-outside j (ground (arith, e)))
        | inr e ↦ inr (omega arith, ground (arith, e))
      ])

  all_empty-true :
      (rounds i : ℕ) (h : Heads) → ((j : ℕ) → api.nodes h j ≡ []) → all_empty api rounds i h ≡ true
  unfolding all_empty
  all_empty-true zero i h e = refl
  all_empty-true (suc rounds) i h e = rw (e i) (all_empty-true rounds (i + 1) h e)

  -- inode_hash_destroy on a table of empty lists.
  pub inode_hash_destroy-empty :
      (s : Cache Heads) (h : Heads)
      → s.table ≡ some h
      → ((j : ℕ) → api.nodes h j ≡ [])
      → inode_hash_destroy api s ≡ ok tt (record s { table = none })
  unfolding inode_hash_destroy
  inode_hash_destroy-empty s h at empty = rw (at, all_empty-true inode_hash_size 0 h empty) refl

  -- inode_hash_init, with lists that do what they promise, makes a table that is in order, and
  -- inode_hash_destroy on it fails no assertion.
  pub inode_hash_init-IsCached :
      (s : Cache Heads)
      → (h : Heads) × (inode_hash_init api s ≡ ok tt (record s { table = some h }))
        × IsCached api h (record s { table = some h })
        × (inode_hash_destroy api (record s { table = some h }) ≡ ok tt (record s { table = none }))
  unfolding inode_hash_init inode_hash_destroy
  inode_hash_init-IsCached s =
      let h = init_loop api inode_hash_size 0 api.new_heads in
      (
        h,
        refl,
        record {
          table = refl;
          linked = λ i p lk. ground (arith, rw (init_heads-empty i) at lk);
          distinct = λ i. rw (init_heads-empty i) tt;
          unique = λ i nr p q lp lq np nq. ground (arith, rw (init_heads-empty i) at lp);
        },
        rw (all_empty-true inode_hash_size 0 h init_heads-empty) refl,
      )
