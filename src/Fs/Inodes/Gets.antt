-- ===== src/Fs/Inodes/Gets.antt =====
-- fs/inode.c: testfs_get_inode.
use ece344_operating_systems.Base.{
  ℕ, ◌<◌, ◌≡◌, ◌≢◌, ◌⊎◌, inl, inr, refl, true, false, none, some, ◌==◌, arith,
}
use ece344_operating_systems.Base.Run.{Run, ok}
use ece344_operating_systems.Base.Store.{Ptr, null}
use ece344_operating_systems.Fs.File.{Dinode, Inode}
use ece344_operating_systems.Fs.Hlist.{Hlists, IsHlists}
use ece344_operating_systems.Fs.Dinode.{load_inode}
use ece344_operating_systems.Fs.Dinode.Codec.{Same}
use ece344_operating_systems.Fs.Dinode.Sync.{HasInodes, on_disk, load_inode_lem}
use ece344_operating_systems.Fs.Inodes.{
  Cache, zero_dinode, inode_hashfn, inode_hash_find, inode_hash_insert, get_inode,
}
use ece344_operating_systems.Fs.Inodes.Cached.{
  is_in, Numbered, IsCached, Numbered-write, inode_hash_find-Finds,
}
use ece344_operating_systems.Fs.Inodes.Links.{
  counted, hold, loaded, linked_new, hold-IsCached, linked_new-IsCached,
}

module _ {Heads : Type 0} {api : Hlists Heads} {h : Heads} {s : Cache Heads}
    (c : IsCached api h s) where
  -- What holds an inode of the same number keeps the table.
  get_inode-held :
      (nr new p : ℕ) (node : Inode)
      → inode_hash_find api nr s ≡ ok p s
      → s.inodes p ≡ some node
      → (p == null) ≡ false
      → get_inode api nr new s ≡ ok p (hold s p (counted node))
  unfolding get_inode
  get_inode-held nr new p node find at ne = rw (find, ne, at) refl

  get_inode-fresh :
      (nr new : ℕ) (din : Dinode)
      → inode_hash_find api nr s ≡ ok null s
      → (new == null) ≡ false
      → load_inode (record { node = loaded nr zero_dinode; super = s.super })
        ≡ ok tt (record { node = loaded nr din; super = s.super })
      → get_inode api nr new s ≡ ok new (linked_new api h s nr new din)
  unfolding get_inode inode_hash_insert
  get_inode-fresh nr new din find ne load =
      let here : (new == new) ≡ true = ground arith in rw (find, ne, here, load, here, c.table) refl
  -- What is linked behind head `j` once `new` is added behind `i`.

-- The outcome.
pub record Gets {Heads : Type 0} (api : Hlists Heads) (s : Cache Heads) (nr : ℕ) (new : Ptr)
    (r : Run (Cache Heads) Ptr) : Type 0 where
  pub p : Ptr
  pub after : Cache Heads
  pub h : Heads
  pub run : r ≡ ok p after
  pub cached : IsCached api h after
  pub linked : is_in p (api.nodes h (inode_hashfn api nr)) ≡ true
  pub numbered : Numbered after.inodes p nr
  pub others : (q : Ptr) → (q == p) ≡ false → after.inodes q ≡ s.inodes q
  pub super : after.super ≡ s.super
  pub source :
      ((i : Inode) × (s.inodes p ≡ some i) × (after.inodes p ≡ some (counted i)))
      ⊎ ((p ≡ new)
          × ((din : Dinode) × (after.inodes p ≡ some (loaded nr din))
              × Same din (on_disk s.super.dev nr)))

module _ {Heads : Type 0} {api : Hlists Heads} {h : Heads} {s : Cache Heads}
    (c : IsCached api h s) where
  -- testfs_get_inode of a number in range, where the inode blocks are on the device, the lists do
  -- what they promise and calloc gives a free address, keeps the table in order, with each linked
  -- inode once and no two of a number, and returns the linked inode of that number: the one that
  -- was linked already, with one reference more, or a new one at the address from calloc, with one
  -- reference and the fields that the device holds. Other inodes and the super block stay.
  pub get_inode-Gets :
      IsHlists api
      → (nr new : ℕ) → nr < 16384
      → HasInodes s.super
      → s.inodes new ≡ none
      → new ≢ null
      → Gets api s nr new (get_inode api nr new s)
  get_inode-Gets laws nr new lt disk fresh ne = elim (inode_hash_find-Finds c nr) [
    | inl (p, lk, n, run) ↦
        let not_null : (p == null) ≡ false =
          ground (arith, (c.linked (inode_hashfn api nr) p lk).ne_null) in
        record {
          p = p;
          after = hold s p (counted n.node);
          h = h;
          run = get_inode-held c nr new p n.node run n.holds not_null;
          cached = hold-IsCached c p n.node (counted n.node) n.holds refl;
          linked = lk;
          numbered = Numbered-write p (counted n.node) p nr n.holds refl n;
          others = λ q other. rw other refl;
          super = refl;
          source = inl (n.node, n.holds, ground arith);
        }
    | inr (run, absent) ↦
        let l =
          load_inode_lem (record { node = loaded nr zero_dinode; super = s.super }) nr refl lt
            disk in
        let not_null : (new == null) ≡ false = ground (arith, ne) in
        record {
          p = new;
          after = linked_new api h s nr new l.0;
          h = api.hlist_add_head new (inode_hashfn api nr) h;
          run = get_inode-fresh c nr new l.0 run not_null l.1;
          cached = linked_new-IsCached c laws nr new l.0 fresh ne absent;
          linked =
              rw (laws.nodes-add_head new (inode_hashfn api nr) (inode_hashfn api nr) h)
                (ground arith);
          numbered = record { node = loaded nr l.0; holds = ground arith; number = refl };
          others = λ q other. rw other refl;
          super = refl;
          source = inr (refl, (l.0, ground arith, l.2));
        }
  ]
