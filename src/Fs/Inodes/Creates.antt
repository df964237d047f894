-- ===== src/Fs/Inodes/Creates.antt =====
-- fs/inode.c: testfs_create_inode.
use ece344_operating_systems.Base.{
  ℕ, ◌/◌, ◌<◌, ◌≤◌, ◌≡◌, ◌≢◌, inl, inr, refl, true, false, Option, none, some, leb, Bool-cases,
  arith,
}
use ece344_operating_systems.Base.Int.{ℤ, pos}
use ece344_operating_systems.Base.Run.{Run, ok}
use ece344_operating_systems.Base.Store.{Ptr, null}
use ece344_operating_systems.Fs.Bitmap.{Bitmap}
use ece344_operating_systems.Fs.Bitmap.Alloc.{taken, FirstFree, IsFull}
use ece344_operating_systems.Fs.Super.{SuperBlock, no_space, get_inode_freemap}
use ece344_operating_systems.Fs.Super.Inv.{IsMounted}
use ece344_operating_systems.Fs.Super.Alloc.{get_inode_freemap-GetsInode, put-get_inode}
use ece344_operating_systems.Fs.File.{Inode}
use ece344_operating_systems.Fs.Hlist.{Hlists, IsHlists}
use ece344_operating_systems.Fs.Dinode.Sync.{HasInodes}
use ece344_operating_systems.Fs.Inodes.{Cache, create_inode}
use ece344_operating_systems.Fs.Inodes.Cached.{IsCached}
use ece344_operating_systems.Fs.Inodes.Gets.{get_inode-Gets}
use ece344_operating_systems.Fs.Inodes.Links.{hold, hold-IsCached}

abbrev pub with_super : {Heads : Type 0} → Cache Heads → SuperBlock → Cache Heads
with_super s b = record s { super = b }

-- The inode with its type, and marked as not yet on the device.
abbrev pub typed : ℕ → Inode → Inode
typed type i = record i { din = record (i.din) { i_type = type }; dirty = true }

-- The three ends of testfs_create_inode: every inode is in use, the free one is not on the device,
-- and success.
pub data Creates {Heads : Type 0} (api : Hlists Heads) (inodes blocks : Bitmap) (s : Cache Heads)
    (type : ℕ) (r : Run (Cache Heads) (ℤ × Option Ptr)) : Type 0 where
  full : IsFull inodes → r ≡ ok (no_space, none) s → Creates api inodes blocks s type r
  beyond :
      (i : ℕ) (b : SuperBlock)
      → FirstFree inodes i
      → 16384 ≤ i
      → r ≡ ok (no_space, none) (with_super s b)
      → IsMounted inodes blocks b
      → b.sb ≡ s.super.sb
      → Creates api inodes blocks s type r
  created :
      (i : ℕ) (p : Ptr) (node : Inode) (h : Heads) (after : Cache Heads)
      → FirstFree inodes i
      → i < 16384
      → r ≡ ok (pos 0, some p) after
      → IsMounted (taken inodes i) blocks after.super
      → IsCached api h after
      → after.inodes p ≡ some (typed type node)
      → node.i_nr ≡ i
      → Creates api inodes blocks s type r

pub with_super-IsCached :
    {Heads : Type 0} {api : Hlists Heads} {h : Heads} {s : Cache Heads}
    → IsCached api h s
    → (b : SuperBlock) → IsCached api h (with_super s b)
with_super-IsCached c b = record {
  table = c.table;
  linked = c.linked;
  distinct = c.distinct;
  unique = c.unique;
}

IsMounted-HasInodes :
    {inodes blocks : Bitmap} {s : SuperBlock} → IsMounted inodes blocks s → HasInodes s
IsMounted-HasInodes m = record { start = m.layout.inode_blocks_at; sized = m.sized }

module _ {Heads : Type 0} {api : Hlists Heads} {h : Heads} {s : Cache Heads} (c : IsCached api h s)
    {inodes blocks : Bitmap} (m : IsMounted inodes blocks s.super) where
  create_inode-beyond :
      (type new i : ℕ) (b : SuperBlock)
      → get_inode_freemap s.super ≡ ok (pos i) b
      → FirstFree inodes i
      → 16384 ≤ i
      → Creates api inodes blocks s type (create_inode api type new s)
  unfolding create_inode
  create_inode-beyond type new i b e f le =
      let l = put-get_inode m i e in
      let test : leb 128 (i / 128) ≡ true = ground arith in
      Creates.beyond i l.0 f le (rw (e, test, l.1) refl) l.2 l.3

  create_inode-created :
      IsHlists api
      → (type new i : ℕ) (b : SuperBlock) → s.inodes new ≡ none
      → new ≢ null
      → get_inode_freemap s.super ≡ ok (pos i) b
      → IsMounted (taken inodes i) blocks b
      → FirstFree inodes i
      → i < 16384
      → Creates api inodes blocks s type (create_inode api type new s)
  unfolding create_inode
  create_inode-created laws type new i b fresh ne e m' f lt =
      let g =
        get_inode-Gets (with_super-IsCached c b) laws i new lt (IsMounted-HasInodes m') fresh ne in
      let test : leb 128 (i / 128) ≡ false = ground arith in
      Creates.created i g.p g.numbered.node g.h (hold g.after g.p (typed type g.numbered.node)) f lt
        (rw (e, test, g.run, g.numbered.holds) refl) (rw (g.super) m')
        (hold-IsCached g.cached g.p g.numbered.node (typed type g.numbered.node) g.numbered.holds
          refl)
        (ground arith) g.numbered.number

  -- testfs_create_inode, over a mounted super block and a table in order, with lists that do what
  -- they promise and a free address from calloc, ends in one of three ways: -ENOSPC and nothing
  -- changes where every inode is in use; -ENOSPC and a mounted super block with the freemaps and
  -- fields from before where the first free inode is not one of the inode blocks; else success,
  -- where that inode is taken, and at the address that is returned stands an inode of that number,
  -- dirty and of the given type, in a table that is in order.
  pub create_inode-Creates :
      IsHlists api
      → (type new : ℕ) → s.inodes new ≡ none
      → new ≢ null
      → Creates api inodes blocks s type (create_inode api type new s)
  unfolding create_inode
  create_inode-Creates laws type new fresh ne = elim (get_inode_freemap-GetsInode m) [
    | inl (taken_all, e) ↦ Creates.full taken_all (rw e refl)
    | inr (i, b, f, e, m', count) ↦ elim (Bool-cases (leb 16384 i)) [
      | inl large ↦ create_inode-beyond type new i b e f (ground (arith, large))
      | inr small ↦ create_inode-created laws type new i b fresh ne e m' f (ground (arith, small))
    ]
  ]
