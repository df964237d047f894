-- ===== src/Fs/Super/Close.antt =====
-- fs/super.c: writing a super block back, and mounting the device again.
use ece344_operating_systems.Base.{
  ℕ, ◌+◌, ◌-◌, ◌*◌, ◌^◌, ◌<◌, ◌≤◌, ◌≡◌, refl, arith, inr, none, some, [],
}
use ece344_operating_systems.Base.Run.{ok}
use ece344_operating_systems.Fs.Bitmap
use ece344_operating_systems.Fs.Bitmap.{Bitmap}
use ece344_operating_systems.Fs.Device.{Device, Buffer, block_size}
use ece344_operating_systems.Fs.Device.Laws.{written, write_blocks_lem}
use ece344_operating_systems.Fs.Super.{SuperBlock, init_super_block, close_freemaps}
use ece344_operating_systems.Fs.Hlist.{Hlists, IsHlists}
use ece344_operating_systems.Fs.Inodes.{Cache, inode_hash_destroy}
use ece344_operating_systems.Fs.Inodes.Init.{inode_hash_destroy-empty}
use ece344_operating_systems.Fs.Unmount.{close_super_block}
use ece344_operating_systems.Fs.Super.Inv.{
  IsMounted, IsFreemap, IsLaidOut, saved, write_super_block-saved,
}
use ece344_operating_systems.Fs.Super.Keeps.{with_dev}
use ece344_operating_systems.Fs.Super.Mirror.{Mirrors, mirror_outside}
use ece344_operating_systems.Fs.Super.Mount.{
  remounted, reread, init_super_block-remounted, remounted-IsMounted,
}

mirror_whole : (d : Device) (start n : ℕ) (v : Buffer) → Mirrors (written d v start n) start n v
mirror_whole d start n v k h =
    let back : start * block_size + k - start * block_size ≡ k = omega arith in
    rw back (ground arith)

-- A super block in memory with its freemaps, whatever the device holds.
pub record IsOpen (inodes blocks : Bitmap) (s : SuperBlock) : Type 0 where
  pub inode_map : s.inode_freemap ≡ some inodes
  pub block_map : s.block_freemap ≡ some blocks
  pub inodes_ok : IsFreemap 1 inodes
  pub blocks_ok : IsFreemap 16 blocks
  pub layout : IsLaidOut s.sb
  pub used_inodes : s.sb.used_inode_count ≡ Bitmap.nr_allocated inodes
  pub used_blocks : s.sb.used_block_count ≡ Bitmap.nr_allocated blocks
  pub within_max : s.sb.used_block_count ≤ s.sb.max_fs_blocks
  pub max_small : s.sb.max_fs_blocks < 2 ^ 64
  pub sized : 146 * block_size ≤ s.dev.size

-- The device may have changed behind a mounted super block.
pub IsMounted-IsOpen :
    {inodes blocks : Bitmap} {s : SuperBlock} (d : Device)
    → IsMounted inodes blocks s
    → 146 * block_size ≤ d.size
    → IsOpen inodes blocks (with_dev s d)
IsMounted-IsOpen d m sized = record {
  inode_map = m.inode_map;
  block_map = m.block_map;
  inodes_ok = m.inodes_ok;
  blocks_ok = m.blocks_ok;
  layout = m.layout;
  used_inodes = m.used_inodes;
  used_blocks = m.used_blocks;
  within_max = m.within_max;
  max_small = m.max_small;
  sized = sized;
}

-- The device after the super block, the inode freemap and the block freemap are written.
abbrev pub closed_dev : SuperBlock → Bitmap → Bitmap → Device
closed_dev s inodes blocks = written (written (saved s).dev inodes.v 1 1) blocks.v 2 16

-- The super block after `testfs_close_super_block`.
abbrev pub closed : SuperBlock → Device → SuperBlock
closed s d = record s { dev = d; inode_freemap = none; block_freemap = none }

module _ {inodes blocks : Bitmap} {s : SuperBlock} (m : IsOpen inodes blocks s) where
  close_freemaps-closed : close_freemaps (saved s) ≡ ok tt (closed s (closed_dev s inodes blocks))
  unfolding close_freemaps
  close_freemaps-closed = rw (
    m.inode_map, m.block_map, m.layout.inode_freemap_at, m.layout.block_freemap_at,
    write_blocks_lem, write_blocks_lem,
  )

  closed-IsMounted : IsMounted inodes blocks (with_dev s (closed_dev s inodes blocks))
  closed-IsMounted = record {
    inode_map = m.inode_map;
    block_map = m.block_map;
    inodes_ok = m.inodes_ok;
    blocks_ok = m.blocks_ok;
    layout = m.layout;
    used_inodes = m.used_inodes;
    used_blocks = m.used_blocks;
    within_max = m.within_max;
    max_small = m.max_small;
    sized = omega (arith, m.sized);
    disk_super = λ i h. ground arith;
    disk_inodes =
        mirror_outside (written (saved s).dev inodes.v 1 1) 1 1 inodes.v blocks.v 2 16
          (mirror_whole (saved s).dev 1 1 inodes.v) (inr (omega arith));
    disk_blocks = mirror_whole (written (saved s).dev inodes.v 1 1) 2 16 blocks.v;
  }

  -- The blocks behind the freemaps are not written.
  closed_dev-behind :
      (i : ℕ) → 18 * block_size ≤ i → (closed_dev s inodes blocks).content i ≡ s.dev.content i
  closed_dev-behind i h = ground (arith, h)

close_super_block-closed :
    {Heads : Type 0} (api : Hlists Heads) (c : Cache Heads) (inodes blocks : Bitmap)
    → IsOpen inodes blocks c.super
    → inode_hash_destroy api (record c { super = saved c.super })
      ≡ ok tt (record c { super = saved c.super; table = none })
    → close_super_block api c
      ≡ ok tt (record c { super = closed c.super (closed_dev c.super inodes blocks); table = none })
unfolding close_super_block
close_super_block-closed api c inodes blocks m e =
    rw (write_super_block-saved, e, close_freemaps-closed m) refl

-- testfs_close_super_block, for a super block that is open on a device with any content, and an inode
-- hash table whose lists are empty, writes the super block and both freemaps to the device and
-- nothing behind them. Mounting the device then gives a mounted super block with the same fields and
-- freemaps that have the same indices in use.
pub init-close :
    {Heads : Type 0} {api : Hlists Heads} (laws : IsHlists api) {inodes blocks : Bitmap}
    (c : Cache Heads) (h : Heads)
    → IsOpen inodes blocks c.super
    → c.table ≡ some h
    → ((j : ℕ) → api.nodes h j ≡ [])
    → (d : Device) × (s' : SuperBlock) × (close_super_block api c
        ≡ ok tt (record c { super = closed c.super d; table = none }))
      × (init_super_block d ≡ ok s' d)
      × IsMounted (reread 1 inodes) (reread 16 blocks) s'
      × (s'.sb ≡ c.super.sb)
      × ((i : ℕ) → 18 * block_size ≤ i → d.content i ≡ c.super.dev.content i)
init-close {Heads} {api} laws {inodes} {blocks} c h m at empty =
    let m' = closed-IsMounted m in
    let destroyed = inode_hash_destroy-empty laws (record c { super = saved c.super }) h at empty in
    (
      closed_dev c.super inodes blocks,
      remounted inodes blocks (with_dev c.super (closed_dev c.super inodes blocks)),
      close_super_block-closed api c inodes blocks m destroyed,
      init_super_block-remounted m',
      remounted-IsMounted m',
      refl,
      closed_dev-behind m,
    )
