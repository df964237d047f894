-- ===== src/Fs/Super/Inv.antt =====
-- fs/super.c: when a mounted super block, its freemaps and the device agree.
use ece344_operating_systems.Base.{ℕ, ◌+◌, ◌*◌, ◌/◌, ◌%◌, ◌^◌, ◌≤◌, ◌<◌, ◌≡◌, arith, some}
use ece344_operating_systems.Base.Run.{ok}
use ece344_operating_systems.Fs.Bitmap
use ece344_operating_systems.Fs.Bitmap.{Bitmap}
use ece344_operating_systems.Fs.Bitmap.View
use ece344_operating_systems.Fs.Device.{block_size, zero_block}
use ece344_operating_systems.Fs.Device.Laws.{written, write_blocks_lem}
use ece344_operating_systems.Fs.Super.{
  DsuperBlock, SuperBlock, encode, write_super_block, write_inode_freemap, write_block_freemap,
}
use ece344_operating_systems.Fs.Super.Mirror.{Mirrors}

-- The layout that `testfs_make_super_block` chooses.
pub record IsLaidOut (d : DsuperBlock) : Type 0 where
  pub inode_freemap_at : d.inode_freemap_start ≡ 1
  pub block_freemap_at : d.block_freemap_start ≡ 2
  pub inode_blocks_at : d.inode_blocks_start ≡ 18
  pub data_blocks_at : d.data_blocks_start ≡ 146

-- The freemap `b` of `n` blocks is well-formed, and `n * 65536` bits long.
pub record IsFreemap (n : ℕ) (b : Bitmap) : Type 0 where
  pub valid : View.IsValid b
  pub nbits : b.nbits ≡ n * 65536

-- The freemaps in memory are `inodes` and `blocks`; the counts are those of the freemaps, and the
-- device holds the super block and both freemaps as they are in memory.
pub record IsMounted (inodes blocks : Bitmap) (s : SuperBlock) : Type 0 where
  pub inode_map : s.inode_freemap ≡ some inodes
  pub block_map : s.block_freemap ≡ some blocks
  pub inodes_ok : IsFreemap 1 inodes
  pub blocks_ok : IsFreemap 16 blocks
  pub layout : IsLaidOut s.sb
  pub used_inodes : s.sb.used_inode_count ≡ Bitmap.nr_allocated inodes
  pub used_blocks : s.sb.used_block_count ≡ Bitmap.nr_allocated blocks
  pub within_max : s.sb.used_block_count ≤ s.sb.max_fs_blocks
  pub max_small : s.sb.max_fs_blocks < 2 ^ 64
  pub sized : 146 * block_size ≤ s.dev.size
  pub disk_super : (i : ℕ) → i < 32 → s.dev.content i ≡ encode s.sb zero_block i
  pub disk_inodes : Mirrors s.dev 1 1 inodes.v
  pub disk_blocks : Mirrors s.dev 2 16 blocks.v

-- The state after `testfs_write_super_block`.
abbrev pub saved : SuperBlock → SuperBlock
saved s = record s { dev = written s.dev (encode s.sb zero_block) 0 1 }

pub write_super_block-saved : (s : SuperBlock) → write_super_block s ≡ ok tt (saved s)
unfolding write_super_block
write_super_block-saved s = rw write_blocks_lem

-- The state after the block of freemap `b` at `start` that holds `bit_nr` is written.
abbrev pub synced : SuperBlock → Bitmap → ℕ → ℕ → SuperBlock
synced s b start bit_nr = record s {
  dev = written s.dev (λ i. b.v (bit_nr / 65536 * block_size + i)) (start + bit_nr / 65536) 1;
}

pub write_inode_freemap-synced :
    (s : SuperBlock) (b : Bitmap) (nr : ℕ)
    → s.inode_freemap ≡ some b
    → IsLaidOut s.sb
    → nr < 65536
    → write_inode_freemap nr s ≡ ok tt (synced s b 1 nr)
unfolding write_inode_freemap
write_inode_freemap-synced s b nr e l lt =
    let at : (1 + nr / 65536) % 2 ^ 32 ≡ 1 + nr / 65536 = omega arith in
    rw (e, l.inode_freemap_at, at, write_blocks_lem)

pub write_block_freemap-synced :
    (s : SuperBlock) (b : Bitmap) (nr : ℕ)
    → s.block_freemap ≡ some b
    → IsLaidOut s.sb
    → nr < 16 * 65536
    → write_block_freemap nr s ≡ ok tt (synced s b 2 nr)
unfolding write_block_freemap
write_block_freemap-synced s b nr e l lt =
    let at : (2 + nr / 65536) % 2 ^ 32 ≡ 2 + nr / 65536 = omega arith in
    rw (e, l.block_freemap_at, at, write_blocks_lem)
