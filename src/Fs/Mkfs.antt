-- ===== src/Fs/Mkfs.antt =====
-- fs/mktestfs.c: what `main` does to a device, up to the first unmount.
pub mod Fresh
use ece344_operating_systems.Base.{ℕ, none}
use ece344_operating_systems.Base.Run.{Run, ok, halt, and_then, ◌>>◌}
use ece344_operating_systems.Fs.Hlist.{Hlists}
use ece344_operating_systems.Fs.Inodes.{Cache, on_sb, inode_hash_init}
use ece344_operating_systems.Fs.Super.{
  SuperBlock, make_super_block, make_inode_freemap, make_block_freemap, make_inode_blocks,
}
use ece344_operating_systems.Fs.Unmount.{close_super_block}

-- The new super block, before there is an inode hash table.
abbrev pub without_inodes : {Heads A : Type 0} → Run SuperBlock A → Run (Cache Heads) A
without_inodes (ok a s) = ok a (record { super = s; table = none; inodes = λ _. none })
without_inodes (halt h) = halt h

-- testfs_make_super_block ends with inode_hash_init.
unfoldable pub format : {Heads : Type 0} → Hlists Heads → ℕ → Run (Cache Heads) (Unit {0})
unfolding make_super_block
format api max_fs_blocks = and_then (without_inodes (make_super_block max_fs_blocks)) λ _. do
  inode_hash_init api
  on_sb make_inode_freemap
  on_sb make_block_freemap
  on_sb make_inode_blocks
  close_super_block api
