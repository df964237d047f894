-- ===== src/Fs/Unmount.antt =====
-- fs/super.c: testfs_close_super_block, with the inode hash table of fs/inode.c that it destroys.
use ece344_operating_systems.Base.Run.{Cmd, ◌>>◌}
use ece344_operating_systems.Fs.Hlist.{Hlists}
use ece344_operating_systems.Fs.Inodes.{Cache, on_sb, inode_hash_destroy}
use ece344_operating_systems.Fs.Super.{write_super_block, close_freemaps}

-- What is written back before the device is closed.
unfoldable pub close_super_block : {Heads : Type 0} → Hlists Heads → Cmd (Cache Heads) (Unit {0})
unfolding write_super_block inode_hash_destroy close_freemaps
close_super_block api = do on_sb write_super_block; inode_hash_destroy api; on_sb close_freemaps
