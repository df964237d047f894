-- ===== src/Fs/Mkfs/Fresh.antt =====
-- fs/mktestfs.c: a formatted device can be mounted, and is empty.
use ece344_operating_systems.Base.{ℕ, ◌*◌, ◌^◌, ◌<◌, ◌≡◌, refl, arith, some, none, sym}
use ece344_operating_systems.Base.Run.{ok}
use ece344_operating_systems.Fs.Bitmap.{Bitmap}
use ece344_operating_systems.Fs.Bitmap.Create.{blank, bit-blank}
use ece344_operating_systems.Fs.Bitmap.Count.{nr_allocated-empty}
use ece344_operating_systems.Fs.Device.{Device, zero_block}
use ece344_operating_systems.Fs.Device.Laws.{written, zero_blocks_lem}
use ece344_operating_systems.Fs.Hlist.{Hlists, IsHlists}
use ece344_operating_systems.Fs.Inodes.{Cache, init_loop, inode_hash_size, inode_hash_init}
use ece344_operating_systems.Fs.Inodes.Init.{init_heads-empty, inode_hash_destroy-empty}
use ece344_operating_systems.Fs.Mkfs.{format}
use ece344_operating_systems.Fs.Super.{
  SuperBlock, DsuperBlock, encode, init_super_block, close_freemaps, make_super_block,
  make_inode_freemap, make_block_freemap, make_inode_blocks, new_super_block, empty_device,
}
use ece344_operating_systems.Fs.Unmount.{close_super_block}
use ece344_operating_systems.Fs.Super.Inv.{IsMounted, IsFreemap, write_super_block-saved}
use ece344_operating_systems.Fs.Super.Mount.{
  remounted, reread, init_super_block-remounted, remounted-IsMounted,
}

-- The device after the super block, the freemaps and the inode blocks are written.
abbrev zeroed_dev : DsuperBlock → Device
zeroed_dev d =
    written
      (written (written (written empty_device (encode d zero_block) 0 1) zero_block 1 1) zero_block
        2 16)
      zero_block 18 128

abbrev formatted_dev : DsuperBlock → Device
formatted_dev d = written (zeroed_dev d) (encode d zero_block) 0 1

-- A freemap of `n` blocks with no index in use.
abbrev pub no_bits : ℕ → Bitmap
no_bits n = blank (n * 65536)

no_bits-IsFreemap : (n : ℕ) → n < 32 → IsFreemap n (no_bits n)
no_bits-IsFreemap n h = record {
  valid = record {
    small = omega arith;
    bytes = λ _. omega arith;
    leftover = λ i lo hi. absurd (omega arith);
  };
  nbits = refl;
}

module _ (max_fs_blocks : ℕ) where
  -- The super block in memory over the formatted device, as if its freemaps were there.
  abbrev pub fresh : SuperBlock
  fresh = record {
    sb = (new_super_block max_fs_blocks).sb;
    dev = formatted_dev (new_super_block max_fs_blocks).sb;
    inode_freemap = some (no_bits 1);
    block_freemap = some (no_bits 16);
  }

  pub fresh-IsMounted : max_fs_blocks < 2 ^ 64 → IsMounted (no_bits 1) (no_bits 16) fresh
  fresh-IsMounted h = record {
    inode_map = refl;
    block_map = refl;
    inodes_ok = no_bits-IsFreemap 1 (omega arith);
    blocks_ok = no_bits-IsFreemap 16 (omega arith);
    layout = record {
      inode_freemap_at = refl;
      block_freemap_at = refl;
      inode_blocks_at = refl;
      data_blocks_at = refl;
    };
    used_inodes = sym (nr_allocated-empty (no_bits 1) (bit-blank 65536));
    used_blocks = sym (nr_allocated-empty (no_bits 16) (bit-blank (16 * 65536)));
    within_max = omega arith;
    max_small = h;
    sized = omega arith;
    disk_super = λ i lt. ground arith;
    disk_inodes = λ k lt. ground arith;
    disk_blocks = λ k lt. ground arith;
  }

module _ {Heads : Type 0} {api : Hlists Heads} (laws : IsHlists api) (max_fs_blocks : ℕ) where
  -- What is left after formatting: the super block without its freemaps, and no table.
  abbrev pub formatted : Cache Heads
  formatted = record {
    super = record (fresh max_fs_blocks) { inode_freemap = none; block_freemap = none };
    table = none;
    inodes = λ _. none;
  }

  format-fresh : format api max_fs_blocks ≡ ok tt formatted
  unfolding format make_super_block make_inode_freemap make_block_freemap make_inode_blocks
      close_super_block close_freemaps inode_hash_init
  format-fresh =
      rw
        (
          write_super_block-saved,
          zero_blocks_lem,
          zero_blocks_lem,
          zero_blocks_lem,
          write_super_block-saved,
          inode_hash_destroy-empty laws
              (record {
                super = record (new_super_block max_fs_blocks) {
                  dev = formatted_dev (new_super_block max_fs_blocks).sb;
                };
                table = some (init_loop api inode_hash_size 0 api.new_heads);
                inodes = λ _. none;
              })
              (init_loop api inode_hash_size 0 api.new_heads) refl (init_heads-empty laws),
        )
        refl

  -- Formatting a device, with hash lists that do what they promise, and mounting it succeeds for any
  -- limit that fits a `u64`, and gives a mounted super block with that limit, on which no inode and
  -- no block is in use.
  pub init-format :
      max_fs_blocks < 2 ^ 64
      → (c : Cache Heads) × (s' : SuperBlock) × (format api max_fs_blocks ≡ ok tt c)
        × (init_super_block c.super.dev ≡ ok s' c.super.dev)
        × IsMounted (reread 1 (no_bits 1)) (reread 16 (no_bits 16)) s'
        × (s'.sb.used_inode_count ≡ 0)
        × (s'.sb.used_block_count ≡ 0)
        × (s'.sb.max_fs_blocks ≡ max_fs_blocks)
  init-format h =
      let m = fresh-IsMounted max_fs_blocks h in
      (
        formatted,
        remounted (no_bits 1) (no_bits 16) (fresh max_fs_blocks),
        format-fresh,
        init_super_block-remounted m,
        remounted-IsMounted m,
        refl,
        refl,
        refl,
      )
