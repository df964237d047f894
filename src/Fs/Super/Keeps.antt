-- ===== src/Fs/Super/Keeps.antt =====
-- fs/super.c: allocating and freeing blocks keep memory and device in agreement.
use ece344_operating_systems.Base.{
  ℕ, ◌+◌, ◌*◌, ◌/◌, ◌%◌, ◌^◌, ◌≤◌, ◌<◌, ◌≡◌, ◌≢◌, inl, inr, arith, refl, false,
}
use ece344_operating_systems.Fs.Bitmap
use ece344_operating_systems.Fs.Bitmap.{Bitmap, done, enospc}
use ece344_operating_systems.Fs.Bitmap.View.{bit, set_bits-IsValid, clear_bits-IsValid}
use ece344_operating_systems.Fs.Bitmap.Alloc.{taken}
use ece344_operating_systems.Fs.Bitmap.Mark.{released}
use ece344_operating_systems.Fs.Bitmap.Count.{nr_allocated-taken, nr_allocated-le}
use ece344_operating_systems.Fs.Device.{Device, Buffer, block_size, zero_block}
use ece344_operating_systems.Fs.Device.Laws.{written}
use ece344_operating_systems.Fs.Super.{SuperBlock, encode, add_used_blocks, add_used_inodes}
use ece344_operating_systems.Fs.Super.Mirror.{mirror_outside, mirror_update}
use ece344_operating_systems.Fs.Super.Inv.{IsFreemap, IsMounted, saved, synced}
use ece344_operating_systems.Fs.Super.Blocks.{with_blocks, with_inodes, allocated, taken-same}

module _ {b : Bitmap} {n : ℕ} (i : ℕ) (v : IsFreemap n b) where
  pub taken-IsFreemap : IsFreemap n (taken b i)
  taken-IsFreemap = record { valid = set_bits-IsValid i v.valid; nbits = v.nbits }

  pub released-IsFreemap : i < b.nbits → IsFreemap n (released b i)
  released-IsFreemap h = record { valid = clear_bits-IsValid i v.valid h; nbits = v.nbits }

-- A saved super block is the one in memory.
saved-super : (s : SuperBlock) (i : ℕ) → i < 32 → (saved s).dev.content i ≡ encode s.sb zero_block i
saved-super s i h = ground arith

-- `s` with the device `d`.
abbrev pub with_dev : SuperBlock → Device → SuperBlock
with_dev s d = record s { dev = d }

module _ {inodes blocks : Bitmap} {s : SuperBlock} (m : IsMounted inodes blocks s) where
  -- A write to inode or data blocks, or past the end, does not touch the super block and the
  -- freemaps.
  pub written-IsMounted :
      (buf : Buffer) (at nr : ℕ)
      → 18 ≤ at
      → IsMounted inodes blocks (with_dev s (written s.dev buf at nr))
  written-IsMounted buf at nr h = record {
    inode_map = m.inode_map;
    block_map = m.block_map;
    inodes_ok = m.inodes_ok;
    blocks_ok = m.blocks_ok;
    layout = m.layout;
    used_inodes = m.used_inodes;
    used_blocks = m.used_blocks;
    within_max = m.within_max;
    max_small = m.max_small;
    sized = omega (arith, m.sized);
    disk_super = λ i lt. ground (arith, m.disk_super i lt);
    disk_inodes = mirror_outside s.dev 1 1 inodes.v buf at nr m.disk_inodes (inr (omega arith));
    disk_blocks = mirror_outside s.dev 2 16 blocks.v buf at nr m.disk_blocks (inr (omega arith));
  }

  -- A new block freemap that differs in the word of bit `i`, with its count, is in agreement once
  -- its block and the super block are written.
  pub blocks-IsMounted :
      (b : Bitmap) (i n : ℕ)
      → IsFreemap 16 b
      → ((k : ℕ) → k / block_size ≢ i / 65536 → b.v k ≡ blocks.v k)
      → (s.sb.used_block_count + n) % 2 ^ 32 ≡ Bitmap.nr_allocated b
      → (s.sb.used_block_count + n) % 2 ^ 32 ≤ s.sb.max_fs_blocks
      → IsMounted inodes b (saved (add_used_blocks n (synced (with_blocks s b) b 2 i)))
  blocks-IsMounted b i n map same count within =
      let next = add_used_blocks n (synced (with_blocks s b) b 2 i) in
      let buf : Buffer = λ j. b.v (i / 65536 * block_size + j) in
      record {
        inode_map = m.inode_map;
        block_map = refl;
        inodes_ok = m.inodes_ok;
        blocks_ok = map;
        layout = record {
          inode_freemap_at = m.layout.inode_freemap_at;
          block_freemap_at = m.layout.block_freemap_at;
          inode_blocks_at = m.layout.inode_blocks_at;
          data_blocks_at = m.layout.data_blocks_at;
        };
        used_inodes = m.used_inodes;
        used_blocks = count;
        within_max = within;
        max_small = m.max_small;
        sized = omega (arith, m.sized);
        disk_super = saved-super next;
        disk_inodes =
            mirror_outside next.dev 1 1 inodes.v (encode next.sb zero_block) 0 1
              (mirror_outside s.dev 1 1 inodes.v buf (2 + i / 65536) 1 m.disk_inodes
                (inr (omega arith)))
              (inl (omega arith));
        disk_blocks =
            mirror_outside next.dev 2 16 b.v (encode next.sb zero_block) 0 1
              (mirror_update s.dev 2 16 blocks.v b.v (i / 65536) m.disk_blocks same)
              (inl (omega arith));
      }

  -- The same for the inode freemap.
  pub inodes-IsMounted :
      (b : Bitmap) (i n : ℕ)
      → i < 65536
      → IsFreemap 1 b
      → ((k : ℕ) → k / block_size ≢ i / 65536 → b.v k ≡ inodes.v k)
      → (s.sb.used_inode_count + n) % 2 ^ 32 ≡ Bitmap.nr_allocated b
      → IsMounted b blocks (saved (add_used_inodes n (synced (with_inodes s b) b 1 i)))
  inodes-IsMounted b i n lt map same count =
      let next = add_used_inodes n (synced (with_inodes s b) b 1 i) in
      let buf : Buffer = λ j. b.v (i / 65536 * block_size + j) in
      record {
        inode_map = refl;
        block_map = m.block_map;
        inodes_ok = map;
        blocks_ok = m.blocks_ok;
        layout = record {
          inode_freemap_at = m.layout.inode_freemap_at;
          block_freemap_at = m.layout.block_freemap_at;
          inode_blocks_at = m.layout.inode_blocks_at;
          data_blocks_at = m.layout.data_blocks_at;
        };
        used_inodes = count;
        used_blocks = m.used_blocks;
        within_max = m.within_max;
        max_small = m.max_small;
        sized = omega (arith, m.sized);
        disk_super = saved-super next;
        disk_inodes =
            mirror_outside next.dev 1 1 b.v (encode next.sb zero_block) 0 1
              (mirror_update s.dev 1 1 inodes.v b.v (i / 65536) m.disk_inodes same)
              (inl (omega arith));
        disk_blocks =
            mirror_outside next.dev 2 16 blocks.v (encode next.sb zero_block) 0 1
              (mirror_outside s.dev 2 16 blocks.v buf (1 + i / 65536) 1 m.disk_blocks
                (inl (omega arith)))
              (inl (omega arith));
      }

  -- Taking a free block below the limit keeps memory and device in agreement.
  pub allocated-IsMounted :
      (i : ℕ)
      → bit blocks i ≡ false
      → i < blocks.nbits
      → s.sb.used_block_count < s.sb.max_fs_blocks
      → IsMounted inodes (taken blocks i) (allocated s blocks i)
  allocated-IsMounted i free lt room =
      let count : (s.sb.used_block_count + 1) % 2 ^ 32 ≡ s.sb.used_block_count + 1 =
        omega (arith, m.used_blocks, nr_allocated-le blocks, m.blocks_ok.nbits) in
      blocks-IsMounted (taken blocks i) i 1 (taken-IsFreemap i m.blocks_ok) (taken-same blocks i)
        (omega (
          arith,
          count,
          m.used_blocks,
          nr_allocated-taken blocks i m.blocks_ok.valid.bytes free lt,
        ))
        (omega (arith, count))
