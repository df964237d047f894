-- ===== src/Fs/Super/Free.antt =====
-- fs/super.c: `testfs_free_block` on a mounted super block.
use ece344_operating_systems.Base.{
  ℕ, ◌+◌, ◌-◌, ◌*◌, ◌%◌, ◌^◌, ◌<◌, ◌≡◌, ltb, lt→ltb, arith, refl, true,
}
use ece344_operating_systems.Base.Int.{pos}
use ece344_operating_systems.Base.Run.{ok}
use ece344_operating_systems.Fs.Bitmap.{Bitmap}
use ece344_operating_systems.Fs.Bitmap.View.{bit}
use ece344_operating_systems.Fs.Bitmap.Mark.{released, unmark_lem}
use ece344_operating_systems.Fs.Bitmap.Count.{nr_allocated-released, nr_allocated-le}
use ece344_operating_systems.Fs.Device.{zero_block}
use ece344_operating_systems.Fs.Device.Laws.{written, zero_blocks_lem}
use ece344_operating_systems.Fs.Super.{
  SuperBlock, sub_start, put_block_freemap, free_block, add_used_blocks, minus_one,
}
use ece344_operating_systems.Fs.Super.Inv.{
  IsMounted, saved, synced, write_super_block-saved, write_block_freemap-synced,
}
use ece344_operating_systems.Fs.Super.Blocks.{with_blocks, released-same}
use ece344_operating_systems.Fs.Super.Keeps.{
  with_dev, released-IsFreemap, written-IsMounted, blocks-IsMounted,
}

-- `s` with data block `i` zeroed.
abbrev pub zeroed : SuperBlock → ℕ → SuperBlock
zeroed s i = with_dev s (written s.dev zero_block (146 + i) 1)

-- The state in which `testfs_free_block` leaves `s` when it gives data block `i` back.
abbrev pub freed : SuperBlock → Bitmap → ℕ → SuperBlock
freed s blocks i = saved (
    add_used_blocks minus_one
      (synced (with_blocks (zeroed s i) (released blocks i)) (released blocks i) 2 i))

sub_start-data : (i : ℕ) → i < 16 * 65536 → sub_start (pos (146 + i)) 146 ≡ pos i
sub_start-data i h = ground arith

module _ {inodes blocks : Bitmap} {s : SuperBlock} (m : IsMounted inodes blocks s) where
  pub put_block_freemap-used :
      (i : ℕ)
      → bit blocks i ≡ true
      → i < blocks.nbits
      → put_block_freemap i s
        ≡ ok tt (synced (with_blocks s (released blocks i)) (released blocks i) 2 i)
  unfolding put_block_freemap
  put_block_freemap-used i used lt = rw (
    m.block_map,
    unmark_lem,
    used,
    lt→ltb _ _ lt,
    write_block_freemap-synced (with_blocks s (released blocks i)) (released blocks i) i refl
        m.layout (omega (arith, m.blocks_ok.nbits)),
  )

module _ {inodes blocks : Bitmap} {s : SuperBlock} (m : IsMounted inodes blocks s) where
  -- Freeing a data block that is in use zeroes it, gives its index back and counts one block less.
  pub free_block-used :
      (i : ℕ)
      → bit blocks i ≡ true
      → i < blocks.nbits
      → free_block (pos (146 + i)) s ≡ ok (pos 0) (freed s blocks i)
  unfolding free_block
  free_block-used i used lt =
      let index : sub_start (pos (146 + i)) s.sb.data_blocks_start ≡ pos i =
        rw m.layout.data_blocks_at (sub_start-data i (omega (arith, m.blocks_ok.nbits))) in
      let count = nr_allocated-released blocks i m.blocks_ok.valid.bytes used lt in
      let some_used : ltb 0 s.sb.used_block_count ≡ true = ground (arith, count, m.used_blocks) in
      rw (
        zero_blocks_lem s.dev (146 + i) 0,
        index,
        put_block_freemap-used (written-IsMounted m zero_block (146 + i) 1 (omega arith)) i used lt,
        some_used,
        write_super_block-saved,
      )

  -- Freeing a data block that is in use keeps memory and device in agreement.
  pub freed-IsMounted :
      (i : ℕ)
      → bit blocks i ≡ true
      → i < blocks.nbits
      → IsMounted inodes (released blocks i) (freed s blocks i)
  freed-IsMounted i used lt =
      let count = nr_allocated-released blocks i m.blocks_ok.valid.bytes used lt in
      let less : (s.sb.used_block_count + minus_one) % 2 ^ 32 ≡ s.sb.used_block_count - 1 =
        omega (arith, count, m.used_blocks, nr_allocated-le blocks, m.blocks_ok.nbits) in
      blocks-IsMounted (written-IsMounted m zero_block (146 + i) 1 (omega arith))
        (released blocks i) i minus_one (released-IsFreemap i m.blocks_ok lt)
        (released-same blocks i) (omega (arith, less, count, m.used_blocks))
        (omega (arith, less, m.within_max))
