-- ===== src/Fs/Super/Mount.antt =====
-- fs/super.c: reading a super block and its freemaps from the device.
use mathlib.Core.Path.{fun_ext}
use ece344_operating_systems.Base.{
  ℕ, ◌+◌, ◌*◌, ◌/◌, ◌≤◌, ◌<◌, ◌≡◌, refl, true, arith, if◌then◌else◌, inl, inr, Bool-cases, ltb,
  some, sym, ◌∙◌,
}
use ece344_operating_systems.Base.Run.{ok}
use ece344_operating_systems.Fs.Bitmap
use ece344_operating_systems.Fs.Bitmap.{Bitmap}
use ece344_operating_systems.Fs.Bitmap.View.{bit}
use ece344_operating_systems.Fs.Bitmap.Count.{nr_allocated-eq, nr_allocated-le}
use ece344_operating_systems.Fs.Bitmap.Create.{create-whole}
use ece344_operating_systems.Fs.Device.{Device, block_size, zero_block}
use ece344_operating_systems.Fs.Device.Laws.{read_blocks_lem}
use ece344_operating_systems.Fs.Super.{SuperBlock, decode, encode, read_bitmap, init_super_block}
use ece344_operating_systems.Fs.Super.Codec.{InRange, decode-encode, decode-eq}
use ece344_operating_systems.Fs.Super.Inv.{IsMounted, IsFreemap}
use ece344_operating_systems.Fs.Super.Mirror.{Mirrors}

-- The bitmap `b` as it is read back: its `n` blocks of bytes, and nothing behind them.
abbrev pub reread : ℕ → Bitmap → Bitmap
reread n b = record { nbits = n * 65536; v = λ i. if ltb i (n * block_size) then b.v i else 0 }

pub bit-reread : (n : ℕ) (b : Bitmap) (i : ℕ) → i < n * 65536 → bit (reread n b) i ≡ bit b i
unfolding bit
bit-reread n b i h = let inside : ltb (i / 8) (n * block_size) ≡ true = ground arith in rw inside

pub read_bitmap-Mirrors :
    (d : Device) (start n : ℕ) (b : Bitmap)
    → n < 32
    → (start + n) * block_size ≤ d.size
    → Mirrors d start n b.v
    → read_bitmap (n * 65536) start n d ≡ ok (reread n b) d
unfolding read_bitmap
read_bitmap-Mirrors d start n b small sized m =
    rw (create-whole (n * 65536) (omega arith), read_blocks_lem d (λ _. 0) start n (omega arith))
      (λ k. ok (record { nbits = n * 65536; v = fun_ext same k }) d)
  where
    same :
        (i : ℕ)
        → (if ltb i (n * block_size) then d.content (start * block_size + i) else 0)
          ≡ (if ltb i (n * block_size) then b.v i else 0)
    same i = elim (Bool-cases (ltb i (n * block_size))) [
      | inl h ↦ rw h (m i (ground arith))
      | inr h ↦ rw h
    ]

-- The super block that `testfs_init_super_block` makes of the device of `s`.
abbrev pub remounted : Bitmap → Bitmap → SuperBlock → SuperBlock
remounted inodes blocks s = record s {
  inode_freemap = some (reread 1 inodes);
  block_freemap = some (reread 16 blocks);
}

module _ {inodes blocks : Bitmap} {s : SuperBlock} (m : IsMounted inodes blocks s) where
  pub sb-InRange : InRange s.sb
  sb-InRange = record {
    inode_freemap_start = omega (arith, m.layout.inode_freemap_at);
    block_freemap_start = omega (arith, m.layout.block_freemap_at);
    inode_blocks_start = omega (arith, m.layout.inode_blocks_at);
    data_blocks_start = omega (arith, m.layout.data_blocks_at);
    used_inode_count = omega (arith, m.used_inodes, nr_allocated-le inodes, m.inodes_ok.nbits);
    used_block_count = omega (arith, m.used_blocks, nr_allocated-le blocks, m.blocks_ok.nbits);
    max_fs_blocks = m.max_small;
  }

  decode_super :
      decode
        (λ i. if ltb i (1 * block_size) then s.dev.content (0 * block_size + i) else zero_block i)
      ≡ s.sb
  decode_super =
      decode-eq _ (encode s.sb zero_block) (λ i h. ground (arith, m.disk_super i h))
      ∙ decode-encode s.sb zero_block sb-InRange

  read_inodes : read_bitmap 65536 s.sb.inode_freemap_start 1 s.dev ≡ ok (reread 1 inodes) s.dev
  read_inodes =
      rw m.layout.inode_freemap_at
        (read_bitmap-Mirrors s.dev 1 1 inodes (omega arith) (omega (arith, m.sized)) m.disk_inodes)

  read_blocks_map :
      read_bitmap (16 * 65536) s.sb.block_freemap_start 16 s.dev ≡ ok (reread 16 blocks) s.dev
  read_blocks_map =
      rw m.layout.block_freemap_at
        (read_bitmap-Mirrors s.dev 2 16 blocks (omega arith) (omega (arith, m.sized)) m.disk_blocks)

  -- Mounting the device of a mounted super block gives the super block back, with the freemaps as
  -- they are read from the device.
  pub init_super_block-remounted : init_super_block s.dev ≡ ok (remounted inodes blocks s) s.dev
  unfolding init_super_block
  init_super_block-remounted = rw (
    read_blocks_lem s.dev zero_block 0 1 (omega (arith, m.sized)),
    decode_super,
    read_inodes,
    read_blocks_map,
  )

pub reread-IsFreemap : (n : ℕ) (b : Bitmap) → n < 32 → IsFreemap n b → IsFreemap n (reread n b)
reread-IsFreemap n b h f = record {
  valid = record {
    small = omega arith;
    bytes = λ ix. ground (arith, f.valid.bytes ix);
    leftover = λ i lo hi. absurd (omega arith);
  };
  nbits = refl;
}

pub nr_allocated-reread :
    (n : ℕ) (b : Bitmap) → IsFreemap n b → Bitmap.nr_allocated (reread n b) ≡ Bitmap.nr_allocated b
nr_allocated-reread n b f =
    nr_allocated-eq (reread n b) b (omega (arith, f.nbits)) (λ j h. bit-reread n b j h)

-- The remounted super block is mounted.
pub remounted-IsMounted :
    {inodes blocks : Bitmap} {s : SuperBlock}
    → IsMounted inodes blocks s
    → IsMounted (reread 1 inodes) (reread 16 blocks) (remounted inodes blocks s)
remounted-IsMounted {inodes} {blocks} {s} m = record {
  inode_map = refl;
  block_map = refl;
  inodes_ok = reread-IsFreemap 1 inodes (omega arith) m.inodes_ok;
  blocks_ok = reread-IsFreemap 16 blocks (omega arith) m.blocks_ok;
  layout = record {
    inode_freemap_at = m.layout.inode_freemap_at;
    block_freemap_at = m.layout.block_freemap_at;
    inode_blocks_at = m.layout.inode_blocks_at;
    data_blocks_at = m.layout.data_blocks_at;
  };
  used_inodes = m.used_inodes ∙ sym (nr_allocated-reread 1 inodes m.inodes_ok);
  used_blocks = m.used_blocks ∙ sym (nr_allocated-reread 16 blocks m.blocks_ok);
  within_max = m.within_max;
  max_small = m.max_small;
  sized = m.sized;
  disk_super = m.disk_super;
  disk_inodes = λ k h. ground (arith, m.disk_inodes k h);
  disk_blocks = λ k h. ground (arith, m.disk_blocks k h);
}
