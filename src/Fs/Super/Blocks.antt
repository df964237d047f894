-- ===== src/Fs/Super/Blocks.antt =====
-- fs/super.c: `testfs_alloc_block` and `testfs_free_block` on a mounted super block.
use ece344_operating_systems.Base.{
  ℕ, ◌+◌, ◌/◌, ◌%◌, ◌^◌, ◌≤◌, ◌<◌, ◌≡◌, ◌≢◌, ◌⊎◌, inl, inr, ltb, leb, leb→le, arith, Bool-cases,
  refl, some, true, false,
}
use ece344_operating_systems.Base.Int.{ℤ, pos}
use ece344_operating_systems.Base.Run.{Run, ok}
use ece344_operating_systems.Fs.Bitmap
use ece344_operating_systems.Fs.Bitmap.{Bitmap, done, enospc}
use ece344_operating_systems.Fs.Bitmap.Alloc.{taken, FirstFree, IsFull, alloc_lem}
use ece344_operating_systems.Fs.Bitmap.Mark.{released}
use ece344_operating_systems.Fs.Device.{block_size}
use ece344_operating_systems.Fs.Super.{
  SuperBlock, no_space, get_block_freemap, alloc_block, add_used_blocks,
}
use ece344_operating_systems.Fs.Super.Inv.{
  IsMounted, saved, synced, write_super_block-saved, write_block_freemap-synced,
}

abbrev pub with_blocks : SuperBlock → Bitmap → SuperBlock
with_blocks s b = record s { block_freemap = some b }

abbrev pub with_inodes : SuperBlock → Bitmap → SuperBlock
with_inodes s b = record s { inode_freemap = some b }

-- The state in which `testfs_get_block_freemap` leaves `s` when it takes index `i`.
abbrev pub reserved : SuperBlock → Bitmap → ℕ → SuperBlock
reserved s blocks i = synced (with_blocks s (taken blocks i)) (taken blocks i) 2 i

module _ {inodes blocks : Bitmap} {s : SuperBlock} (m : IsMounted inodes blocks s) where
  get_block_freemap-full :
      IsFull blocks → Bitmap.alloc blocks ≡ ok enospc blocks → get_block_freemap s ≡ ok no_space s
  unfolding get_block_freemap
  get_block_freemap-full full e = rw (m.block_map, e)

  get_block_freemap-first :
      (i : ℕ)
      → FirstFree blocks i
      → Bitmap.alloc blocks ≡ ok (done i) (taken blocks i)
      → get_block_freemap s ≡ ok (pos i) (reserved s blocks i)
  unfolding get_block_freemap
  get_block_freemap-first i f e =
      let small : ltb i (2 ^ 31) ≡ true = ground (arith, m.blocks_ok.nbits, f.in_range) in
      rw (
        m.block_map,
        e,
        write_block_freemap-synced (with_blocks s (taken blocks i)) (taken blocks i) i refl m.layout
            (omega (arith, f.in_range)),
        small,
      )

-- The state in which `testfs_alloc_block` leaves `s` when it takes index `i`.
abbrev pub allocated : SuperBlock → Bitmap → ℕ → SuperBlock
allocated s blocks i = saved (add_used_blocks 1 (reserved s blocks i))

-- Only the word of the bit `i` changes.
pub taken-same : (b : Bitmap) (i k : ℕ) → k / block_size ≢ i / 65536 → (taken b i).v k ≡ b.v k
taken-same b i k h = ground arith

pub released-same : (b : Bitmap) (i k : ℕ) → k / block_size ≢ i / 65536 → (released b i).v k ≡ b.v k
released-same b i k h = ground arith

-- What `testfs_alloc_block` does: it refuses at the limit of blocks or where every index is in
-- use, and takes the first free index otherwise.
abbrev pub AllocBlockCases : SuperBlock → Bitmap → Run SuperBlock ℤ → Type 0
AllocBlockCases s blocks r =
    ((s.sb.max_fs_blocks ≤ s.sb.used_block_count) × (r ≡ ok no_space s))
    ⊎ (IsFull blocks × (r ≡ ok no_space s))
    ⊎ ((i : ℕ) × (s.sb.used_block_count < s.sb.max_fs_blocks)
        × FirstFree blocks i
        × (r ≡ ok (pos (146 + i)) (allocated s blocks i)))

module _ {inodes blocks : Bitmap} {s : SuperBlock} (m : IsMounted inodes blocks s) where
  pub alloc_block-first :
      (i : ℕ)
      → FirstFree blocks i
      → Bitmap.alloc blocks ≡ ok (done i) (taken blocks i)
      → leb s.sb.max_fs_blocks s.sb.used_block_count ≡ false
      → alloc_block s ≡ ok (pos (146 + i)) (allocated s blocks i)
  unfolding alloc_block
  alloc_block-first i f e room =
      let word : i % 2 ^ 32 ≡ i = omega (arith, f.in_range, m.blocks_ok.nbits) in
      let sum : (146 + i) % 2 ^ 32 ≡ 146 + i = omega (arith, f.in_range, m.blocks_ok.nbits) in
      let small : ltb (146 + i) (2 ^ 31) ≡ true = ground (arith, m.blocks_ok.nbits, f.in_range) in
      rw (
        room,
        get_block_freemap-first m i f e,
        write_super_block-saved,
        m.layout.data_blocks_at,
        word,
        sum,
        small,
      )

  pub alloc_block_lem : AllocBlockCases s blocks (alloc_block s)
  unfolding alloc_block
  alloc_block_lem = elim (Bool-cases (leb s.sb.max_fs_blocks s.sb.used_block_count)) [
    | inl limit ↦ inl (leb→le _ _ limit, rw (limit, alloc_block))
    | inr room ↦ elim (alloc_lem m.blocks_ok.valid) [
      | inl (i, f, e) ↦ inr (inr (i, ground arith, f, alloc_block-first i f e room))
      | inr (full, e) ↦ inr (inl (full, rw (room, get_block_freemap-full m full e)))
    ]
  ]
