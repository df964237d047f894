-- ===== src/Fs/Super/Alloc.antt =====
-- fs/super.c: allocation and release of blocks and inodes, as a client sees them.
use ece344_operating_systems.Base.{ℕ, ◌+◌, ◌*◌, ◌%◌, ◌^◌, ◌≤◌, ◌<◌, ◌≡◌, ◌⊎◌, inl, inr, arith, true}
use mathlib.Core.Path.{subst}
use ece344_operating_systems.Base.Int.{ℤ, pos}
use ece344_operating_systems.Base.Run.{Run, ok}
use ece344_operating_systems.Fs.Bitmap.{Bitmap}
use ece344_operating_systems.Fs.Bitmap.View.{bit, bit-set_bits, clear-set_bits}
use ece344_operating_systems.Fs.Bitmap.Alloc.{taken, FirstFree, IsFull}
use ece344_operating_systems.Fs.Bitmap.Mark.{released}
use ece344_operating_systems.Fs.Bitmap.Count.{nr_allocated-le, nr_allocated-released}
use ece344_operating_systems.Fs.Device.{block_size}
use ece344_operating_systems.Fs.Super.{
  SuperBlock, no_space, alloc_block, free_block, get_inode_freemap, put_inode_freemap, minus_one,
}
use ece344_operating_systems.Fs.Super.Inv.{IsMounted}
use ece344_operating_systems.Fs.Super.Blocks.{allocated, alloc_block_lem}
use ece344_operating_systems.Fs.Super.Inodes.{
  inode_taken, inode_released, get_inode_freemap_lem, inode_taken-IsMounted, put_inode_freemap-used,
  inode_released-IsMounted,
}
use ece344_operating_systems.Fs.Super.Free.{freed, free_block-used, freed-IsMounted}
use ece344_operating_systems.Fs.Super.Keeps.{allocated-IsMounted}

-- A refusal changes nothing; a success returns the block of the first free index, and leaves a
-- mounted super block in which just this index is taken.
abbrev pub AllocatesBlock : Bitmap → Bitmap → SuperBlock → Run SuperBlock ℤ → Type 0
AllocatesBlock inodes blocks s r =
    (((s.sb.max_fs_blocks ≤ s.sb.used_block_count) ⊎ IsFull blocks) × (r ≡ ok no_space s))
    ⊎ ((i : ℕ) × (s' : SuperBlock) × FirstFree blocks i
        × (s.sb.used_block_count < s.sb.max_fs_blocks)
        × (r ≡ ok (pos (146 + i)) s')
        × IsMounted inodes (taken blocks i) s'
        × (s'.sb.used_block_count ≡ s.sb.used_block_count + 1))

taken-bit : (b : Bitmap) (i : ℕ) → ((ix : ℕ) → b.v ix < 256) → bit (taken b i) i ≡ true
taken-bit b i bytes = ground (arith, bit-set_bits b i bytes i)

module _ {inodes blocks : Bitmap} {s : SuperBlock} (m : IsMounted inodes blocks s) where
  count-up :
      s.sb.used_block_count < s.sb.max_fs_blocks
      → (s.sb.used_block_count + 1) % 2 ^ 32 ≡ s.sb.used_block_count + 1
  count-up h = omega (arith, m.used_blocks, nr_allocated-le blocks, m.blocks_ok.nbits)

  count-down :
      (i : ℕ)
      → bit blocks i ≡ true
      → i < blocks.nbits
      → (s.sb.used_block_count + minus_one) % 2 ^ 32 + 1 ≡ s.sb.used_block_count
  count-down i used lt = omega (
    arith,
    nr_allocated-released blocks i m.blocks_ok.valid.bytes used lt,
    m.used_blocks,
    nr_allocated-le blocks,
    m.blocks_ok.nbits,
  )

  -- `testfs_alloc_block` on a mounted super block answers -ENOSPC and changes nothing at the limit
  -- of blocks or where every index is in use; else it returns the block of the first free index,
  -- marks it, counts it, and keeps memory and device in agreement.
  pub alloc_block-AllocatesBlock : AllocatesBlock inodes blocks s (alloc_block s)
  alloc_block-AllocatesBlock = elim (alloc_block_lem m) [
    | inl (limit, e) ↦ inl (inl limit, e)
    | inr (inl (full, e)) ↦ inl (inr full, e)
    | inr (inr (i, room, f, e)) ↦ inr (
      i,
      allocated s blocks i,
      f,
      room,
      e,
      allocated-IsMounted m i f.free f.in_range room,
      count-up room,
    )
  ]

  -- `testfs_free_block` on a data block that is in use succeeds, leaves a mounted super block in
  -- which just its index is free again and one block less is counted, and zeroes its bytes.
  pub free_block_lem :
      (i : ℕ)
      → bit blocks i ≡ true
      → i < blocks.nbits
      → (s' : SuperBlock) × (free_block (pos (146 + i)) s ≡ ok (pos 0) s')
        × IsMounted inodes (released blocks i) s'
        × (s'.sb.used_block_count + 1 ≡ s.sb.used_block_count)
        × ((a : ℕ) → a < block_size → s'.dev.content ((146 + i) * block_size + a) ≡ 0)
  free_block_lem i used lt =
      let m' = freed-IsMounted m i used lt in
      (
        freed s blocks i,
        free_block-used m i used lt,
        m',
        count-down i used lt,
        λ a h. ground (arith, m.blocks_ok.nbits),
      )

module _ {inodes blocks : Bitmap} {s : SuperBlock} (m : IsMounted inodes blocks s) where
  free-taken :
      (i : ℕ)
      → FirstFree blocks i
      → s.sb.used_block_count < s.sb.max_fs_blocks
      → (s'' : SuperBlock) × (free_block (pos (146 + i)) (allocated s blocks i) ≡ ok (pos 0) s'')
        × IsMounted inodes blocks s''
        × (s''.sb ≡ s.sb)
  free-taken i f room =
      let m₁ = allocated-IsMounted m i f.free f.in_range room in
      let used = taken-bit blocks i m.blocks_ok.valid.bytes in
      let restored = clear-set_bits blocks i m.blocks_ok.valid.bytes f.free in
      let s₂ = freed (allocated s blocks i) (taken blocks i) i in
      let count : ((s.sb.used_block_count + 1) % 2 ^ 32 + minus_one) % 2 ^ 32
          ≡ s.sb.used_block_count =
        omega (arith, m.used_blocks, nr_allocated-le blocks, m.blocks_ok.nbits) in
      (
        s₂,
        free_block-used m₁ i used f.in_range,
        subst (λ b. IsMounted inodes b s₂) restored (freed-IsMounted m₁ i used f.in_range),
        λ k. record (s.sb) { used_block_count = count k },
      )

  -- Freeing the block that `testfs_alloc_block` returned succeeds and gives a mounted super block
  -- with the freemaps and the fields from before the allocation.
  pub free-alloc :
      {s' : SuperBlock} (n : ℕ)
      → alloc_block s ≡ ok (pos n) s'
      → (s'' : SuperBlock) × (free_block (pos n) s' ≡ ok (pos 0) s'')
        × IsMounted inodes blocks s''
        × (s''.sb ≡ s.sb)
  free-alloc {s'} n e = elim (alloc_block_lem m) [
    | inl (limit, e') ↦ cc
    | inr (inl (full, e')) ↦ cc
    | inr (inr (i, room, f, e')) ↦
        let block : 146 + i ≡ n = cc in
        let state : allocated s blocks i ≡ s' = cc in rw (← block, ← state) (free-taken i f room)
  ]

-- A refusal changes nothing; a success returns the first free inode, and leaves a mounted super
-- block in which just this inode is taken and counted.
abbrev pub GetsInode : Bitmap → Bitmap → SuperBlock → Run SuperBlock ℤ → Type 0
GetsInode inodes blocks s r =
    (IsFull inodes × (r ≡ ok no_space s))
    ⊎ ((i : ℕ) × (s' : SuperBlock) × FirstFree inodes i
        × (r ≡ ok (pos i) s')
        × IsMounted (taken inodes i) blocks s'
        × (s'.sb.used_inode_count ≡ s.sb.used_inode_count + 1))

module _ {inodes blocks : Bitmap} {s : SuperBlock} (m : IsMounted inodes blocks s) where
  -- `testfs_get_inode_freemap` on a mounted super block answers -ENOSPC and changes nothing where
  -- every inode is in use; else it returns the first free inode, marks it, counts it, and keeps
  -- memory and device in agreement.
  pub get_inode_freemap-GetsInode : GetsInode inodes blocks s (get_inode_freemap s)
  get_inode_freemap-GetsInode = elim (get_inode_freemap_lem m) [
    | inl refused ↦ inl refused
    | inr (i, f, e) ↦ inr (
      i,
      inode_taken s inodes i,
      f,
      e,
      inode_taken-IsMounted m i f.free f.in_range,
      omega (arith, m.used_inodes, nr_allocated-le inodes, m.inodes_ok.nbits),
    )
  ]

  put-taken :
      (i : ℕ)
      → FirstFree inodes i
      → (s'' : SuperBlock) × (put_inode_freemap i (inode_taken s inodes i) ≡ ok tt s'')
        × IsMounted inodes blocks s''
        × (s''.sb ≡ s.sb)
  put-taken i f =
      let m₁ = inode_taken-IsMounted m i f.free f.in_range in
      let used = taken-bit inodes i m.inodes_ok.valid.bytes in
      let restored = clear-set_bits inodes i m.inodes_ok.valid.bytes f.free in
      let s₂ = inode_released (inode_taken s inodes i) (taken inodes i) i in
      let count : ((s.sb.used_inode_count + 1) % 2 ^ 32 + minus_one) % 2 ^ 32
          ≡ s.sb.used_inode_count =
        omega (arith, m.used_inodes, nr_allocated-le inodes, m.inodes_ok.nbits) in
      (
        s₂,
        put_inode_freemap-used m₁ i used f.in_range,
        subst (λ b. IsMounted b blocks s₂) restored (inode_released-IsMounted m₁ i used f.in_range),
        λ k. record (s.sb) { used_inode_count = count k },
      )

  -- Releasing the inode that `testfs_get_inode_freemap` returned succeeds and gives a mounted super
  -- block with the freemaps and the fields from before.
  pub put-get_inode :
      {s' : SuperBlock} (n : ℕ)
      → get_inode_freemap s ≡ ok (pos n) s'
      → (s'' : SuperBlock) × (put_inode_freemap n s' ≡ ok tt s'')
        × IsMounted inodes blocks s''
        × (s''.sb ≡ s.sb)
  put-get_inode {s'} n e = elim (get_inode_freemap_lem m) [
    | inl (full, e') ↦ cc
    | inr (i, f, e') ↦
        let inode : i ≡ n = cc in
        let state : inode_taken s inodes i ≡ s' = cc in rw (← inode, ← state) (put-taken i f)
  ]
