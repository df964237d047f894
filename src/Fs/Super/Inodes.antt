-- ===== src/Fs/Super/Inodes.antt =====
-- fs/super.c: `testfs_get_inode_freemap` and `testfs_put_inode_freemap` on a mounted super block.
use ece344_operating_systems.Base.{
  ℕ, ◌^◌, ◌<◌, ◌≡◌, ◌⊎◌, inl, inr, ltb, lt→ltb, arith, refl, true, false,
}
use ece344_operating_systems.Base.Int.{ℤ, pos}
use ece344_operating_systems.Base.Run.{Run, ok}
use ece344_operating_systems.Fs.Bitmap
use ece344_operating_systems.Fs.Bitmap.{Bitmap, done, enospc}
use ece344_operating_systems.Fs.Bitmap.View.{bit}
use ece344_operating_systems.Fs.Bitmap.Alloc.{taken, FirstFree, IsFull, alloc_lem}
use ece344_operating_systems.Fs.Bitmap.Mark.{released, unmark_lem}
use ece344_operating_systems.Fs.Bitmap.Count.{
  nr_allocated-taken, nr_allocated-released, nr_allocated-le,
}
use ece344_operating_systems.Fs.Super.{
  SuperBlock, no_space, get_inode_freemap, put_inode_freemap, add_used_inodes, minus_one,
}
use ece344_operating_systems.Fs.Super.Inv.{
  IsMounted, saved, synced, write_super_block-saved, write_inode_freemap-synced,
}
use ece344_operating_systems.Fs.Super.Blocks.{with_inodes, taken-same, released-same}
use ece344_operating_systems.Fs.Super.Keeps.{taken-IsFreemap, released-IsFreemap, inodes-IsMounted}

-- The state in which `testfs_get_inode_freemap` leaves `s` when it takes inode `i`.
abbrev pub inode_taken : SuperBlock → Bitmap → ℕ → SuperBlock
inode_taken s inodes i =
    saved (add_used_inodes 1 (synced (with_inodes s (taken inodes i)) (taken inodes i) 1 i))

-- The state in which `testfs_put_inode_freemap` leaves `s` when it gives inode `i` back.
abbrev pub inode_released : SuperBlock → Bitmap → ℕ → SuperBlock
inode_released s inodes i =
    saved (
      add_used_inodes minus_one
        (synced (with_inodes s (released inodes i)) (released inodes i) 1 i))

abbrev pub GetInodeCases : SuperBlock → Bitmap → Run SuperBlock ℤ → Type 0
GetInodeCases s inodes r =
    (IsFull inodes × (r ≡ ok no_space s))
    ⊎ ((i : ℕ) × FirstFree inodes i × (r ≡ ok (pos i) (inode_taken s inodes i)))

module _ {inodes blocks : Bitmap} {s : SuperBlock} (m : IsMounted inodes blocks s) where
  pub get_inode_freemap-first :
      (i : ℕ)
      → FirstFree inodes i
      → Bitmap.alloc inodes ≡ ok (done i) (taken inodes i)
      → get_inode_freemap s ≡ ok (pos i) (inode_taken s inodes i)
  unfolding get_inode_freemap
  get_inode_freemap-first i f e =
      let small : ltb i (2 ^ 31) ≡ true = ground (arith, m.inodes_ok.nbits, f.in_range) in
      rw (
        m.inode_map,
        e,
        write_inode_freemap-synced (with_inodes s (taken inodes i)) (taken inodes i) i refl m.layout
            (omega (arith, f.in_range, m.inodes_ok.nbits)),
        write_super_block-saved,
        small,
      )

  pub get_inode_freemap_lem : GetInodeCases s inodes (get_inode_freemap s)
  unfolding get_inode_freemap
  get_inode_freemap_lem = elim (alloc_lem m.inodes_ok.valid) [
    | inl (i, f, e) ↦ inr (i, f, get_inode_freemap-first i f e)
    | inr (full, e) ↦ inl (full, rw (m.inode_map, e))
  ]

  pub inode_taken-IsMounted :
      (i : ℕ)
      → bit inodes i ≡ false
      → i < inodes.nbits
      → IsMounted (taken inodes i) blocks (inode_taken s inodes i)
  inode_taken-IsMounted i free lt =
      inodes-IsMounted m (taken inodes i) i 1 (omega (arith, m.inodes_ok.nbits))
        (taken-IsFreemap i m.inodes_ok) (taken-same inodes i)
        (omega (
          arith,
          m.used_inodes,
          m.inodes_ok.nbits,
          nr_allocated-le inodes,
          nr_allocated-taken inodes i m.inodes_ok.valid.bytes free lt,
        ))

  pub put_inode_freemap-used :
      (i : ℕ)
      → bit inodes i ≡ true
      → i < inodes.nbits
      → put_inode_freemap i s ≡ ok tt (inode_released s inodes i)
  unfolding put_inode_freemap
  put_inode_freemap-used i used lt =
      let count = nr_allocated-released inodes i m.inodes_ok.valid.bytes used lt in
      let some_used : ltb 0 s.sb.used_inode_count ≡ true = ground (arith, count, m.used_inodes) in
      rw (
        m.inode_map,
        unmark_lem,
        used,
        lt→ltb _ _ lt,
        write_inode_freemap-synced (with_inodes s (released inodes i)) (released inodes i) i refl
            m.layout (omega (arith, m.inodes_ok.nbits)),
        some_used,
        write_super_block-saved,
      )

  pub inode_released-IsMounted :
      (i : ℕ)
      → bit inodes i ≡ true
      → i < inodes.nbits
      → IsMounted (released inodes i) blocks (inode_released s inodes i)
  inode_released-IsMounted i used lt =
      inodes-IsMounted m (released inodes i) i minus_one (omega (arith, m.inodes_ok.nbits))
        (released-IsFreemap i m.inodes_ok lt) (released-same inodes i)
        (omega (
          arith,
          m.used_inodes,
          m.inodes_ok.nbits,
          nr_allocated-le inodes,
          nr_allocated-released inodes i m.inodes_ok.valid.bytes used lt,
        ))
