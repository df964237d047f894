-- ===== src/Fs/Dinode/Sync.antt =====
-- fs/inode.c: what `testfs_sync_inode` writes and what `testfs_get_inode` reads.
use ece344_operating_systems.Base.{
  ℕ, ◌+◌, ◌-◌, ◌*◌, ◌/◌, ◌%◌, ◌^◌, ◌<◌, ◌≤◌, ◌≡◌, ap, ◌∙◌, refl, ◌⊎◌, true, ltb, leb, arith,
  Bool-cases, inl, inr, if◌then◌else◌,
}
use ece344_operating_systems.Base.Run.{Run, ok, pure}
use ece344_operating_systems.Fs.Device.{Device, Buffer, block_size, zero_block}
use ece344_operating_systems.Fs.Device.Laws.{written, read_blocks_lem, write_blocks_lem}
use ece344_operating_systems.Fs.Super.{SuperBlock, dinode_size}
use ece344_operating_systems.Fs.File.{Dinode, File, update_din}
use ece344_operating_systems.Fs.Dinode.{
  encode_dinode, decode_dinode, memcpy_to, read_inode_block, inode_to_block_nr,
  inode_to_block_offset, write_inode_block, write_back, load_inode, sync_inode, clear_dirty,
}
use ece344_operating_systems.Fs.Dinode.Codec.{
  Fits, Same, Same-trans, decode-encode_dinode, decode_dinode-eq,
}

-- Where the device holds inode `nr`.
abbrev pub address : ℕ → ℕ
address nr = (18 + nr / 128) * block_size + nr % 128 * dinode_size

-- The inode `nr` on the device.
abbrev pub on_disk : Device → ℕ → Dinode
on_disk d nr = decode_dinode λ i. d.content (address nr + i)

-- The inode blocks are on the device.
pub record HasInodes (s : SuperBlock) : Type 0 where
  pub start : s.sb.inode_blocks_start ≡ 18
  pub sized : 146 * block_size ≤ s.dev.size

abbrev pub its_block : Device → ℕ → Buffer
its_block d nr i =
    if ltb i (1 * block_size) then d.content ((18 + nr / 128) * block_size + i) else 0

-- The device behind the sync.
abbrev pub synced_dev : Device → ℕ → Dinode → Device
synced_dev d nr din =
    written d (memcpy_to (its_block d nr) (nr % 128 * dinode_size) (encode_dinode din) dinode_size)
      (18 + nr / 128) 1

abbrev pub set_file_dev : File → Device → File
set_file_dev f d = record f { super = record (f.super) { dev = d } }

read_inode_block_lem :
    (f : File) (nr : ℕ)
    → f.node.i_nr ≡ nr
    → nr < 16384
    → HasInodes f.super
    → read_inode_block f ≡ ok (its_block f.super.dev nr) f
unfolding read_inode_block inode_to_block_nr
read_inode_block_lem f nr e lt h =
    let in_range : ltb (nr / 128) 128 ≡ true = ground arith in
    let at : (18 + nr / 128) % 2 ^ 32 ≡ 18 + nr / 128 = omega arith in
    let room : (18 + nr / 128) * block_size + 1 * block_size ≤ f.super.dev.size =
      omega (arith, h.sized) in
    rw (e, in_range, h.start, at, read_blocks_lem f.super.dev zero_block (18 + nr / 128) 1 room)
      refl

inode_to_block_offset_lem :
    (f : File) (nr : ℕ) → f.node.i_nr ≡ nr → inode_to_block_offset f ≡ ok (nr % 128 * dinode_size) f
unfolding inode_to_block_offset
inode_to_block_offset_lem f nr e =
    let in_block : ltb (nr % 128 * dinode_size) block_size ≡ true = ground arith in
    rw (e, in_block) refl

-- Reading an inode gives what the device holds.
pub load_inode_lem :
    (f : File) (nr : ℕ)
    → f.node.i_nr ≡ nr
    → nr < 16384
    → HasInodes f.super
    → (din : Dinode) × (load_inode f ≡ ok tt (update_din (λ _. din) f))
      × Same din (on_disk f.super.dev nr)
unfolding load_inode
load_inode_lem f nr e lt h = (
  decode_dinode λ i. its_block f.super.dev nr (nr % 128 * dinode_size + i),
  rw (read_inode_block_lem f nr e lt h, inode_to_block_offset_lem f nr e) refl,
  decode_dinode-eq (λ i. its_block f.super.dev nr (nr % 128 * dinode_size + i))
      (λ i. f.super.dev.content (address nr + i)) (λ i hi. ground (arith, hi)),
)

-- The inode is on the device and clean; the other bytes of the device, and the rest, stay.
pub record Syncs (f : File) (r : Run File (Unit {0})) : Type 0 where
  pub device : Device
  pub run : r ≡ ok tt (clear_dirty (set_file_dev f device))
  pub stored : Same (on_disk device f.node.i_nr) f.node.din
  pub others :
      (a : ℕ)
      → (a < address f.node.i_nr) ⊎ (address f.node.i_nr + dinode_size ≤ a)
      → device.content a ≡ f.super.dev.content a
  pub size : device.size ≡ f.super.dev.size

module _ (f : File) (nr : ℕ) (at_nr : f.node.i_nr ≡ nr) (lt : nr < 16384)
    (h : HasInodes f.super) where
  write_back_lem :
      write_back f ≡ ok tt (clear_dirty (set_file_dev f (synced_dev f.super.dev nr f.node.din)))
  unfolding write_back write_inode_block inode_to_block_nr
  write_back_lem =
      let in_range : ltb (nr / 128) 128 ≡ true = ground arith in
      let at : (18 + nr / 128) % 2 ^ 32 ≡ 18 + nr / 128 = omega arith in
      rw
        (
          read_inode_block_lem f nr at_nr lt h,
          inode_to_block_offset_lem f nr at_nr,
          at_nr,
          in_range,
          h.start,
          at,
          write_blocks_lem,
        )
        refl

  sync_inode_lem :
      f.node.dirty ≡ true
      → sync_inode f ≡ ok tt (clear_dirty (set_file_dev f (synced_dev f.super.dev nr f.node.din)))
  unfolding sync_inode
  sync_inode_lem dirty = ap (λ b. (if b then write_back else pure tt) f) dirty ∙ write_back_lem

  stored_inode :
      Fits f.node.din → Same (on_disk (synced_dev f.super.dev nr f.node.din) nr) f.node.din
  unfolding memcpy_to
  stored_inode fits =
      let din = f.node.din in
      Same-trans
        (decode_dinode-eq (λ i. (synced_dev f.super.dev nr din).content (address nr + i))
          (encode_dinode din)
          (λ i hi.
            let back : nr % 128 * dinode_size + i - nr % 128 * dinode_size ≡ i = omega arith in
            let off : address nr + i - (18 + nr / 128) * block_size ≡ nr % 128 * dinode_size + i =
              omega arith in
            ground (arith, hi, off, ap (encode_dinode din) back)))
        (decode-encode_dinode din fits)

  other_bytes :
      (a : ℕ)
      → (a < address nr) ⊎ (address nr + dinode_size ≤ a)
      → (synced_dev f.super.dev nr f.node.din).content a ≡ f.super.dev.content a
  unfolding memcpy_to
  other_bytes a out = elim (Bool-cases (leb ((18 + nr / 128) * block_size) a)) [
    | inl e ↦
        let back : (18 + nr / 128) * block_size + (a - (18 + nr / 128) * block_size) ≡ a =
          ground (arith, e) in
        ground (arith, ap f.super.dev.content back)
    | inr e ↦ ground arith
  ]

  -- testfs_sync_inode of a dirty inode in range, whose fields fit their types and where the inode
  -- blocks are on the device, ends with the inode clean and its fields stored in its place on the
  -- device; every other byte of the device, its size and the fields of the super block stay.
  pub sync_inode-Syncs : f.node.dirty ≡ true → Fits f.node.din → Syncs f (sync_inode f)
  sync_inode-Syncs dirty fits = record {
    device = synced_dev f.super.dev nr f.node.din;
    run = sync_inode_lem dirty;
    stored = rw (at_nr) (stored_inode fits);
    others = λ a out. other_bytes a (rw at_nr at out);
    size = omega (arith, h.sized);
  }

  -- load after sync.
  pub load-sync :
      f.node.dirty ≡ true
      → Fits f.node.din
      → (g : File) → g.node.i_nr ≡ nr
      → (s : File) × (sync_inode f ≡ ok tt s)
        × ((din : Dinode) × (load_inode (record g { super = s.super })
              ≡ ok tt (update_din (λ _. din) (record g { super = s.super })))
            × Same din f.node.din)
  load-sync dirty fits g at_g =
      let s = clear_dirty (set_file_dev f (synced_dev f.super.dev nr f.node.din)) in
      let l =
        load_inode_lem (record g { super = s.super }) nr at_g lt
          (record { start = h.start; sized = omega (arith, h.sized) }) in
      (s, sync_inode_lem dirty, (l.0, l.1, Same-trans l.2 (stored_inode fits)))
