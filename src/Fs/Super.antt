-- ===== src/Fs/Super.antt =====
-- fs/super.c: the super block, the inode and block freemaps, and their copies on the device.
-- Opening and closing the file, `fflush` and `free` are left out; `malloc` succeeds.
pub mod Inv
pub mod Alloc
pub mod Blocks
pub mod Codec
pub mod Inodes
pub mod Free
pub mod Keeps
pub mod Mount
pub mod Close
pub mod Mirror
use ece344_operating_systems.Base.{
  ℕ, ◌+◌, ◌-◌, ◌*◌, ◌/◌, ◌%◌, ◌^◌, Bool, true, false, not, Option, none, some, ltb, leb, ◌==◌,
  if◌then◌else◌,
}
use ece344_operating_systems.Base.Int.{ℤ, pos, negsuc, is_neg, to_nat, int_of_word, word_of_int}
use ece344_operating_systems.Base.Run.{
  Run, ok, halt, aborted, exited, Cmd, pure, ◌>>=◌, ◌>>◌, get_state, modify, assert,
}
use ece344_operating_systems.Fs.Bytes.{byte_of, word_at, long_at, put_bytes, put_word}
use ece344_operating_systems.Fs.Bitmap
use ece344_operating_systems.Fs.Bitmap.{Bitmap, Ret, done, enospc}
use ece344_operating_systems.Fs.Device.{
  Device, Buffer, block_size, zero_block, write_blocks, read_blocks, zero_blocks,
}

-- SUPER_BLOCK_SIZE, INODE_FREEMAP_SIZE, BLOCK_FREEMAP_SIZE and NR_INODE_BLOCKS of testfs.h
abbrev pub super_block_size : ℕ
super_block_size = 1

abbrev pub inode_freemap_size : ℕ
inode_freemap_size = 1

abbrev pub block_freemap_size : ℕ
block_freemap_size = 16

abbrev pub nr_inode_blocks : ℕ
nr_inode_blocks = 128

-- struct dsuper_block
pub record DsuperBlock : Type 0 where
  pub inode_freemap_start : ℕ
  pub block_freemap_start : ℕ
  pub inode_blocks_start : ℕ
  pub data_blocks_start : ℕ
  pub used_inode_count : ℕ
  pub used_block_count : ℕ
  pub max_fs_blocks : ℕ

-- struct super_block
pub record SuperBlock : Type 0 where
  pub sb : DsuperBlock
  pub dev : Device
  pub inode_freemap : Option Bitmap
  pub block_freemap : Option Bitmap

-- -ENOSPC
abbrev pub no_space : ℤ
no_space = negsuc 27

-- memcpy(block, &sb->sb, sizeof(struct dsuper_block)): six words and a 64-bit word
unfoldable pub encode : DsuperBlock → Buffer → Buffer
encode s block =
    put_bytes
      (put_word
        (put_word
          (put_word
            (put_word (put_word (put_word block 0 s.inode_freemap_start) 4 s.block_freemap_start) 8
              s.inode_blocks_start)
            12 s.data_blocks_start)
          16 s.used_inode_count)
        20 s.used_block_count)
      24 8 s.max_fs_blocks

-- memcpy(&sb->sb, block, sizeof(struct dsuper_block))
unfoldable pub decode : Buffer → DsuperBlock
decode block = record {
  inode_freemap_start = word_at block 0;
  block_freemap_start = word_at block 4;
  inode_blocks_start = word_at block 8;
  data_blocks_start = word_at block 12;
  used_inode_count = word_at block 16;
  used_block_count = word_at block 20;
  max_fs_blocks = long_at block 24;
}

-- A call on a part of the super block.
abbrev pub set_dev : {A : Type 0} → SuperBlock → Run Device A → Run SuperBlock A
set_dev s (ok a d) = ok a (record s { dev = d })
set_dev s (halt h) = halt h

abbrev pub on_dev : {A : Type 0} → Cmd Device A → Cmd SuperBlock A
on_dev m s = set_dev s (m s.dev)

abbrev pub set_block_freemap : {A : Type 0} → SuperBlock → Run Bitmap A → Run SuperBlock A
set_block_freemap s (ok a b) = ok a (record s { block_freemap = some b })
set_block_freemap s (halt h) = halt h

-- assert(sb->block_freemap), and the call on it
abbrev pub on_block_freemap : {A : Type 0} → Cmd Bitmap A → Cmd SuperBlock A
on_block_freemap m s = elim s.block_freemap [
  | none ↦ halt aborted
  | some b ↦ set_block_freemap s (m b)
]

abbrev pub set_inode_freemap : {A : Type 0} → SuperBlock → Run Bitmap A → Run SuperBlock A
set_inode_freemap s (ok a b) = ok a (record s { inode_freemap = some b })
set_inode_freemap s (halt h) = halt h

-- assert(sb->inode_freemap), and the call on it
abbrev pub on_inode_freemap : {A : Type 0} → Cmd Bitmap A → Cmd SuperBlock A
on_inode_freemap m s = elim s.inode_freemap [
  | none ↦ halt aborted
  | some b ↦ set_inode_freemap s (m b)
]

abbrev pub get_sb : {A : Type 0} → (DsuperBlock → Cmd SuperBlock A) → Cmd SuperBlock A
get_sb k s = k s.sb s

unfoldable pub write_super_block : Cmd SuperBlock (Unit {0})
write_super_block = get_sb λ d. on_dev (write_blocks (encode d zero_block) (pos 0) 1)

-- The block of a freemap with `start` that holds bit `nr`, from the bitmap's bytes.
abbrev pub write_freemap_block : Bitmap → ℕ → ℕ → Cmd SuperBlock (Unit {0})
write_freemap_block b start bit_nr =
    let nr = bit_nr / (block_size * 8) in
    on_dev
      (write_blocks (λ i. Bitmap.getdata b (nr * block_size + i)) (pos ((start + nr) % 2 ^ 32)) 1)

unfoldable pub write_inode_freemap : ℕ → Cmd SuperBlock (Unit {0})
write_inode_freemap inode_nr s = elim s.inode_freemap [
  | none ↦ halt aborted
  | some b ↦ write_freemap_block b s.sb.inode_freemap_start inode_nr s
]

unfoldable pub write_block_freemap : ℕ → Cmd SuperBlock (Unit {0})
write_block_freemap block_nr s = elim s.block_freemap [
  | none ↦ halt aborted
  | some b ↦ write_freemap_block b s.sb.block_freemap_start block_nr s
]

abbrev pub if_done : Ret ℕ → (ℕ → Cmd SuperBlock ℤ) → Cmd SuperBlock ℤ
if_done enospc k = pure no_space
if_done (done index) k = k index

-- The index comes back as an `int`.
unfoldable pub get_block_freemap : Cmd SuperBlock ℤ
unfolding write_block_freemap
get_block_freemap = do
  ret ← on_block_freemap Bitmap.alloc
  if_done ret λ index. write_block_freemap index >> pure (int_of_word index)

unfoldable pub put_block_freemap : ℕ → Cmd SuperBlock (Unit {0})
unfolding write_block_freemap
put_block_freemap block_nr = do
  on_block_freemap (Bitmap.unmark block_nr)
  write_block_freemap block_nr

abbrev pub add_used_inodes : ℕ → SuperBlock → SuperBlock
add_used_inodes n s = record s {
  sb = record (s.sb) { used_inode_count = (s.sb.used_inode_count + n) % 2 ^ 32 };
}

abbrev pub add_used_blocks : ℕ → SuperBlock → SuperBlock
add_used_blocks n s = record s {
  sb = record (s.sb) { used_block_count = (s.sb.used_block_count + n) % 2 ^ 32 };
}

-- Adding it takes one away from a `u32`.
abbrev pub minus_one : ℕ
minus_one = 2 ^ 32 - 1

unfoldable pub get_inode_freemap : Cmd SuperBlock ℤ
unfolding write_inode_freemap write_super_block
get_inode_freemap = do
  ret ← on_inode_freemap Bitmap.alloc
  if_done ret λ index. do
    write_inode_freemap index
    modify (add_used_inodes 1)
    write_super_block
    pure (int_of_word index)

unfoldable pub put_inode_freemap : ℕ → Cmd SuperBlock (Unit {0})
unfolding write_inode_freemap write_super_block
put_inode_freemap inode_nr = do
  on_inode_freemap (Bitmap.unmark inode_nr)
  write_inode_freemap inode_nr
  get_sb λ d. assert (ltb 0 d.used_inode_count)
  modify (add_used_inodes minus_one)
  write_super_block

unfoldable pub alloc_block : Cmd SuperBlock ℤ
unfolding get_block_freemap write_super_block
alloc_block = get_sb λ d. if leb d.max_fs_blocks d.used_block_count then pure no_space else do
  phy_block_nr ← get_block_freemap
  if is_neg phy_block_nr then pure phy_block_nr else do
    modify (add_used_blocks 1)
    write_super_block
    pure (int_of_word ((d.data_blocks_start + word_of_int phy_block_nr) % 2 ^ 32))

-- int block_nr -= sb->sb.data_blocks_start, in unsigned arithmetic
abbrev pub sub_start : ℤ → ℕ → ℤ
sub_start block_nr start = int_of_word ((word_of_int block_nr + 2 ^ 32 - start) % 2 ^ 32)

unfoldable pub free_block : ℤ → Cmd SuperBlock ℤ
unfolding put_block_freemap write_super_block
free_block block_nr = get_sb λ d. do
  on_dev (zero_blocks block_nr 1)
  let index = sub_start block_nr d.data_blocks_start
  assert (not (is_neg index))
  put_block_freemap (to_nat index)
  get_sb λ d. assert (ltb 0 d.used_block_count)
  modify (add_used_blocks minus_one)
  write_super_block
  pure (pos 0)

-- A file opened with "w" is empty.
abbrev pub empty_device : Device
empty_device = record { content = λ _. 0; size = 0; position = 0 }

-- The new super block of `testfs_make_super_block`, with no freemaps in memory.
abbrev pub new_super_block : ℕ → SuperBlock
new_super_block max_blocks =
    let inode_freemap_start = super_block_size in
    let block_freemap_start = inode_freemap_start + inode_freemap_size in
    let inode_blocks_start = block_freemap_start + block_freemap_size in
    record {
      sb = record {
        inode_freemap_start = inode_freemap_start;
        block_freemap_start = block_freemap_start;
        inode_blocks_start = inode_blocks_start;
        data_blocks_start = inode_blocks_start + nr_inode_blocks;
        used_inode_count = 0;
        used_block_count = 0;
        max_fs_blocks = max_blocks;
      };
      dev = empty_device;
      inode_freemap = none;
      block_freemap = none;
    }

unfoldable pub make_super_block : ℕ → Run SuperBlock (Unit {0})
unfolding write_super_block
make_super_block max_blocks = write_super_block (new_super_block max_blocks)

unfoldable pub make_inode_freemap : Cmd SuperBlock (Unit {0})
make_inode_freemap = get_sb λ d. on_dev (zero_blocks (pos d.inode_freemap_start) inode_freemap_size)

unfoldable pub make_block_freemap : Cmd SuperBlock (Unit {0})
make_block_freemap = get_sb λ d. on_dev (zero_blocks (pos d.block_freemap_start) block_freemap_size)

-- sizeof(struct dinode)
abbrev pub dinode_size : ℕ
dinode_size = 64

abbrev pub inodes_per_block : ℕ
inodes_per_block = block_size / dinode_size

unfoldable pub make_inode_blocks : Cmd SuperBlock (Unit {0})
make_inode_blocks = get_sb λ d.
    if ltb (block_size * inode_freemap_size * 8) (nr_inode_blocks * inodes_per_block)
    then (λ _. halt exited)
    else do
      assert (block_size % dinode_size == 0)
      on_dev (zero_blocks (pos d.inode_blocks_start) nr_inode_blocks)

abbrev pub fill_bitmap : Run Bitmap (Unit {0}) → ℕ → ℕ → Cmd Device Bitmap
fill_bitmap (ok _ b) start nr = read_blocks b.v (pos start) nr >>= λ v. pure (record b { v = v })
fill_bitmap (halt h) start nr = λ _. halt h

-- bitmap_create(nbits), and `read_blocks` of `nr` blocks into its data
unfoldable pub read_bitmap : ℕ → ℕ → ℕ → Cmd Device Bitmap
read_bitmap nbits start nr = fill_bitmap (Bitmap.create nbits) start nr

-- The in-memory super block read from a device that could be opened.
unfoldable pub init_super_block : Cmd Device SuperBlock
unfolding read_bitmap
init_super_block = do
  block ← read_blocks zero_block (pos 0) 1
  let d = decode block
  inode_map ←
      read_bitmap (block_size * inode_freemap_size * 8) d.inode_freemap_start inode_freemap_size
  block_map ←
      read_bitmap (block_size * block_freemap_size * 8) d.block_freemap_start block_freemap_size
  λ dev.
      ok
        (record {
          sb = d;
          dev = dev;
          inode_freemap = some inode_map;
          block_freemap = some block_map;
        })
        dev

abbrev pub write_bitmap : Option Bitmap → ℕ → ℕ → Cmd SuperBlock (Unit {0})
write_bitmap none start nr = pure tt
write_bitmap (some b) start nr = on_dev (write_blocks (Bitmap.getdata b) (pos start) nr)

abbrev pub drop_inode_freemap : SuperBlock → SuperBlock
drop_inode_freemap s = record s { inode_freemap = none }

abbrev pub drop_block_freemap : SuperBlock → SuperBlock
drop_block_freemap s = record s { block_freemap = none }

-- What testfs_close_super_block does with the freemaps.
unfoldable pub close_freemaps : Cmd SuperBlock (Unit {0})
close_freemaps = do
  s ← get_state
  write_bitmap s.inode_freemap s.sb.inode_freemap_start inode_freemap_size
  modify drop_inode_freemap
  write_bitmap s.block_freemap s.sb.block_freemap_start block_freemap_size
  modify drop_block_freemap
