-- ===== src/Fs/Dinode.antt =====
-- fs/inode.c: inodes and their copies on the device.
-- An `i_nr` is the bit pattern of an `int`, so it is never negative and dividing it is the unsigned
-- division that the code makes.
pub mod Codec
pub mod Sync
use ece344_operating_systems.Base.{
  ℕ, zero, suc, ◌+◌, ◌-◌, ◌*◌, ◌/◌, ◌%◌, ◌^◌, Bool, false, not, ◌&&◌, ltb, leb, if◌then◌else◌,
}
use ece344_operating_systems.Base.Int.{ℤ, pos, int_of_word, word_of_int}
use ece344_operating_systems.Base.Run.{Cmd, pure, ◌>>=◌, ◌>>◌, modify, assert}
use ece344_operating_systems.Fs.Bytes.{word_at, long_at, put_bytes, put_word}
use ece344_operating_systems.Fs.Device.{Buffer, block_size, zero_block, read_blocks, write_blocks}
use ece344_operating_systems.Fs.Super.{nr_inode_blocks, inodes_per_block, dinode_size}
use ece344_operating_systems.Fs.File.{
  nr_direct_blocks, Dinode, File, on_file_dev, update_din, get_din,
}

-- The first `n` numbers of an array of `int`, from offset `off` on.
unfoldable pub put_ints : ℕ → (ℕ → ℤ) → ℕ → Buffer → Buffer
put_ints zero f off block = block
put_ints (suc n) f off block = put_word (put_ints n f off block) (off + 4 * n) (word_of_int (f n))

-- The bytes of a struct dinode, and the struct that bytes hold.
unfoldable pub encode_dinode : Dinode → Buffer
unfolding put_ints
encode_dinode d =
    put_bytes
      (put_word
        (put_word
          (put_word (put_ints nr_direct_blocks d.i_block_nr 4 (put_word zero_block 0 d.i_type)) 44
            (word_of_int d.i_indirect))
          48 (word_of_int d.i_dindirect))
        52 d.block_count)
      56 8 d.i_size

unfoldable pub decode_dinode : Buffer → Dinode
decode_dinode block = record {
  i_type = word_at block 0;
  i_block_nr = λ n. int_of_word (word_at block (4 + 4 * n));
  i_indirect = int_of_word (word_at block 44);
  i_dindirect = int_of_word (word_at block 48);
  block_count = word_at block 52;
  i_size = long_at block 56;
}

-- memcpy(block + off, src, n)
unfoldable pub memcpy_to : Buffer → ℕ → Buffer → ℕ → Buffer
memcpy_to block off src n i = if leb off i && ltb i (off + n) then src (i - off) else block i

abbrev pub get_i_nr : {A : Type 0} → (ℕ → Cmd File A) → Cmd File A
get_i_nr k f = k f.node.i_nr f

unfoldable pub inode_to_block_nr : Cmd File ℕ
inode_to_block_nr =
    get_i_nr
      λ nr. do assert (ltb (nr / inodes_per_block) nr_inode_blocks); pure (nr / inodes_per_block)

unfoldable pub inode_to_block_offset : Cmd File ℕ
inode_to_block_offset = get_i_nr λ nr. do
  let block_offset = nr % inodes_per_block * dinode_size
  assert (ltb block_offset block_size)
  pure block_offset

abbrev pub get_inode_blocks_start : {A : Type 0} → (ℕ → Cmd File A) → Cmd File A
get_inode_blocks_start k f = k f.super.sb.inode_blocks_start f

-- All bytes of the local array `block` are read from the device.
unfoldable pub read_inode_block : Cmd File Buffer
unfolding inode_to_block_nr
read_inode_block = do
  block_nr ← inode_to_block_nr
  get_inode_blocks_start
      λ start. on_file_dev (read_blocks zero_block (pos ((start + block_nr) % 2 ^ 32)) 1)

unfoldable pub write_inode_block : Buffer → Cmd File (Unit {0})
unfolding inode_to_block_nr
write_inode_block block = do
  block_nr ← inode_to_block_nr
  get_inode_blocks_start
      λ start. on_file_dev (write_blocks block (pos ((start + block_nr) % 2 ^ 32)) 1)

-- Reading the inode from the device into memory, in testfs_get_inode.
unfoldable pub load_inode : Cmd File (Unit {0})
unfolding read_inode_block inode_to_block_offset decode_dinode
load_inode = do
  block ← read_inode_block
  block_offset ← inode_to_block_offset
  modify (update_din λ _. decode_dinode λ i. block (block_offset + i))

abbrev pub get_dirty : {A : Type 0} → (Bool → Cmd File A) → Cmd File A
get_dirty k f = k f.node.dirty f

abbrev pub clear_dirty : File → File
clear_dirty f = record f { node = record (f.node) { dirty = false } }

-- What testfs_sync_inode does with a dirty inode.
unfoldable pub write_back : Cmd File (Unit {0})
unfolding read_inode_block inode_to_block_offset write_inode_block encode_dinode memcpy_to
write_back = do
  block ← read_inode_block
  block_offset ← inode_to_block_offset
  get_din λ d. write_inode_block (memcpy_to block block_offset (encode_dinode d) dinode_size)
  modify clear_dirty

unfoldable pub sync_inode : Cmd File (Unit {0})
unfolding write_back
sync_inode = get_dirty λ dirty. if dirty then write_back else pure tt

unfoldable pub inode_get_nr : Cmd File ℕ
inode_get_nr = get_i_nr pure

unfoldable pub inode_get_type : Cmd File ℕ
inode_get_type = get_din λ d. pure d.i_type

unfoldable pub inode_get_size : Cmd File ℕ
inode_get_size = get_din λ d. pure d.i_size

unfoldable pub inode_get_block_count : Cmd File ℤ
inode_get_block_count = get_din λ d. pure (int_of_word d.block_count)
