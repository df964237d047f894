-- ===== src/Fs/File.antt =====
-- An open file: fs/inode.c's `struct inode` with the super block that it points to, and the
-- allocation of its blocks.
use ece344_operating_systems.Base.{ℕ, ◌+◌, ◌*◌, ◌%◌, ◌^◌, Bool, true, if◌then◌else◌}
use ece344_operating_systems.Base.Int.{ℤ, is_neg, is_zero, int_of_word, word_of_int}
use ece344_operating_systems.Base.Run.{Run, ok, halt, Cmd, pure, ◌>>=◌, ◌>>◌, modify}
use ece344_operating_systems.Fs.Bytes.{word_at, put_word}
use ece344_operating_systems.Fs.Device.{Device, Buffer}
use ece344_operating_systems.Fs.Super.{SuperBlock, on_dev, alloc_block, free_block, minus_one}

-- NR_DIRECT_BLOCKS and NR_INDIRECT_BLOCKS
abbrev pub nr_direct_blocks : ℕ
nr_direct_blocks = 10

abbrev pub nr_indirect_blocks : ℕ
nr_indirect_blocks = 2048

-- struct dinode; `i_type` and `block_count` are the bit patterns of an `s32`, `i_size` is the
-- `off_t`, which is never negative
pub record Dinode : Type 0 where
  pub i_type : ℕ
  pub i_block_nr : ℕ → ℤ
  pub i_indirect : ℤ
  pub i_dindirect : ℤ
  pub block_count : ℕ
  pub i_size : ℕ

-- struct inode, without its hash link and its super block
pub record Inode : Type 0 where
  pub din : Dinode
  pub dirty : Bool
  pub i_nr : ℕ
  pub i_count : ℕ

-- An inode and `in->sb`.
pub record File : Type 0 where
  pub node : Inode
  pub super : SuperBlock

-- ((int *) block)[i], and its assignment
unfoldable pub int_at : Buffer → ℕ → ℤ
int_at block i = int_of_word (word_at block (4 * i))

unfoldable pub put_int : Buffer → ℕ → ℤ → Buffer
put_int block i n = put_word block (4 * i) (word_of_int n)

abbrev pub set_super : {A : Type 0} → File → Run SuperBlock A → Run File A
set_super f (ok a s) = ok a (record f { super = s })
set_super f (halt h) = halt h

-- A call on `in->sb`.
abbrev pub on_super : {A : Type 0} → Cmd SuperBlock A → Cmd File A
on_super m f = set_super f (m f.super)

abbrev pub on_file_dev : {A : Type 0} → Cmd Device A → Cmd File A
on_file_dev m = on_super (on_dev m)

abbrev pub update_din : (Dinode → Dinode) → File → File
update_din g f = record f { node = record (f.node) { din = g (f.node.din) } }

abbrev pub set_dirty : File → File
set_dirty f = record f { node = record (f.node) { dirty = true } }

-- in->in.block_count += n, in->i_flags |= I_FLAGS_DIRTY
abbrev pub count_blocks : ℕ → File → File
count_blocks n f =
    set_dirty (update_din (λ d. record d { block_count = (d.block_count + n) % 2 ^ 32 }) f)

abbrev pub get_din : {A : Type 0} → (Dinode → Cmd File A) → Cmd File A
get_din k f = k f.node.din f

unfoldable pub alloc_block_for_inode : Cmd File ℤ
alloc_block_for_inode = do
  phy_block_nr ← on_super alloc_block
  if is_neg phy_block_nr then pure phy_block_nr else do modify (count_blocks 1); pure phy_block_nr

unfoldable pub free_block_from_inode : ℤ → Cmd File (Unit {0})
free_block_from_inode phy_block_nr =
    if is_zero phy_block_nr
    then pure tt
    else do on_super (free_block phy_block_nr); modify (count_blocks minus_one)
