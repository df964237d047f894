-- ===== src/Fs/Growth.antt =====
-- fs/read_write.c: allocating the blocks of a file, and writing its data.
pub mod Answers
use Prim.Native.Nat.{min}
use ece344_operating_systems.Base.{
  ℕ, zero, suc, ◌+◌, ◌-◌, ◌/◌, ◌%◌, ◌^◌, not, Bool, true, false, ltb, leb, ◌==◌, if◌then◌else◌,
  Option, some, none,
}
use ece344_operating_systems.Base.Int.{ℤ, pos, is_neg, is_zero}
use ece344_operating_systems.Base.Run.{halt, faulted, Cmd, pure, ◌>>=◌, ◌>>◌, modify, assert}
use ece344_operating_systems.Fs.Device.{Buffer, block_size, zero_block, write_blocks, read_blocks}
use ece344_operating_systems.Fs.File.{
  nr_direct_blocks, nr_indirect_blocks, File, int_at, put_int, on_file_dev, update_din, set_dirty,
  get_din, alloc_block_for_inode, free_block_from_inode,
}
use ece344_operating_systems.Fs.ReadWrite.{
  max_block_nr, max_file_size, too_big, signed_ltb, int_of_size, first_block, is_before_block,
  with_block_nr, read_block, memcpy,
}

abbrev pub set_direct : ℕ → ℤ → File → File
set_direct n phy =
    update_din (λ d. record d { i_block_nr = λ i. if i == n then phy else d.i_block_nr i })

abbrev pub set_indirect : ℤ → File → File
set_indirect phy = update_din (λ d. record d { i_indirect = phy })

abbrev pub set_dindirect : ℤ → File → File
set_dindirect phy = update_din (λ d. record d { i_dindirect = phy })

-- free(in->in.i_indirect), and the reset; the same for the double indirect block
abbrev pub drop_indirect : Cmd File (Unit {0})
drop_indirect = get_din λ d. free_block_from_inode d.i_indirect >> modify (set_indirect (pos 0))

abbrev pub drop_dindirect : Cmd File (Unit {0})
drop_dindirect = get_din λ d. free_block_from_inode d.i_dindirect >> modify (set_dindirect (pos 0))

abbrev pub when : Bool → Cmd File (Unit {0}) → Cmd File (Unit {0})
when b m = if b then m else pure tt

-- allocate a direct block
unfoldable pub allocate_direct : ℕ → Cmd File ℤ
allocate_direct n = get_din λ d. do
  assert (is_zero (d.i_block_nr n))
  phy ← alloc_block_for_inode
  if is_neg phy then pure phy else do modify (set_direct n phy); pure phy

-- The data block behind the indirect block, which has just been allocated or not.
unfoldable pub allocate_in_indirect : ℕ → Bool → Buffer → Cmd File ℤ
allocate_in_indirect n indirect_allocated indirect = do
  assert (is_zero (int_at indirect n))
  phy ← alloc_block_for_inode
  if is_neg phy
      then (do when indirect_allocated drop_indirect; pure phy)
      else get_din
          λ d. do on_file_dev (write_blocks (put_int indirect n phy) d.i_indirect 1); pure phy

unfoldable pub allocate_indirect : ℕ → Cmd File ℤ
unfolding allocate_in_indirect
allocate_indirect n = get_din λ d.
    if is_zero d.i_indirect
    then (do
      phy ← alloc_block_for_inode
      if is_neg phy
          then pure phy
          else do modify (set_indirect phy); allocate_in_indirect n true zero_block)
    else do
      indirect ← on_file_dev (read_blocks zero_block d.i_indirect 1)
      allocate_in_indirect n false indirect

-- Which of the two index blocks have just been allocated, and their contents.
pub record Chain : Type 0 where
  pub dindirect_allocated : Bool
  pub indirect_allocated : Bool
  pub dindirect : Buffer
  pub indirect : Buffer
  pub id_block : ℤ

-- The data block behind both index blocks.
unfoldable pub allocate_in_chain : ℕ → Chain → Cmd File ℤ
allocate_in_chain n c = do
  assert (is_zero (int_at c.indirect n))
  phy ← alloc_block_for_inode
  if is_neg phy
      then (do
        when c.indirect_allocated
            (do free_block_from_inode c.id_block; when c.dindirect_allocated drop_dindirect)
        pure phy)
      else get_din λ d. do
        on_file_dev (write_blocks (put_int c.indirect n phy) c.id_block 1)
        when c.indirect_allocated (on_file_dev (write_blocks c.dindirect d.i_dindirect 1))
        pure phy

-- The indirect block behind entry `id` of the double indirect block.
unfoldable pub allocate_id_block : ℕ → ℕ → Bool → Buffer → Cmd File ℤ
unfolding allocate_in_chain
allocate_id_block id n dindirect_allocated dindirect =
    let id_block = int_at dindirect id in
    if is_zero id_block
    then (do
      phy ← alloc_block_for_inode
      if is_neg phy
          then (do when dindirect_allocated drop_dindirect; pure phy)
          else allocate_in_chain n (record {
            dindirect_allocated = dindirect_allocated;
            indirect_allocated = true;
            dindirect = put_int dindirect id phy;
            indirect = zero_block;
            id_block = phy;
          }))
    else do
      indirect ← on_file_dev (read_blocks zero_block id_block 1)
      allocate_in_chain n (record {
        dindirect_allocated = dindirect_allocated;
        indirect_allocated = false;
        dindirect = dindirect;
        indirect = indirect;
        id_block = id_block;
      })

unfoldable pub allocate_dindirect : ℕ → Cmd File ℤ
unfolding allocate_id_block
allocate_dindirect log = get_din λ d.
    let id = log / nr_indirect_blocks in
    let n = log % nr_indirect_blocks in
    if is_zero d.i_dindirect
    then (do
      phy ← alloc_block_for_inode
      if is_neg phy
          then pure phy
          else do modify (set_dindirect phy); allocate_id_block id n true zero_block)
    else do
      dindirect ← on_file_dev (read_blocks zero_block d.i_dindirect 1)
      allocate_id_block id n false dindirect

-- The branch for a logical block that does not exist yet.
unfoldable pub allocate_missing : ℕ → Cmd File ℤ
unfolding allocate_direct allocate_indirect allocate_dindirect
allocate_missing n =
    if ltb n nr_direct_blocks
    then allocate_direct n
    else let log = n - nr_direct_blocks in
      if leb nr_indirect_blocks log
      then allocate_dindirect (log - nr_indirect_blocks)
      else allocate_indirect log

unfoldable pub allocate_block : Buffer → ℕ → Cmd File (ℤ × Buffer)
unfolding allocate_missing
allocate_block block n = if leb max_block_nr n then pure (too_big, block) else do
  (phy, block') ← read_block block n
  if is_zero phy then (do new ← allocate_missing n; pure (new, block')) else pure (phy, block')

-- in->in.i_size = MAX(in->in.i_size, end), on the bit patterns of two `off_t`
abbrev pub grow_to : ℕ → File → File
grow_to end = update_din (λ d. record d {
  i_size = if signed_ltb d.i_size (end % 2 ^ 64) then end % 2 ^ 64 else d.i_size;
})

-- `none` says that the fuel has run out.
unfoldable pub write_loop : ℕ → ℕ → ℕ → ℕ → ℕ → ℕ → Buffer → Buffer → Cmd File (Option ℤ)
unfolding with_block_nr
write_loop zero start block_nr block_ix at size buf block = pure none
write_loop (suc fuel) start block_nr block_ix at size buf block =
    let n = min (block_size - block_ix) size in
    let body : Cmd File (Option ℤ) = (do
      (ret, block') ← with_block_nr block_nr (allocate_block block)
      let filled = memcpy block' block_ix buf at n
      let rest = write_loop fuel start (block_nr + 1) 0 (at + n) (size - n) buf filled
      if is_neg ret
          then (do when (ltb 0 at) (modify (grow_to (start + at))); pure (some ret))
          else (do on_file_dev (write_blocks filled ret 1); rest)) in
    let finish : Cmd File (Option ℤ) = (do
      when (ltb 0 at) (modify (grow_to (start + at)))
      modify set_dirty
      pure (some (int_of_size at))) in
    if size == 0 then finish else body

-- The loop where `block_ix` is negative: the copy of the first round goes in front of `block`.
unfoldable pub write_before : ℕ → ℕ → Cmd File (Option ℤ)
unfolding with_block_nr
write_before block_nr size =
    let body : Cmd File (Option ℤ) = (do
      (ret, block) ← with_block_nr block_nr (allocate_block zero_block)
      if is_neg ret then pure (some ret) else (λ _. halt faulted)) in
    if size == 0 then (do modify set_dirty; pure (some (int_of_size 0))) else body

-- The loop runs at most once for each byte, so the fuel suffices.
unfoldable pub write_data : Buffer → ℕ → ℕ → Cmd File (Option ℤ)
unfolding write_loop write_before
write_data buf start size =
    if not (signed_ltb start max_file_size)
    then pure (some too_big)
    else if is_before_block start
    then write_before (first_block start) size
    else write_loop (size + 1) start (first_block start) (start % block_size) 0 size buf zero_block
