-- ===== src/Fs/Truncate.antt =====
-- fs/read_write.c: `testfs_free_blocks`.
-- The count `e_block_nr` of blocks from here to the end of the file is cut off at 0 where the
-- source goes below: each of its tests reads a negative count like 0.
use ece344_operating_systems.Base.{ℕ, zero, suc, ◌+◌, ◌-◌, ◌/◌, ltb, ◌&&◌, ◌==◌, if◌then◌else◌}
use ece344_operating_systems.Base.Int.{pos, is_pos, is_zero}
use ece344_operating_systems.Base.Run.{Cmd, pure, ◌>>=◌, ◌>>◌, modify, assert}
use ece344_operating_systems.Fs.Device.{Buffer, block_size, zero_block, read_blocks}
use ece344_operating_systems.Fs.File.{
  nr_direct_blocks, nr_indirect_blocks, File, int_at, on_file_dev, update_din, set_dirty, get_din,
  free_block_from_inode,
}
use ece344_operating_systems.Fs.Growth.{set_direct, drop_indirect, drop_dindirect}

-- for (; i < e_block_nr && i < NR_DIRECT_BLOCKS; i++)
unfoldable pub free_direct : ℕ → ℕ → ℕ → Cmd File (Unit {0})
free_direct zero e i = pure tt
free_direct (suc rounds) e i =
    let rest = free_direct rounds e (i + 1) in
    if ltb i e && ltb i nr_direct_blocks
    then (get_din λ d.
        if is_zero (d.i_block_nr i)
        then rest
        else do free_block_from_inode (d.i_block_nr i); modify (set_direct i (pos 0)); rest)
    else pure tt

-- for (; i < e_block_nr && i < NR_INDIRECT_BLOCKS; i++); the zeros that the source stores into
-- the local array are not read again
unfoldable pub free_entries : ℕ → Buffer → ℕ → ℕ → Cmd File (Unit {0})
free_entries zero block e i = pure tt
free_entries (suc rounds) block e i =
    let rest = free_entries rounds block e (i + 1) in
    if ltb i e && ltb i nr_indirect_blocks
    then (if is_zero (int_at block i)
        then rest
        else do free_block_from_inode (int_at block i); rest)
    else pure tt

unfoldable pub free_indirect : ℕ → Cmd File (Unit {0})
unfolding free_entries
free_indirect e = get_din λ d.
    if is_pos d.i_indirect
    then (do
      assert (ltb 0 e)
      block ← on_file_dev (read_blocks zero_block d.i_indirect 1)
      free_entries nr_indirect_blocks block e 0
      drop_indirect)
    else pure tt

-- for (; i < NR_INDIRECT_BLOCKS && e_block_nr > 0; i++), with the count that is left
unfoldable pub free_id_blocks : ℕ → Buffer → ℕ → ℕ → Cmd File ℕ
unfolding free_entries
free_id_blocks zero did_block e i = pure e
free_id_blocks (suc rounds) did_block e i =
    let rest = free_id_blocks rounds did_block (e - nr_indirect_blocks) (i + 1) in
    let id_block = int_at did_block i in
    if ltb i nr_indirect_blocks && ltb 0 e
    then (if is_zero id_block then rest else do
      block ← on_file_dev (read_blocks zero_block id_block 1)
      free_entries nr_indirect_blocks block e 0
      free_block_from_inode id_block
      rest)
    else pure e

unfoldable pub free_dindirect : ℕ → Cmd File ℕ
unfolding free_id_blocks
free_dindirect e = get_din λ d.
    if ltb 0 e && is_pos d.i_dindirect
    then (do
      did_block ← on_file_dev (read_blocks zero_block d.i_dindirect 1)
      e' ← free_id_blocks nr_indirect_blocks did_block e 0
      drop_dindirect
      pure e')
    else pure e

abbrev pub empty_file : File → File
empty_file f = set_dirty (update_din (λ d. record d { i_size = 0 }) f)

unfoldable pub free_blocks : Cmd File (Unit {0})
unfolding free_direct free_indirect free_dindirect
free_blocks = get_din λ d. do
  let e = (d.i_size + block_size - 1) / block_size
  free_direct nr_direct_blocks e 0
  free_indirect (e - nr_direct_blocks)
  e' ← free_dindirect (e - nr_direct_blocks - nr_indirect_blocks)
  assert (e' == 0)
  modify empty_file
