-- ===== src/Fs/ReadWrite.antt =====
-- fs/read_write.c: the blocks of a file, direct, indirect and doubly indirect, and its data.
-- A C array that a function fills is an argument and comes back with the result; a local array
-- starts as zeros. A size, a start and a logical block number of a loop are the bit patterns of a
-- `size_t`, an `off_t` and a `long`.
pub mod Answers
pub mod Clamp
pub mod Stored
use Prim.Native.Nat.{min}
use ece344_operating_systems.Base.{
  ℕ, zero, suc, ◌+◌, ◌-◌, ◌*◌, ◌/◌, ◌%◌, ◌^◌, Bool, not, ◌&&◌, ltb, leb, ◌==◌, if◌then◌else◌,
  Option, some, none,
}
use ece344_operating_systems.Base.Int.{ℤ, pos, negsuc, is_neg, is_pos, int_of_word}
use ece344_operating_systems.Base.Run.{halt, aborted, faulted, Cmd, pure, ◌>>=◌}
use ece344_operating_systems.Fs.Device.{Buffer, block_size, zero_block, read_blocks}
use ece344_operating_systems.Fs.File.{
  nr_direct_blocks, nr_indirect_blocks, File, int_at, on_file_dev, get_din,
}

abbrev pub max_block_nr : ℕ
max_block_nr = nr_direct_blocks + nr_indirect_blocks + nr_indirect_blocks * nr_indirect_blocks

abbrev pub max_file_size : ℕ
max_file_size = max_block_nr * block_size

-- -EFBIG
abbrev pub too_big : ℤ
too_big = negsuc 26

-- ((int *) block)[i] of block `nr`, which is read into `block`; 0 if there is no such block
abbrev pub read_entry : Buffer → ℤ → ℕ → Cmd File (ℤ × Buffer)
read_entry block nr i =
    if is_pos nr
    then (do block' ← on_file_dev (read_blocks block nr 1); pure (int_at block' i, block'))
    else pure (pos 0, block)

-- The physical block number of a logical block, and the buffer after the lookup.
unfoldable pub find_block : Buffer → ℕ → Cmd File (ℤ × Buffer)
find_block block log_block_nr = get_din λ d.
    if ltb log_block_nr nr_direct_blocks
    then pure (d.i_block_nr log_block_nr, block)
    else let log = log_block_nr - nr_direct_blocks in
      if leb nr_indirect_blocks log
      then (let log' = log - nr_indirect_blocks in
          let id_block_nr = log' / nr_indirect_blocks in
          if leb id_block_nr nr_indirect_blocks
          then (do
            (id_block, block') ← read_entry block d.i_dindirect id_block_nr
            read_entry block' id_block (log' % nr_indirect_blocks))
          else pure (pos 0, block))
      else read_entry block d.i_indirect log

-- The result is the physical block number, 0 for a hole, and the block's bytes.
unfoldable pub read_block : Buffer → ℕ → Cmd File (ℤ × Buffer)
unfolding find_block
read_block block log_block_nr = if leb max_block_nr log_block_nr then pure (too_big, block) else do
  (phy_block_nr, block') ← find_block block log_block_nr
  if is_pos phy_block_nr
      then (do
        filled ← on_file_dev (read_blocks block' phy_block_nr 1)
        pure (phy_block_nr, filled))
      else pure (phy_block_nr, λ i. if ltb i block_size then 0 else block' i)

-- memcpy(dst + at, src + from, n)
unfoldable pub memcpy : Buffer → ℕ → Buffer → ℕ → ℕ → Buffer
memcpy dst at src from n i = if leb at i && ltb i (at + n) then src (from + (i - at)) else dst i

-- A call with a `long` block number for an `int` parameter, which a negative number ends by
-- `assert(log_block_nr >= 0)`.
abbrev pub at_block : {A : Type 0} → ℤ → (ℕ → Cmd File A) → Cmd File A
at_block (pos n) k = k n
at_block (negsuc n) k = λ _. halt aborted

unfoldable pub with_block_nr : {A : Type 0} → ℕ → (ℕ → Cmd File A) → Cmd File A
with_block_nr block_nr k = at_block (int_of_word (block_nr % 2 ^ 32)) k

-- A `size_t` that is returned as an `int`.
abbrev pub int_of_size : ℕ → ℤ
int_of_size size = int_of_word (size % 2 ^ 32)

-- `none` says that the fuel has run out.
unfoldable pub read_loop : ℕ → ℕ → ℕ → ℕ → ℕ → Buffer → Buffer → Cmd File (Option (ℤ × Buffer))
unfolding with_block_nr
read_loop zero block_nr block_ix at size buf block = pure none
read_loop (suc fuel) block_nr block_ix at size buf block =
    let body : Cmd File (Option (ℤ × Buffer)) = (do
      (ret, block') ← with_block_nr block_nr (read_block block)
      let n = min (block_size - block_ix) size
      let rest =
          read_loop fuel (block_nr + 1) 0 (at + n) (size - n) (memcpy buf at block' block_ix n)
            block'
      if is_neg ret then pure (some (ret, buf)) else rest) in
    if size == 0 then pure (some (int_of_size at, buf)) else body

-- The comparison of two bit patterns as signed 64-bit numbers.
abbrev pub signed_ltb : ℕ → ℕ → Bool
signed_ltb a b = ltb ((a + 2 ^ 63) % 2 ^ 64) ((b + 2 ^ 63) % 2 ^ 64)

-- if (start + (off_t) size > in->in.i_size) size = in->in.i_size - start
abbrev pub clamped : ℕ → ℕ → ℕ → ℕ
clamped size start i_size =
    if signed_ltb i_size ((start + size) % 2 ^ 64) then (i_size + 2 ^ 64 - start) % 2 ^ 64 else size

-- start / BLOCK_SIZE, towards zero
abbrev pub first_block : ℕ → ℕ
first_block start =
    if ltb start (2 ^ 63) then start / block_size else 2 ^ 64 - (2 ^ 64 - start) / block_size

-- Whether start % BLOCK_SIZE is negative.
abbrev pub is_before_block : ℕ → Bool
is_before_block start = leb (2 ^ 63) start && not (start % block_size == 0)

-- The loop where `block_ix` is negative: the copy of the first round is from in front of `block`.
unfoldable pub read_before : ℕ → ℕ → Buffer → Cmd File (Option (ℤ × Buffer))
unfolding with_block_nr
read_before block_nr size buf =
    let body : Cmd File (Option (ℤ × Buffer)) = (do
      (ret, block) ← with_block_nr block_nr (read_block zero_block)
      if is_neg ret then pure (some (ret, buf)) else (λ _. halt faulted)) in
    if size == 0 then pure (some (int_of_size 0, buf)) else body

-- The loop runs at most once for each byte, so the fuel suffices.
unfoldable pub read_data : Buffer → ℕ → ℕ → Cmd File (Option (ℤ × Buffer))
unfolding read_loop read_before
read_data buf start size = get_din λ d.
    if not (signed_ltb start max_file_size)
    then pure (some (too_big, buf))
    else let size' = clamped size start d.i_size in
      if is_before_block start
      then read_before (first_block start) size' buf
      else read_loop (size' + 1) (first_block start) (start % block_size) 0 size' buf zero_block
