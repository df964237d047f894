-- ===== src/Fs/Device/Laws.antt =====
-- fs/block.c: what a block write changes and what a block read returns.
use Prim.Native.Nat.{max}
use mathlib.Core.Path.{fun_ext}
use native.Mathlib.Nat.{add-zero, add_assoc}
use ece344_operating_systems.Base.{
  ℕ, zero, suc, ◌+◌, ◌-◌, ◌*◌, ◌≤◌, ◌≡◌, refl, ◌&&◌, ltb, leb, if◌then◌else◌, arith, ap, ◌∙◌,
}
use ece344_operating_systems.Base.Int.{pos}
use ece344_operating_systems.Base.Run.{ok, ◌>>◌}
use ece344_operating_systems.Fs.Device.{
  block_size, Buffer, Device, write_blocks, read_blocks, zero_block, zero_blocks, zero_from,
}

-- The device with `nr` blocks from block `start` on taken from `blocks`.
abbrev pub written : Device → Buffer → ℕ → ℕ → Device
written d blocks start nr = record d {
  content = λ a.
      if leb (start * block_size) a && ltb a (start * block_size + nr * block_size)
      then blocks (a - start * block_size)
      else d.content a;
  size = max d.size (start * block_size + nr * block_size);
}

-- A write fills exactly its blocks and puts the stream's position back.
pub write_blocks_lem :
    (d : Device) (blocks : Buffer) (start nr : ℕ)
    → write_blocks blocks (pos start) nr d ≡ ok tt (written d blocks start nr)
unfolding write_blocks
write_blocks_lem d blocks start nr = refl

-- A read of blocks that lie within the file returns their bytes and changes nothing.
pub read_blocks_lem :
    (d : Device) (blocks : Buffer) (start nr : ℕ)
    → start * block_size + nr * block_size ≤ d.size
    → read_blocks blocks (pos start) nr d
      ≡ ok (λ i. if ltb i (nr * block_size) then d.content (start * block_size + i) else blocks i) d
unfolding read_blocks
read_blocks_lem d blocks start nr h = ground arith

pub written-written :
    (d : Device) (start n : ℕ)
    → written (written d zero_block start 1) zero_block (start + 1) (suc n)
      ≡ written d zero_block start (suc (suc n))
written-written d start n = λ k. record d { content = fun_ext same k; size = sizes k }
  where
    same :
        (a : ℕ)
        → (written (written d zero_block start 1) zero_block (start + 1) (suc n)).content a
          ≡ (written d zero_block start (suc (suc n))).content a
    same a = ground arith

    sizes :
        (written (written d zero_block start 1) zero_block (start + 1) (suc n)).size
        ≡ (written d zero_block start (suc (suc n))).size
    sizes = omega arith

zero_from-written :
    (n start i : ℕ) (d : Device)
    → zero_from (suc n) (pos start) i d ≡ ok tt (written d zero_block (start + i) (suc n))
unfolding zero_from
zero_from-written zero start i d = rw write_blocks_lem
zero_from-written (suc n) start i d = rw write_blocks_lem (
    zero_from-written n start (i + 1) (written d zero_block (start + i) 1)
    ∙ ap (ok tt) (rw (← add_assoc) (written-written d (start + i) n)))

-- Zeroing one or more blocks is one write of as many zero blocks.
pub zero_blocks_lem :
    (d : Device) (start nr : ℕ)
    → zero_blocks (pos start) (suc nr) d ≡ ok tt (written d zero_block start (suc nr))
unfolding zero_blocks
zero_blocks_lem d start nr = rw (zero_from-written nr start 0 d, add-zero)

-- Reading back the blocks that were just written returns their bytes, leaves the rest of the
-- buffer, and leaves the device as the write left it.
pub read-write_blocks :
    (d : Device) (blocks old : Buffer) (start nr : ℕ)
    → (write_blocks blocks (pos start) nr >> read_blocks old (pos start) nr) d
      ≡ ok (λ i. if ltb i (nr * block_size) then blocks i else old i) (written d blocks start nr)
read-write_blocks d blocks old start nr =
    rw (write_blocks_lem, read_blocks_lem (written d blocks start nr) old start nr (omega arith))
      (λ k. ok (fun_ext same k) (written d blocks start nr))
  where
    same :
        (i : ℕ)
        → (if ltb i (nr * block_size)
            then (written d blocks start nr).content (start * block_size + i)
            else old i)
          ≡ (if ltb i (nr * block_size) then blocks i else old i)
    same i =
        let back : start * block_size + i - start * block_size ≡ i = omega arith in
        rw back (ground arith)
