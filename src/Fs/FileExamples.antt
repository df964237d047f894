-- ===== src/Fs/FileExamples.antt =====
-- The theorems on the data of files at concrete inputs.
use Prim.Native.Nat.{min}
use ece344_operating_systems.Base.{
  ℕ, ◌+◌, ◌*◌, ◌<◌, ◌%◌, ◌-◌, ◌==◌, ltb, if◌then◌else◌, refl, false, arith, Bool-cases, inl, inr,
}
use ece344_operating_systems.Fs.ReadWrite.Stored.{BlockHolds, Reads, read_data-Reads}
use ece344_operating_systems.Base.Int.{pos}
use ece344_operating_systems.Fs.Device.{zero_block, block_size}
use ece344_operating_systems.Fs.File.{File, nr_direct_blocks}
use ece344_operating_systems.Fs.Mkfs.Fresh.{fresh}
use ece344_operating_systems.Fs.ReadWrite.{read_data}
use ece344_operating_systems.Fs.ReadWrite.Answers.{Answers}

-- A sparse file of 100 bytes without blocks, on a device just formatted.
abbrev sparse : File
sparse = record {
  node = record {
    din = record {
      i_type = 1;
      i_block_nr = λ _. pos 0;
      i_indirect = pos 0;
      i_dindirect = pos 0;
      block_count = 0;
      i_size = 100;
    };
    dirty = false;
    i_nr = 1;
    i_count = 1;
  };
  super = fresh 4;
}

-- A file of 10000 bytes with block 2 of the device in front and a hole behind it.
abbrev two_blocks : File
two_blocks = record {
  node = record {
    din = record {
      i_type = 1;
      i_block_nr = λ n. if n == 0 then pos 2 else pos 0;
      i_indirect = pos 0;
      i_dindirect = pos 0;
      block_count = 1;
      i_size = 10000;
    };
    dirty = false;
    i_nr = 1;
    i_count = 1;
  };
  super = record (fresh 4) {
    dev = record { content = λ a. a % 256; size = 3 * block_size; position = 0 };
  };
}

abbrev its_bytes : ℕ → ℕ
its_bytes a = if ltb a block_size then (2 * block_size + a) % 256 else 0

two_blocks-BlockHolds : (n : ℕ) → n < nr_direct_blocks → BlockHolds two_blocks its_bytes n
two_blocks-BlockHolds n h = elim (Bool-cases (n == 0)) [
  | inl e ↦ BlockHolds.stored 1 (rw e refl) (omega arith) (λ i hi. ground (arith, e, hi))
  | inr e ↦ BlockHolds.hole (rw e refl) (λ i hi. ground (arith, e, hi))
]

read_data-Reads_example :
    Reads two_blocks its_bytes 0 8000
      (min 5000 (10000 - 8000))
      zero_block
      (read_data zero_block 8000 5000 two_blocks)
read_data-Reads_example =
    read_data-Reads two_blocks its_bytes zero_block 8000 5000 two_blocks-BlockHolds (omega arith)
      (omega arith) (omega arith)
