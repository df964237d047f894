-- ===== src/Fs/Device.antt =====
-- fs/block.c: blocks of BLOCK_SIZE bytes on a device file.
-- A buffer is a function from offset to byte. The file is its bytes, its length and the position
-- of the stream; stdio writes succeed, a read past the end is short and ends the process (EXIT).
pub mod Laws
use Prim.Native.Nat.{max}
use ece344_operating_systems.Base.{ℕ, zero, suc, ◌+◌, ◌-◌, ◌*◌, ◌&&◌, ltb, leb, if◌then◌else◌}
use ece344_operating_systems.Base.Int.{ℤ, pos, negsuc}
use ece344_operating_systems.Base.Run.{Run, ok, halt, exited, Cmd, ◌>>=◌, ◌>>◌}

abbrev pub block_size : ℕ
block_size = 8192

abbrev pub Buffer : Type 0
Buffer = ℕ → ℕ

pub record Device : Type 0 where
  pub content : ℕ → ℕ
  pub size : ℕ
  pub position : ℕ

-- long pos = ftell(dev)
abbrev pub ftell : Cmd Device ℕ
ftell d = ok d.position d

-- fseek(dev, start * BLOCK_SIZE, SEEK_SET), which fails at a negative offset
abbrev pub seek_block : ℤ → Cmd Device (Unit {0})
seek_block (pos n) d = ok tt (record d { position = n * block_size })
seek_block (negsuc n) d = halt exited

-- fseek(dev, pos, SEEK_SET)
abbrev pub seek : ℕ → Cmd Device (Unit {0})
seek p d = ok tt (record d { position = p })

-- fwrite(blocks, BLOCK_SIZE, nr, dev)
abbrev pub fwrite : Buffer → ℕ → Cmd Device (Unit {0})
fwrite blocks nr d =
    let end = d.position + nr * block_size in
    ok tt (record d {
      content = λ a. if leb d.position a && ltb a end then blocks (a - d.position) else d.content a;
      size = max d.size end;
      position = end;
    })

-- fread(blocks, BLOCK_SIZE, nr, dev): the bytes past those that are read stay as they were
abbrev pub fread : Buffer → ℕ → Cmd Device Buffer
fread blocks nr d =
    let end = d.position + nr * block_size in
    if leb end d.size
    then ok (λ i. if ltb i (nr * block_size) then d.content (d.position + i) else blocks i)
        (record d { position = end })
    else halt exited

unfoldable pub write_blocks : Buffer → ℤ → ℕ → Cmd Device (Unit {0})
write_blocks blocks start nr = do p ← ftell; seek_block start; fwrite blocks nr; seek p

-- The buffer that `read_blocks` leaves in place of `blocks`.
unfoldable pub read_blocks : Buffer → ℤ → ℕ → Cmd Device Buffer
read_blocks blocks start nr = do
  p ← ftell
  seek_block start
  filled ← fread blocks nr
  seek p
  λ d. ok filled d

-- static char zero[BLOCK_SIZE]
abbrev pub zero_block : Buffer
zero_block _ = 0

abbrev pub advance : ℤ → ℕ → ℤ
advance (pos n) i = pos (n + i)
advance (negsuc n) i = if leb (n + 1) i then pos (i - (n + 1)) else negsuc (n - i)

-- for (; i < nr; i++) write_blocks(sb, zero, start + i, 1)
pub zero_from : ℕ → ℤ → ℕ → Cmd Device (Unit {0})
zero_from zero start i d = ok tt d
zero_from (suc rounds) start i d =
    (write_blocks zero_block (advance start i) 1 >>= λ _. zero_from rounds start (i + 1)) d

unfoldable pub zero_blocks : ℤ → ℕ → Cmd Device (Unit {0})
unfolding zero_from
zero_blocks start nr = zero_from nr start 0
