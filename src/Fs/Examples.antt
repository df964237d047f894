-- ===== src/Fs/Examples.antt =====
-- The theorems on fs/ at concrete inputs, and runs of the code on a small file system.
use ece344_operating_systems.Base.{
  ℕ, List, none, some, ◌+◌, ◌*◌, ◌≤◌, ◌<◌, ◌≡◌, refl, true, ◌||◌, arith, ltb, if◌then◌else◌,
}
use ece344_operating_systems.Base.Bytes.{holds_below, check}
use ece344_operating_systems.Base.Int.{pos}
use ece344_operating_systems.Base.Run.{ok}
use ece344_operating_systems.Fs.Bitmap
use ece344_operating_systems.Fs.Bitmap.{Bitmap, done}
use ece344_operating_systems.Fs.Bitmap.Alloc.{AllocCases, FirstFree, taken, alloc_lem}
use ece344_operating_systems.Fs.Bitmap.Bits.{has}
use ece344_operating_systems.Fs.Bitmap.Create.{bit-blank}
use ece344_operating_systems.Fs.Bitmap.Mark.{released}
use ece344_operating_systems.Fs.Bitmap.View
use ece344_operating_systems.Fs.Bitmap.View.{bit}
use ece344_operating_systems.Fs.Device.{Device, block_size}
use ece344_operating_systems.Fs.Mkfs.{format}
use ece344_operating_systems.Fs.Mkfs.Fresh.{fresh, fresh-IsMounted, no_bits, init-format}
use ece344_operating_systems.Fs.Super.{SuperBlock, alloc_block, free_block, init_super_block}
use ece344_operating_systems.Fs.Super.Alloc.{
  AllocatesBlock, alloc_block-AllocatesBlock, free_block_lem, free-alloc,
}
use ece344_operating_systems.Fs.Super.Blocks.{allocated, alloc_block-first}
use ece344_operating_systems.Fs.Super.Close.{closed, IsOpen, IsMounted-IsOpen, init-close}
use ece344_operating_systems.Fs.Unmount.{close_super_block}
use ece344_operating_systems.Fs.Inodes.{Cache}
use ece344_operating_systems.Fs.InodeExamples.{lists, lists-IsHlists, empty_heads}
use ece344_operating_systems.Base.Store.{Ptr}
use ece344_operating_systems.Fs.Super.Inv.{IsMounted}
use ece344_operating_systems.Fs.Super.Keeps.{allocated-IsMounted, with_dev}
use ece344_operating_systems.Fs.Super.Mount.{reread}

-- A file system of at most four blocks, just formatted and mounted.
abbrev s₀ : SuperBlock
s₀ = fresh 4

s₀-IsMounted : IsMounted (no_bits 1) (no_bits 16) s₀
s₀-IsMounted = fresh-IsMounted 4 (omega arith)

-- Ten bits, of which 0, 1 and 3 are in use.
abbrev ten : Bitmap
ten = record { nbits = 10; v = λ ix. if ltb 0 ix then 0xfc else 0x0b }

ten-IsValid : View.IsValid ten
unfolding bit has holds_below
ten-IsValid = record { small = omega arith; bytes = λ ix. ground arith; leftover = leftover }
  where
    leftover : (i : ℕ) → 10 ≤ i → i < 16 → bit ten i ≡ true
    leftover i lo hi = ground (arith, check 16 (λ i. ltb i 10 || bit ten i) i refl hi)

alloc_lem_example : AllocCases ten (Bitmap.alloc ten)
alloc_lem_example = alloc_lem ten-IsValid

alloc-ten : Bitmap.alloc ten ≡ ok (done 2) (taken ten 2)
unfolding Bitmap.alloc
alloc-ten = refl

-- Index 2 is free, index 3 is not.
alloc_block-AllocatesBlock_example : AllocatesBlock (no_bits 1) (no_bits 16) s₀ (alloc_block s₀)
alloc_block-AllocatesBlock_example = alloc_block-AllocatesBlock s₀-IsMounted

first_block : FirstFree (no_bits 16) 0
first_block = record {
  in_range = omega arith;
  free = bit-blank (16 * 65536) 0;
  first = λ j h. absurd (omega arith);
}

first_inode : FirstFree (no_bits 1) 0
first_inode = record {
  in_range = omega arith;
  free = bit-blank 65536 0;
  first = λ j h. absurd (omega arith);
}

alloc-no_bits :
    (Bitmap.alloc (no_bits 16) ≡ ok (done 0) (taken (no_bits 16) 0))
    × (Bitmap.alloc (no_bits 1) ≡ ok (done 0) (taken (no_bits 1) 0))
unfolding Bitmap.alloc
alloc-no_bits = (refl, refl)

-- The super block after the first block is allocated.
abbrev s₁ : SuperBlock
s₁ = allocated s₀ (no_bits 16) 0

alloc_block-s₀ : alloc_block s₀ ≡ ok (pos 146) s₁
alloc_block-s₀ = alloc_block-first s₀-IsMounted 0 first_block alloc-no_bits.0 refl

free-alloc_example :
    (s'' : SuperBlock) × (free_block (pos 146) s₁ ≡ ok (pos 0) s'')
    × IsMounted (no_bits 1) (no_bits 16) s''
    × (s''.sb ≡ s₀.sb)
free-alloc_example = free-alloc s₀-IsMounted 146 alloc_block-s₀

bit-taken : bit (taken (no_bits 16) 0) 0 ≡ true
unfolding bit has
bit-taken = refl

free_block_lem_example :
    (s' : SuperBlock) × (free_block (pos 146) s₁ ≡ ok (pos 0) s')
    × IsMounted (no_bits 1) (released (taken (no_bits 16) 0) 0) s'
    × (s'.sb.used_block_count + 1 ≡ 1)
    × ((a : ℕ) → a < block_size → s'.dev.content (146 * block_size + a) ≡ 0)
free_block_lem_example =
    free_block_lem
      (allocated-IsMounted s₀-IsMounted 0 (bit-blank (16 * 65536) 0) (omega arith) (omega arith)) 0
      bit-taken (omega arith)

-- The same on a device whose content was lost, and no inode in memory.
abbrev lost : Device
lost = record s₁.dev { content = λ _. 7 }

abbrev open₁ : Cache (ℕ → List Ptr)
open₁ = record { super = with_dev s₁ lost; table = some empty_heads; inodes = λ _. none }

open₁-IsOpen : IsOpen (no_bits 1) (taken (no_bits 16) 0) open₁.super
open₁-IsOpen =
    let m =
      allocated-IsMounted s₀-IsMounted 0 (bit-blank (16 * 65536) 0) (omega arith) (omega arith) in
    IsMounted-IsOpen lost m m.sized

init-close_example :
    (d : Device) × (s' : SuperBlock) × (close_super_block lists open₁
      ≡ ok tt (record open₁ { super = closed open₁.super d; table = none }))
    × (init_super_block d ≡ ok s' d)
    × IsMounted (reread 1 (no_bits 1)) (reread 16 (taken (no_bits 16) 0)) s'
    × (s'.sb ≡ s₁.sb)
    × ((i : ℕ) → 18 * block_size ≤ i → d.content i ≡ 7)
init-close_example = init-close lists-IsHlists open₁ empty_heads open₁-IsOpen refl (λ j. refl)

init-format_example :
    (c : Cache (ℕ → List Ptr)) × (s' : SuperBlock) × (format lists 4 ≡ ok tt c)
    × (init_super_block c.super.dev ≡ ok s' c.super.dev)
    × IsMounted (reread 1 (no_bits 1)) (reread 16 (no_bits 16)) s'
    × (s'.sb.used_inode_count ≡ 0)
    × (s'.sb.used_block_count ≡ 0)
    × (s'.sb.max_fs_blocks ≡ 4)
init-format_example = init-format lists-IsHlists 4 (omega arith)
