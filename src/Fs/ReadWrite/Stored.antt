-- ===== src/Fs/ReadWrite/Stored.antt =====
-- fs/read_write.c: testfs_read_data returns the bytes of a file's direct blocks.
use Prim.Native.Nat.{min}
use mathlib.Core.Path.{subst}
use native.Mathlib.Nat.{mod-lt}
use ece344_operating_systems.Base.{
  ℕ, zero, suc, ◌+◌, ◌-◌, ◌*◌, ◌/◌, ◌%◌, ◌^◌, ◌<◌, ◌≤◌, ◌≡◌, true, false, ◌==◌, ltb, leb,
  if◌then◌else◌, Option, some, Bool-cases, inl, inr, arith, ap, refl, ◌∙◌, ◌&&◌,
}
use ece344_operating_systems.Base.Int.{ℤ, pos, is_neg}
use ece344_operating_systems.Base.Run.{Run, ok}
use ece344_operating_systems.Fs.Device.{Buffer, block_size, zero_block}
use ece344_operating_systems.Fs.Device.Laws.{read_blocks_lem}
use ece344_operating_systems.Fs.File.{File, nr_direct_blocks}
use ece344_operating_systems.Fs.ReadWrite.{
  clamped, find_block, read_block, memcpy, read_loop, read_data,
}
use ece344_operating_systems.Fs.ReadWrite.Clamp.{
  clamped-min, int_of_size-pos, with_block_nr-small, starts_inside,
}

-- The bytes of direct block `n`: zeros for a hole, else those of its block on the device.
pub data BlockHolds (f : File) (bytes : ℕ → ℕ) (n : ℕ) : Type 0 where
  hole :
      f.node.din.i_block_nr n ≡ pos 0
      → ((i : ℕ) → i < block_size → bytes (n * block_size + i) ≡ 0)
      → BlockHolds f bytes n
  stored :
      (p : ℕ)
      → f.node.din.i_block_nr n ≡ pos (suc p)
      → suc p * block_size + 1 * block_size ≤ f.super.dev.size
      → ((i : ℕ)
          → i < block_size
          → f.super.dev.content (suc p * block_size + i) ≡ bytes (n * block_size + i))
      → BlockHolds f bytes n

-- A successful read of block `n`.
record ReadsBlock (f : File) (bytes : ℕ → ℕ) (n : ℕ) (block : Buffer) : Type 0 where
  ret : ℤ
  filled : Buffer
  run : read_block block n f ≡ ok (ret, filled) f
  fine : is_neg ret ≡ false
  same : (i : ℕ) → i < block_size → filled i ≡ bytes (n * block_size + i)

read_block-ReadsBlock :
    {f : File} {bytes : ℕ → ℕ} (n : ℕ) (block : Buffer)
    → n < nr_direct_blocks
    → BlockHolds f bytes n
    → ReadsBlock f bytes n block
unfolding read_block find_block
read_block-ReadsBlock {f} n block h (BlockHolds.hole e all) =
    let small : leb 4196362 n ≡ false = ground (arith, h) in
    let direct : ltb n 10 ≡ true = ground (arith, h) in
    record {
      ret = pos 0;
      filled = λ i. if ltb i block_size then 0 else block i;
      run = rw (small, direct, e) refl;
      fine = refl;
      same = λ i hi. ground (arith, all i hi, hi);
    }
read_block-ReadsBlock {f} n block h (BlockHolds.stored p e fits all) =
    let small : leb 4196362 n ≡ false = ground (arith, h) in
    let direct : ltb n 10 ≡ true = ground (arith, h) in
    record {
      ret = pos (suc p);
      filled = λ i.
          if ltb i (1 * block_size) then f.super.dev.content (suc p * block_size + i) else block i;
      run = rw (small, direct, e, read_blocks_lem f.super.dev block (suc p) 1 fits) refl;
      fine = refl;
      same = λ i hi. ground (arith, all i hi, hi);
    }

-- A run that fills `size` bytes of `old`, from `at` on, with the file's bytes from `start` on.
pub record Reads (f : File) (bytes : ℕ → ℕ) (at start size : ℕ) (old : Buffer)
    (r : Run File (Option (ℤ × Buffer))) : Type 0 where
  pub buf : Buffer
  pub run : r ≡ ok (some (pos (at + size), buf)) f
  pub same : (j : ℕ) → j < size → buf (at + j) ≡ bytes (start + j)
  pub before : (i : ℕ) → i < at → buf i ≡ old i

memcpy-before : (dst src : Buffer) (at from n i : ℕ) → i < at → memcpy dst at src from n i ≡ dst i
unfolding memcpy
memcpy-before dst src at from n i h =
    let e : (leb at i && ltb i (at + n)) ≡ false = ground (arith, h) in rw e refl

memcpy-copied :
    (dst src : Buffer) (at from n j : ℕ)
    → j < n
    → memcpy dst at src from n (at + j) ≡ src (from + j)
unfolding memcpy
memcpy-copied dst src at from n j h =
    let e : (leb at (at + j) && ltb (at + j) (at + n)) ≡ true = ground (arith, h) in
    let back : at + j - at ≡ j = omega arith in rw (e, back) refl

module _ (f : File) (bytes : ℕ → ℕ) where
  -- A round, and the rounds behind it.
  round-Reads :
      {block_nr block_ix at size n : ℕ} {buf block : Buffer}
      → (b : ReadsBlock f bytes block_nr block) → n ≡ min (block_size - block_ix) size
      → block_ix < block_size
      → (rest : Run File (Option (ℤ × Buffer)))
      → Reads f bytes
          (at + n)
          ((block_nr + 1) * block_size)
          (size - n)
          (memcpy buf at b.filled block_ix n)
          rest
      → Reads f bytes at (block_nr * block_size + block_ix) size buf rest
  round-Reads {block_nr} {block_ix} {at} {size} {n} {buf} b hn hix rest r = record {
    buf = r.buf;
    run = r.run ∙ ap (λ k. ok (some (pos k, r.buf)) f) (omega (arith, hn));
    same = λ j hj. elim (Bool-cases (ltb j n)) [
      | inl e ↦
          let hjn : j < n = ground (arith, e) in
          r.before (at + j) (omega (arith, hjn))
          ∙ memcpy-copied buf b.filled at block_ix n j hjn
          ∙ b.same (block_ix + j) (omega (arith, hjn, hn, hix))
          ∙ ap bytes (omega arith)
      | inr e ↦
          let hnj : n ≤ j = ground (arith, e) in
          ap r.buf (omega (arith, hnj))
          ∙ r.same (j - n) (omega (arith, hnj, hj))
          ∙ ap bytes (omega (arith, hnj, hj, hn, hix))
    ];
    before = λ i hi. r.before i (omega (arith, hi)) ∙ memcpy-before buf b.filled at block_ix n i hi;
  }

  read_loop-Reads :
      (fuel block_nr block_ix at size : ℕ) (buf block : Buffer)
      → ((n : ℕ) → n < nr_direct_blocks → BlockHolds f bytes n)
      → size < fuel
      → block_ix < block_size
      → block_nr * block_size + block_ix + size ≤ nr_direct_blocks * block_size
      → at + size < 2 ^ 31
      → Reads f bytes at
          (block_nr * block_size + block_ix)
          size
          buf
          (read_loop fuel block_nr block_ix at size buf block f)
  unfolding read_loop
  read_loop-Reads zero block_nr block_ix at size buf block all h hix hd hr =
      let no : ⊥ = omega (arith, h) in elim no [ ]
  read_loop-Reads (suc fuel) block_nr block_ix at size buf block all h hix hd hr =
      elim (Bool-cases (size == 0)) [
        | inl e ↦
            let z : size ≡ 0 = ground (arith, e) in
            rw e (record {
              buf = buf;
              run =
                  ap (λ k. ok (some (k, buf)) f) (int_of_size-pos at (omega (arith, hr)))
                  ∙ ap (λ k. ok (some (pos k, buf)) f) (omega (arith, z));
              same = λ j hj. (let no : ⊥ = omega (arith, z, hj) in elim no [ ]);
              before = λ i hi. refl;
            })
        | inr e ↦
            let n : ℕ = min (block_size - block_ix) size in
            let some_left : 0 < size = ground (arith, e) in
            let in_direct : block_nr < nr_direct_blocks = omega (arith, hd, some_left) in
            let b = read_block-ReadsBlock block_nr block in_direct (all block_nr in_direct) in
            let e₀ : (block_nr + 1) * block_size + 0 ≡ (block_nr + 1) * block_size = omega arith in
            let nr = with_block_nr-small block_nr (read_block block) (omega (arith, in_direct)) in
            rw (e, nr, b.run, b.fine)
              (round-Reads b refl hix
                (read_loop fuel (block_nr + 1) 0 (at + n) (size - n)
                  (memcpy buf at b.filled block_ix n) b.filled f)
                (subst
                  (λ s. Reads f bytes (at + n) s (size - n) (memcpy buf at b.filled block_ix n) (
                    read_loop fuel (block_nr + 1) 0 (at + n) (size - n)
                      (memcpy buf at b.filled block_ix n) b.filled f))
                  e₀
                  (read_loop-Reads fuel (block_nr + 1) 0 (at + n) (size - n)
                    (memcpy buf at b.filled block_ix n) b.filled all
                    (omega (arith, h, some_left, hix)) (omega arith)
                    (omega (arith, hd, in_direct, hix)) (omega (arith, hr)))))
      ]

  -- For a file within its direct blocks, a start within the file and a size that added to the start
  -- stays below 2 ^ 63, testfs_read_data answers the smaller of what is asked for and what is left of the file, fills as many bytes of the buffer
  -- with the file's bytes from the start on, zeros for holes, and changes neither file nor device.
  pub read_data-Reads :
      (buf : Buffer) (start size : ℕ)
      → ((n : ℕ) → n < nr_direct_blocks → BlockHolds f bytes n)
      → f.node.din.i_size ≤ nr_direct_blocks * block_size
      → start ≤ f.node.din.i_size
      → start + size < 2 ^ 63
      → Reads f bytes 0 start
          (min size (f.node.din.i_size - start))
          buf
          (read_data buf start size f)
  unfolding read_data
  read_data-Reads buf start size all hi hs h =
      let inside = starts_inside start (omega (arith, hi, hs)) in
      let left : clamped size start f.node.din.i_size ≡ min size (f.node.din.i_size - start) =
        clamped-min size start f.node.din.i_size (omega (arith, hi)) hs h in
      let n : ℕ = min size (f.node.din.i_size - start) in
      let split : start / block_size * block_size + start % block_size ≡ start = omega arith in
      rw (inside.0, inside.1, inside.2, left)
        (subst
          (λ s.
            Reads f bytes 0 s n buf
              (read_loop (n + 1) (start / block_size) (start % block_size) 0 n buf zero_block f))
          split
          (read_loop-Reads (n + 1) (start / block_size) (start % block_size) 0 n buf zero_block all
            (omega arith) (mod-lt start (omega arith)) (omega (arith, hi, hs)) (omega (arith, hi))))
