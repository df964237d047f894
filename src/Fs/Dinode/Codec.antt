-- ===== src/Fs/Dinode/Codec.antt =====
-- fs/inode.c: a struct dinode as bytes.
use ece344_operating_systems.Base.{
  ℕ, zero, suc, ◌+◌, ◌*◌, ◌^◌, ◌<◌, ◌≤◌, ◌≡◌, ap, ◌∙◌, arith, inl, inr, Bool-cases, refl, ◌==◌,
}
use ece344_operating_systems.Base.Int.{ℤ, pos, negsuc, int_of_word, word_of_int}
use ece344_operating_systems.Fs.Bytes.{
  put_bytes, put_word, word_at, word_at-put_word, word_at-put_above, word_at-put_ne,
  long_at-put_bytes, word_at-eq, long_at-eq,
}
use ece344_operating_systems.Fs.Device.{Buffer, zero_block}
use ece344_operating_systems.Fs.File.{Dinode, nr_direct_blocks}
use ece344_operating_systems.Fs.Dinode.{put_ints, encode_dinode, decode_dinode}

-- A number that an `int` can hold.
abbrev pub IsInt : ℤ → Type 0
IsInt (pos n) = n < 2 ^ 31
IsInt (negsuc n) = n < 2 ^ 31

-- Every field fits its type.
pub record Fits (d : Dinode) : Type 0 where
  pub i_type : d.i_type < 2 ^ 32
  pub i_block_nr : (n : ℕ) → n < nr_direct_blocks → IsInt (d.i_block_nr n)
  pub i_indirect : IsInt d.i_indirect
  pub i_dindirect : IsInt d.i_dindirect
  pub block_count : d.block_count < 2 ^ 32
  pub i_size : d.i_size < 2 ^ 64

-- The same fields, with the array up to its length.
pub record Same (d e : Dinode) : Type 0 where
  pub i_type : d.i_type ≡ e.i_type
  pub i_block_nr : (n : ℕ) → n < nr_direct_blocks → d.i_block_nr n ≡ e.i_block_nr n
  pub i_indirect : d.i_indirect ≡ e.i_indirect
  pub i_dindirect : d.i_dindirect ≡ e.i_dindirect
  pub block_count : d.block_count ≡ e.block_count
  pub i_size : d.i_size ≡ e.i_size

word_of_int-lt : (z : ℤ) → word_of_int z < 2 ^ 32
word_of_int-lt (pos n) = omega arith
word_of_int-lt (negsuc n) = omega arith

pub int_of_word-word_of_int : (z : ℤ) → IsInt z → int_of_word (word_of_int z) ≡ z
int_of_word-word_of_int (pos n) h = ground arith
int_of_word-word_of_int (negsuc n) h = ground arith

-- A stored `int` is read back.
int_at-put :
    (b : Buffer) (off : ℕ) (z : ℤ)
    → IsInt z
    → int_of_word (word_at (put_word b off (word_of_int z)) off) ≡ z
int_at-put b off z h =
    rw (word_at-put_word b off (word_of_int z) (word_of_int-lt z)) (int_of_word-word_of_int z h)

word_at-put_ints :
    (n : ℕ) (f : ℕ → ℤ) (off o : ℕ) (b : Buffer)
    → o + 4 ≤ off
    → word_at (put_ints n f off b) o ≡ word_at b o
unfolding put_ints
word_at-put_ints zero f off o b h = refl
word_at-put_ints (suc n) f off o b h =
    rw
      (word_at-put_ne (put_ints n f off b) (off + 4 * n) 4 (word_of_int (f n)) o
        (inl (omega arith)))
      (word_at-put_ints n f off o b h)

int_at-put_ints :
    (n : ℕ) (f : ℕ → ℤ) (off k : ℕ) (b : Buffer)
    → k < n
    → IsInt (f k)
    → int_of_word (word_at (put_ints n f off b) (off + 4 * k)) ≡ f k
unfolding put_ints
int_at-put_ints zero f off k b h i = ground arith
int_at-put_ints (suc n) f off k b h i = elim (Bool-cases (k == n)) [
  | inl e ↦
      let at : k ≡ n = ground (arith, e) in
      rw (at) (int_at-put (put_ints n f off b) (off + 4 * n) (f n) (rw (← at) i))
  | inr e ↦
      let lt : k < n = ground (arith, e) in
      rw
        (word_at-put_ne (put_ints n f off b) (off + 4 * n) 4 (word_of_int (f n)) (off + 4 * k)
          (inl (omega arith)))
        (int_at-put_ints n f off k b lt i)
]

-- The array of block numbers stands before the other fields.
before_rest :
    (b : Buffer) (o x y z w : ℕ)
    → o + 4 ≤ 44
    → word_at (put_bytes (put_word (put_word (put_word b 44 x) 48 y) 52 z) 56 8 w) o ≡ word_at b o
before_rest b o x y z w h =
    rw
      (
        word_at-put_ne (put_word (put_word (put_word b 44 x) 48 y) 52 z) 56 8 w o
            (inl (omega arith)),
        word_at-put_ne (put_word (put_word b 44 x) 48 y) 52 4 z o (inl (omega arith)),
        word_at-put_ne (put_word b 44 x) 48 4 y o (inl (omega arith)),
        word_at-put_ne b 44 4 x o (inl (omega arith)),
      )
      refl

-- What is copied out of an inode and back is the inode.
pub decode-encode_dinode : (d : Dinode) → Fits d → Same (decode_dinode (encode_dinode d)) d
unfolding decode_dinode encode_dinode
decode-encode_dinode d r = record {
  i_type = simp (word_at-put_above, word_at-put_word, r.i_type);
  i_block_nr = λ n h.
      rw
        (before_rest (put_ints 10 d.i_block_nr 4 (put_word zero_block 0 d.i_type)) (4 + 4 * n)
          (word_of_int d.i_indirect) (word_of_int d.i_dindirect) d.block_count d.i_size
          (omega arith))
        (int_at-put_ints 10 d.i_block_nr 4 n (put_word zero_block 0 d.i_type) h (r.i_block_nr n h));
  i_indirect =
      rw (word_at-put_above, word_at-put_above, word_at-put_above)
        (int_at-put _ 44 d.i_indirect r.i_indirect);
  i_dindirect =
      rw (word_at-put_above, word_at-put_above) (int_at-put _ 48 d.i_dindirect r.i_dindirect);
  block_count = simp (word_at-put_above, word_at-put_word, r.block_count);
  i_size = simp (long_at-put_bytes, r.i_size);
}

-- Only the first 64 bytes matter.
pub decode_dinode-eq :
    (b c : Buffer) → ((i : ℕ) → i < 64 → b i ≡ c i) → Same (decode_dinode b) (decode_dinode c)
unfolding decode_dinode
decode_dinode-eq b c same = record {
  i_type = word_at-eq b c 0 (λ i _ h. same i (omega arith));
  i_block_nr = λ n h. ap int_of_word (word_at-eq b c (4 + 4 * n) (λ i _ h'. same i (omega arith)));
  i_indirect = ap int_of_word (word_at-eq b c 44 (λ i _ h. same i (omega arith)));
  i_dindirect = ap int_of_word (word_at-eq b c 48 (λ i _ h. same i (omega arith)));
  block_count = word_at-eq b c 52 (λ i _ h. same i (omega arith));
  i_size = long_at-eq b c 56 (λ i _ h. same i (omega arith));
}

pub Same-trans : {d e f : Dinode} → Same d e → Same e f → Same d f
Same-trans s t = record {
  i_type = s.i_type ∙ t.i_type;
  i_block_nr = λ n h. s.i_block_nr n h ∙ t.i_block_nr n h;
  i_indirect = s.i_indirect ∙ t.i_indirect;
  i_dindirect = s.i_dindirect ∙ t.i_dindirect;
  block_count = s.block_count ∙ t.block_count;
  i_size = s.i_size ∙ t.i_size;
}
