-- ===== src/Fs/Super/Codec.antt =====
-- fs/super.c: the super block as bytes.
use ece344_operating_systems.Base.{ℕ, ◌^◌, ◌<◌, ◌≡◌, arith}
use ece344_operating_systems.Fs.Bytes.{
  word_at-put_word, word_at-put_above, long_at-put_bytes, word_at-eq, long_at-eq,
}
use ece344_operating_systems.Fs.Device.{Buffer}
use ece344_operating_systems.Fs.Super.{DsuperBlock, encode, decode}

-- Every field fits its type, `u32` or `u64`.
pub record InRange (d : DsuperBlock) : Type 0 where
  pub inode_freemap_start : d.inode_freemap_start < 2 ^ 32
  pub block_freemap_start : d.block_freemap_start < 2 ^ 32
  pub inode_blocks_start : d.inode_blocks_start < 2 ^ 32
  pub data_blocks_start : d.data_blocks_start < 2 ^ 32
  pub used_inode_count : d.used_inode_count < 2 ^ 32
  pub used_block_count : d.used_block_count < 2 ^ 32
  pub max_fs_blocks : d.max_fs_blocks < 2 ^ 64

-- What is copied out of a super block and back is the super block.
pub decode-encode : (d : DsuperBlock) (block : Buffer) → InRange d → decode (encode d block) ≡ d
unfolding encode decode
decode-encode d block r = λ k. record {
  inode_freemap_start = field₀ k;
  block_freemap_start = field₁ k;
  inode_blocks_start = field₂ k;
  data_blocks_start = field₃ k;
  used_inode_count = field₄ k;
  used_block_count = field₅ k;
  max_fs_blocks = field₆ k;
}
  where
    field₀ : (decode (encode d block)).inode_freemap_start ≡ d.inode_freemap_start
    field₀ = simp (word_at-put_above, word_at-put_word, r.inode_freemap_start)

    field₁ : (decode (encode d block)).block_freemap_start ≡ d.block_freemap_start
    field₁ = simp (word_at-put_above, word_at-put_word, r.block_freemap_start)

    field₂ : (decode (encode d block)).inode_blocks_start ≡ d.inode_blocks_start
    field₂ = simp (word_at-put_above, word_at-put_word, r.inode_blocks_start)

    field₃ : (decode (encode d block)).data_blocks_start ≡ d.data_blocks_start
    field₃ = simp (word_at-put_above, word_at-put_word, r.data_blocks_start)

    field₄ : (decode (encode d block)).used_inode_count ≡ d.used_inode_count
    field₄ = simp (word_at-put_above, word_at-put_word, r.used_inode_count)

    field₅ : (decode (encode d block)).used_block_count ≡ d.used_block_count
    field₅ = simp (word_at-put_above, word_at-put_word, r.used_block_count)

    field₆ : (decode (encode d block)).max_fs_blocks ≡ d.max_fs_blocks
    field₆ = simp (long_at-put_bytes, r.max_fs_blocks)

-- Only the first 32 bytes matter.
pub decode-eq : (b c : Buffer) → ((i : ℕ) → i < 32 → b i ≡ c i) → decode b ≡ decode c
unfolding decode
decode-eq b c same = λ k. record {
  inode_freemap_start = word_at-eq b c 0 (λ i _ h. same i (omega arith)) k;
  block_freemap_start = word_at-eq b c 4 (λ i _ h. same i (omega arith)) k;
  inode_blocks_start = word_at-eq b c 8 (λ i _ h. same i (omega arith)) k;
  data_blocks_start = word_at-eq b c 12 (λ i _ h. same i (omega arith)) k;
  used_inode_count = word_at-eq b c 16 (λ i _ h. same i (omega arith)) k;
  used_block_count = word_at-eq b c 20 (λ i _ h. same i (omega arith)) k;
  max_fs_blocks = long_at-eq b c 24 (λ i _ h. same i (omega arith)) k;
}
