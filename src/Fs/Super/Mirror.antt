-- ===== src/Fs/Super/Mirror.antt =====
-- fs/super.c: a freemap in memory and its blocks on the device.
use ece344_operating_systems.Base.{
  ℕ, ◌+◌, ◌-◌, ◌*◌, ◌/◌, ◌≤◌, ◌<◌, ◌≡◌, ◌≢◌, ◌⊎◌, inl, inr, ◌==◌, arith, Bool-cases,
}
use ece344_operating_systems.Fs.Device.{Device, Buffer, block_size}
use ece344_operating_systems.Fs.Device.Laws.{written}

-- The `n` blocks from `start` on hold the bytes `v`.
abbrev pub Mirrors : Device → ℕ → ℕ → (ℕ → ℕ) → Type 0
Mirrors d start n v = (k : ℕ) → k < n * block_size → d.content (start * block_size + k) ≡ v k

-- A write outside these blocks leaves them alone.
pub mirror_outside :
    (d : Device) (start n : ℕ) (v : ℕ → ℕ) (blocks : Buffer) (at nr : ℕ)
    → Mirrors d start n v
    → (at + nr ≤ start) ⊎ (start + n ≤ at)
    → Mirrors (written d blocks at nr) start n v
mirror_outside d start n v blocks at nr m (inl h) k lt = ground (arith, m k lt)
mirror_outside d start n v blocks at nr m (inr h) k lt = ground (arith, m k lt)

-- A write of the one block whose bytes have changed brings the device up to date.
pub mirror_update :
    (d : Device) (start n : ℕ) (v w : ℕ → ℕ) (at : ℕ)
    → Mirrors d start n v
    → ((k : ℕ) → k / block_size ≢ at → w k ≡ v k)
    → Mirrors (written d (λ i. w (at * block_size + i)) (start + at) 1) start n w
mirror_update d start n v w at m same k lt = elim (Bool-cases (k / block_size == at)) [
  | inl e ↦
      let index : at * block_size + (start * block_size + k - (start + at) * block_size) ≡ k =
        ground arith in
      rw index (ground arith)
  | inr ne ↦ ground (arith, m k lt, same k (ground arith))
]
