-- ===== src/Fs/ReadWrite/Answers.antt =====
-- fs/read_write.c: the loop of testfs_read_data ends.
use ece344_operating_systems.Base.{ℕ, ◌≤◌, ◌≡◌, true, Option, some, none, ◌⊎◌}
use ece344_operating_systems.Base.Int.{ℤ, is_neg}
use ece344_operating_systems.Base.Run.{Run, ok, halt}
use ece344_operating_systems.Fs.Device.{Buffer}
use ece344_operating_systems.Fs.File.{File}
use ece344_operating_systems.Fs.ReadWrite.{int_of_size}

-- What a call may answer that fills the first `total` bytes of a buffer `old`: an error or `total` as
-- an `int`, with the rest of the buffer as before.
pub record IsAnswer (total : ℕ) (old : Buffer) (ret : ℤ) (buf : Buffer) : Type 0 where
  pub value : (is_neg ret ≡ true) ⊎ (ret ≡ int_of_size total)
  pub rest : (i : ℕ) → total ≤ i → buf i ≡ old i

-- A run that comes to an answer or ends the process, and does not run out of fuel.
unfoldable pub Answers : ℕ → Buffer → Run File (Option (ℤ × Buffer)) → Type 0
Answers total old (ok none f) = ⊥
Answers total old (ok (some (ret, buf)) f) = IsAnswer total old ret buf
Answers total old (halt h) = Unit
