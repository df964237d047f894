-- ===== src/Fs/Growth/Answers.antt =====
-- fs/read_write.c: testfs_write_data ends with an error or the size of the data.
use ece344_operating_systems.Base.{ℕ, ◌≡◌, true, Option, some, none, ◌⊎◌}
use ece344_operating_systems.Base.Int.{ℤ, is_neg}
use ece344_operating_systems.Base.Run.{Run, ok, halt}
use ece344_operating_systems.Fs.File.{File}
use ece344_operating_systems.Fs.ReadWrite.{int_of_size}

-- A run that ends the process or answers an error or `total` as an `int`, and does not run out of fuel.
unfoldable pub AnswersSize : ℕ → Run File (Option ℤ) → Type 0
AnswersSize total (ok none f) = ⊥
AnswersSize total (ok (some ret) f) = (is_neg ret ≡ true) ⊎ (ret ≡ int_of_size total)
AnswersSize total (halt h) = Unit
