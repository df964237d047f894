-- ===== src/Warmup/Examples.antt =====
-- The theorems on warmup/ at concrete inputs.
use ece344_operating_systems.Base.{
  ℕ, ◌<◌, ◌^◌, ◌≡◌, refl, Bool, List, [], ◌∷◌, ◌==◌, suc, zero, arith,
}
use ece344_operating_systems.Base.Run.{ok, halt, faulted}
use ece344_operating_systems.Warmup.Wc.{Wc, wc_init}
use ece344_operating_systems.Warmup.Wc.Counts.{count, occurrences, wc_init-Counts}
use ece344_operating_systems.Warmup.Wc.Overflow.{Letters, wc_init-faulted}

abbrev is_blank : ℕ → Bool
is_blank c = c == 32

-- "ab c ab  d": the last word is not counted.
abbrev text : List ℕ
text = 97 ∷ 98 ∷ 32 ∷ 99 ∷ 32 ∷ 97 ∷ 98 ∷ 32 ∷ 32 ∷ 100 ∷ []

wc_init-Counts_example :
    (wc : Wc) × (wc_init is_blank text ≡ ok tt wc)
    × ((word : List ℕ)
        → (count word wc ≡ occurrences word ((97 ∷ 98 ∷ []) ∷ (99 ∷ []) ∷ (97 ∷ 98 ∷ []) ∷ []))
          × (count word wc < 2 ^ 31))
wc_init-Counts_example =
    wc_init-Counts is_blank text (omega arith)
      (omega arith, (omega arith, (omega arith, (omega arith, (omega arith, (omega arith, tt))))))

-- A word of `n` bytes.
abbrev letters : ℕ → List ℕ
letters zero = []
letters (suc n) = 97 ∷ letters n

letters-Letters : (n : ℕ) → Letters is_blank (letters n)
letters-Letters zero = tt
letters-Letters (suc n) = (refl, letters-Letters n)

wc_init-faulted_example : wc_init is_blank (letters 100) ≡ halt faulted
wc_init-faulted_example = wc_init-faulted is_blank (letters 100) (letters-Letters 100) (omega arith)
