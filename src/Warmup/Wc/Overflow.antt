-- ===== src/Warmup/Wc/Overflow.antt =====
-- warmup/wc.c: a word that is longer than the buffer of wc_init.
use ece344_operating_systems.Base.{
  ℕ, ◌+◌, ◌-◌, ◌^◌, ◌≤◌, ◌≡◌, refl, Bool, true, false, List, [], ◌∷◌, ◌++◌, arith, leb, leb→le,
  length, length-append, Bool-cases, inl, inr,
}
use ece344_operating_systems.Base.Run.{halt, faulted}
use ece344_operating_systems.Warmup.Wc.{Wc, count_words, wc_init}

no_room : {X : Type 0} (n : ℕ) → n ≤ 99 → 100 ≤ n + 0 → X
no_room n le long = ground (arith, le, long)

grown_le :
    (buffer : List ℕ) (c : ℕ) → leb (length buffer + 2) 100 ≡ true → length (buffer ++ c ∷ []) ≤ 99
grown_le buffer c fits =
    let le = leb→le (length buffer + 2) 100 fits in
    omega (arith, le, length-append {0} buffer (c ∷ []))

module _ (isspace : ℕ → Bool) where
  -- No byte is a space.
  abbrev pub Letters : List ℕ → Type 0
  Letters [] = Unit
  Letters (c ∷ cs) = (isspace c ≡ false) × Letters cs

  long_word :
      (i : ℕ) (cs buffer : List ℕ) (wc : Wc)
      → Letters cs
      → length buffer ≤ 99
      → 100 ≤ length buffer + length cs
      → count_words isspace i cs buffer wc ≡ halt faulted
  unfolding count_words
  long_word i [] buffer wc letters le long = no_room (length buffer) le long
  long_word i (c ∷ cs) buffer wc letters le long = elim (Bool-cases (leb (2 ^ 31 - 1) i)) [
    | inl last ↦ rw last refl
    | inr more ↦ elim (Bool-cases (leb (length buffer + 2) 100)) [
      | inr full ↦ rw (more, letters.0, full) refl
      | inl fits ↦
          rw (more, letters.0, fits)
            (long_word (i + 1) cs (buffer ++ c ∷ []) wc letters.1 (grown_le buffer c fits)
              (omega (arith, long, length-append {0} buffer (c ∷ []))))
    ]
  ]

  -- wc_init on an array of 100 or more bytes, none of which is a space, writes behind its buffer.
  pub wc_init-faulted :
      (word_array : List ℕ)
      → Letters word_array
      → 100 ≤ length word_array
      → wc_init isspace word_array ≡ halt faulted
  unfolding wc_init
  wc_init-faulted word_array letters long =
      long_word 0 word_array []
        (record { hash_table = λ _. []; size = 0; capacity = length word_array }) letters
        (omega arith) (omega (arith, long))
