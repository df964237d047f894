-- ===== src/Warmup/Wc/Counts.antt =====
-- warmup/wc.c: the table has the number of occurrences of every word.
use mathlib.Core.Path.{transport}
use ece344_operating_systems.Base.{
  ℕ, suc, ◌+◌, ◌-◌, ◌^◌, ◌<◌, ◌≤◌, ◌≡◌, refl, sym, ap, ◌∙◌, Bool, true, false, List, [], ◌∷◌, ◌++◌,
  arith, leb, le→leb, ◌==◌, ==_eq, if◌then◌else◌, length, Bool-cases, inl, inr,
}
use ece344_operating_systems.Base.Run.{Run, ok}
use ece344_operating_systems.Base.Strings.{same_name, same_name_sound, same_name_refl}
use ece344_operating_systems.Warmup.Wc.{
  WcEle, Wc, add_in, bucket_of, add_word, c_string, is_empty, count_words, wc_init,
}

-- The count of a word in a bucket, and in the table.
abbrev pub count_in : List ℕ → List WcEle → ℕ
count_in word [] = 0
count_in word (ele ∷ eles) =
    let rest = count_in word eles in if same_name word ele.word then ele.num_occurrences else rest

abbrev pub count : List ℕ → Wc → ℕ
count word wc = count_in word (wc.hash_table (bucket_of wc.capacity word))

abbrev pub occurrences : List ℕ → List (List ℕ) → ℕ
occurrences word [] = 0
occurrences word (w ∷ ws) =
    let rest = occurrences word ws in if same_name word w then suc rest else rest

-- The words that a space ends; a word at the end of the array is not among them.
abbrev pub ended_words : (ℕ → Bool) → List ℕ → List ℕ → List (List ℕ)
ended_words isspace [] buffer = []
ended_words isspace (c ∷ cs) buffer =
    let same = ended_words isspace cs buffer in
    let fresh = ended_words isspace cs [] in
    let grown = ended_words isspace cs (buffer ++ c ∷ []) in
    if isspace c
    then (if is_empty (c_string buffer) then same else c_string buffer ∷ fresh)
    else grown

-- No word has more than 99 bytes.
abbrev pub Short : (ℕ → Bool) → List ℕ → List ℕ → Type 0
Short isspace [] buffer = Unit
Short isspace (c ∷ cs) buffer =
    if isspace c
    then (if is_empty (c_string buffer) then Short isspace cs buffer else Short isspace cs [])
    else ((length buffer + 2 ≤ 100) × Short isspace cs (buffer ++ c ∷ []))

same_name_sym : (s t : List ℕ) → same_name s t ≡ true → same_name t s ≡ true
same_name_sym s t h = ap (λ u. same_name u s) (sym (same_name_sound s t h)) ∙ same_name_refl s

same_name-false :
    (word w u : List ℕ) → same_name w u ≡ false → same_name word u ≡ true → same_name word w ≡ false
same_name-false word w u other same = elim (Bool-cases (same_name word w)) [
  | inr h ↦ h
  | inl h ↦
      let clash : true ≡ false =
        sym same ∙ ap (λ v. same_name v u) (same_name_sound word w h) ∙ other in
      ground (arith, clash)
]

count_in-add :
    (word w : List ℕ) (eles : List WcEle)
    → count_in word (add_in w eles)
      ≡ (if same_name word w then suc (count_in word eles) else count_in word eles)
count_in-add word w [] = refl
count_in-add word w (ele ∷ eles) = elim (Bool-cases (same_name w ele.word)) [
  | inl h ↦
      let e : same_name word ele.word ≡ same_name word w =
        ap (λ u. same_name word u) (sym (same_name_sound w ele.word h)) in
      elim (Bool-cases (same_name word w)) [
        | inl k ↦ let k' : same_name word ele.word ≡ true = e ∙ k in rw (h, k, k') (omega arith)
        | inr k ↦ let k' : same_name word ele.word ≡ false = e ∙ k in rw (h, k, k') refl
      ]
  | inr h ↦ elim (Bool-cases (same_name word ele.word)) [
    | inl k ↦ let no = same_name-false word w ele.word h k in rw (h, k, no) refl
    | inr k ↦ rw (h, k) (count_in-add word w eles)
  ]
]

-- A counted word counts once more, and the others as often as before.
count-add_word :
    (word w : List ℕ) (wc : Wc)
    → count word (add_word w wc) ≡ (if same_name word w then suc (count word wc) else count word wc)
unfolding add_word
count-add_word word w wc =
    let key = bucket_of wc.capacity w in
    let k = bucket_of wc.capacity word in
    elim (Bool-cases (k == key)) [
      | inl h ↦
          let keys : wc.hash_table k ≡ wc.hash_table key = ap wc.hash_table (==_eq k key h) in
          rw (h, keys) (count_in-add word w (wc.hash_table key))
      | inr h ↦ elim (Bool-cases (same_name word w)) [
        | inl same ↦
            let keys : k ≡ key = ap (λ u. bucket_of wc.capacity u) (same_name_sound word w same) in
            ground (arith, keys, h)
        | inr other ↦ rw (h, other) refl
      ]
    ]

one_more :
    (b : Bool) (a a' n t : ℕ)
    → a' ≡ (if b then suc a else a)
    → t ≡ a' + n
    → t ≡ a + (if b then suc n else n)
one_more true a a' n t e e' = omega (arith, e, e')
one_more false a a' n t e e' = omega (arith, e, e')

in_range : (i n : ℕ) → i + suc n < 2 ^ 31 → leb (2 ^ 31 - 1) i ≡ false
in_range i n h = ground (arith, h)

one_word : (b : Bool) (m n : ℕ) → m ≤ n → (if b then suc m else m) ≤ suc n
one_word true m n h = omega (arith, h)
one_word false m n h = omega (arith, h)

-- No more words end than the array has bytes.
occurrences_le :
    (isspace : ℕ → Bool) (word cs buffer : List ℕ)
    → occurrences word (ended_words isspace cs buffer) ≤ length cs
occurrences_le isspace word [] buffer = omega arith
occurrences_le isspace word (c ∷ cs) buffer = elim (Bool-cases (isspace c)) [
  | inr letter ↦
      let ih = occurrences_le isspace word cs (buffer ++ c ∷ []) in rw letter (omega (arith, ih))
  | inl space ↦ elim (Bool-cases (is_empty (c_string buffer))) [
    | inl none ↦
        let ih = occurrences_le isspace word cs buffer in rw (space, none) (omega (arith, ih))
    | inr full ↦
        let ih = occurrences_le isspace word cs [] in
        rw (space, full)
          (one_word (same_name word (c_string buffer))
            (occurrences word (ended_words isspace cs [])) (length cs) ih)
  ]
]

module _ (isspace : ℕ → Bool) where
  abbrev Spaced : List ℕ → List ℕ → Type 0
  Spaced cs buffer =
      if is_empty (c_string buffer) then Short isspace cs buffer else Short isspace cs []

  abbrev Lettered : ℕ → List ℕ → List ℕ → Type 0
  Lettered c cs buffer = (length buffer + 2 ≤ 100) × Short isspace cs (buffer ++ c ∷ [])

  -- The counts behind the loop, for every word.
  pub record Counts (cs buffer : List ℕ) (wc : Wc) (r : Run Wc (Unit {0})) : Type 0 where
    pub final : Wc
    pub run : r ≡ ok tt final
    pub counted :
        (word : List ℕ)
        → count word final ≡ count word wc + occurrences word (ended_words isspace cs buffer)
    pub same_capacity : final.capacity ≡ wc.capacity

  count_words-Counts :
      (i : ℕ) (cs buffer : List ℕ) (wc : Wc)
      → i + length cs < 2 ^ 31
      → Short isspace cs buffer
      → Counts cs buffer wc (count_words isspace i cs buffer wc)
  unfolding count_words
  count_words-Counts i [] buffer wc le short = record {
    final = wc;
    run = refl;
    counted = λ word. omega arith;
    same_capacity = refl;
  }
  count_words-Counts i (c ∷ cs) buffer wc le short =
      let more : leb (2 ^ 31 - 1) i ≡ false = in_range i (length cs) le in
      let le' : i + 1 + length cs < 2 ^ 31 = omega (arith, le) in
      elim (Bool-cases (isspace c)) [
        | inr letter ↦
            let short' =
              transport (ap (λ b. if b then Spaced cs buffer else Lettered c cs buffer) letter)
                short in
            let r = count_words-Counts (i + 1) cs (buffer ++ c ∷ []) wc le' short'.1 in
            let fits : leb (length buffer + 2) 100 ≡ true =
              le→leb (length buffer + 2) 100 short'.0 in
            record {
              final = r.final;
              run = rw (more, letter, fits) r.run;
              counted = λ word. rw letter (r.counted word);
              same_capacity = r.same_capacity;
            }
        | inl space ↦ elim (Bool-cases (is_empty (c_string buffer))) [
          | inl none ↦
              let short' =
                transport
                  (ap (λ b. if b then Spaced cs buffer else Lettered c cs buffer) space
                    ∙ ap (λ b. if b then Short isspace cs buffer else Short isspace cs []) none)
                  short in
              let r = count_words-Counts (i + 1) cs buffer wc le' short' in
              record {
                final = r.final;
                run = rw (more, space, none) r.run;
                counted = λ word. rw (space, none) (r.counted word);
                same_capacity = r.same_capacity;
              }
          | inr full ↦
              let short' =
                transport
                  (ap (λ b. if b then Spaced cs buffer else Lettered c cs buffer) space
                    ∙ ap (λ b. if b then Short isspace cs buffer else Short isspace cs []) full)
                  short in
              let w = c_string buffer in
              let r = count_words-Counts (i + 1) cs [] (add_word w wc) le' short' in
              record {
                final = r.final;
                run = rw (more, space, full) r.run;
                counted = λ word.
                    rw (space, full)
                      (one_more (same_name word w) (count word wc) (count word (add_word w wc))
                        (occurrences word (ended_words isspace cs [])) (count word r.final)
                        (count-add_word word w wc) (r.counted word));
                same_capacity = r.same_capacity;
              }
        ]
      ]

  -- wc_init on an array of less than 2 ^ 31 bytes, whose words have at most 99 bytes each, returns,
  -- and the table that it makes has for every word the number of its occurrences among the words
  -- that are followed by a space, a number below 2 ^ 31.
  pub wc_init-Counts :
      (word_array : List ℕ)
      → length word_array < 2 ^ 31
      → Short isspace word_array []
      → (wc : Wc) × (wc_init isspace word_array ≡ ok tt wc)
        × ((word : List ℕ)
            → (count word wc ≡ occurrences word (ended_words isspace word_array []))
              × (count word wc < 2 ^ 31))
  unfolding wc_init
  wc_init-Counts word_array small short =
      let r =
        count_words-Counts 0 word_array []
          (record { hash_table = λ _. []; size = 0; capacity = length word_array })
          (omega (arith, small)) short in
      (
        r.final,
        r.run,
        λ word. (
          omega (arith, r.counted word),
          omega (arith, r.counted word, occurrences_le isspace word word_array [], small),
        ),
      )
