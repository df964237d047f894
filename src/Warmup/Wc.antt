-- ===== src/Warmup/Wc.antt =====
-- warmup/wc.c: the words of an array and how often each occurs, in a hash table. The elements of a
-- bucket are a list; `calloc` and `malloc` succeed. The libc function isspace is a parameter. An
-- `int` that passes 2 ^ 31 - 1 is a fault; `num_occurrences` is at most the loop's `i`, so it
-- passes that bound no sooner than `i` does.
pub mod Counts
pub mod Overflow
use ece344_operating_systems.Base.{
  ℕ, suc, ◌+◌, ◌-◌, ◌%◌, ◌^◌, Bool, true, false, List, [], ◌∷◌, ◌++◌, leb, ◌==◌, if◌then◌else◌,
  length,
}
use ece344_operating_systems.Base.Run.{Run, ok, halt, faulted}
use ece344_operating_systems.Base.Store.{write}
use ece344_operating_systems.Base.Strings.{hash, same_name}

-- struct wc_ele
pub record WcEle : Type 0 where
  pub word : List ℕ
  pub num_occurrences : ℕ

-- struct wc
pub record Wc : Type 0 where
  pub hash_table : ℕ → List WcEle
  pub size : ℕ
  pub capacity : ℕ

-- Whether an element of the bucket has the word.
abbrev pub exists : List ℕ → List WcEle → Bool
exists current_word [] = false
exists current_word (ele ∷ eles) =
    let rest = exists current_word eles in if same_name current_word ele.word then true else rest

-- The first element with the word counts one more; a new one stands at the end.
abbrev pub add_in : List ℕ → List WcEle → List WcEle
add_in current_word [] = (record { word = current_word; num_occurrences = 1 }) ∷ []
add_in current_word (ele ∷ eles) =
    let rest = add_in current_word eles in
    if same_name current_word ele.word
    then (record ele { num_occurrences = ele.num_occurrences + 1 }) ∷ eles
    else ele ∷ rest

unfoldable pub bucket_of : ℕ → List ℕ → ℕ
unfolding hash
bucket_of capacity word = hash word % capacity

unfoldable pub add_word : List ℕ → Wc → Wc
unfolding bucket_of
add_word current_word wc =
    let key = bucket_of wc.capacity current_word in
    let bucket = wc.hash_table key in
    record wc {
      hash_table = write wc.hash_table key (add_in current_word bucket);
      size = if exists current_word bucket then wc.size else wc.size + 1;
    }

-- The string in the buffer: its bytes up to the first NUL.
abbrev pub c_string : List ℕ → List ℕ
c_string [] = []
c_string (c ∷ cs) = let rest = c_string cs in if c == 0 then [] else c ∷ rest

abbrev pub is_empty : List ℕ → Bool
is_empty [] = true
is_empty (_ ∷ _) = false

module _ (isspace : ℕ → Bool) where
  -- The loop of wc_init from `i` on; `buffer` are the bytes in front of word_buffer, in 100 bytes of
  -- space. After the round with the largest `int`, `++i` overflows.
  unfoldable pub count_words : ℕ → List ℕ → List ℕ → Wc → Run Wc (Unit {0})
  unfolding add_word
  count_words i [] buffer wc = ok tt wc
  count_words i (c ∷ word_array) buffer wc =
      let skipped = count_words (i + 1) word_array buffer wc in
      let counted = count_words (i + 1) word_array [] (add_word (c_string buffer) wc) in
      let grown = count_words (i + 1) word_array (buffer ++ c ∷ []) wc in
      if leb (2 ^ 31 - 1) i
      then halt faulted
      else if isspace c
      then (if is_empty (c_string buffer) then skipped else counted)
      else if leb (length buffer + 2) 100
      then grown
      else halt faulted

  unfoldable pub wc_init : List ℕ → Run Wc (Unit {0})
  unfolding count_words
  wc_init word_array =
      count_words 0 word_array []
        (record { hash_table = λ _. []; size = 0; capacity = length word_array })
