-- ===== src/Base/Strings.antt =====
-- Strings of C as the bytes in front of the NUL, and the hash function djb2, of which
-- webserver/server_thread.c and warmup/wc.c have a copy each.
use ece344_operating_systems.Base.Tests.{ltb, ◌==◌, if◌then◌else◌}
use Prim.Native.Nat.{ℕ, ◌+◌, ◌-◌, ◌*◌, ◌%◌, ◌^◌}
use mathlib.Core.Path.{◌≡◌, refl, ap, ◌∙◌}
use mathlib.Core.Bool.{Bool, true, false, ◌&&◌}
use mathlib.Core.List.{List, [], ◌∷◌}
use native.Mathlib.Omega.{arith}

-- A `char` as what it adds to an `unsigned long`.
abbrev pub char_value : ℕ → ℕ
char_value c = if ltb c 128 then c else c + (2 ^ 64 - 256)

unfoldable pub hash_from : ℕ → List ℕ → ℕ
hash_from h [] = h
hash_from h (c ∷ str) = hash_from ((h * 2 ^ 5 % 2 ^ 64 + h + char_value c) % 2 ^ 64) str

unfoldable pub hash : List ℕ → ℕ
unfolding hash_from
hash str = hash_from 5381 str

-- strcmp(a, b) == 0
abbrev pub same_name : List ℕ → List ℕ → Bool
same_name [] [] = true
same_name [] (_ ∷ _) = false
same_name (_ ∷ _) [] = false
same_name (a ∷ s) (b ∷ t) = a == b && same_name s t

pub same_name_sound : (s t : List ℕ) → same_name s t ≡ true → s ≡ t
same_name_sound [] [] h = refl
same_name_sound [] (b ∷ t) h = ground (arith, h)
same_name_sound (a ∷ s) [] h = ground (arith, h)
same_name_sound (a ∷ s) (b ∷ t) h =
    let heads : a ≡ b = ground (arith, h) in
    let tails : same_name s t ≡ true = ground (arith, h) in
    ap (λ c. c ∷ s) heads ∙ ap (λ u. b ∷ u) (same_name_sound s t tails)

pub same_name_refl : (s : List ℕ) → same_name s s ≡ true
same_name_refl [] = refl
same_name_refl (a ∷ s) = let h : (a == a) ≡ true = ground arith in rw (h, same_name_refl s) refl
