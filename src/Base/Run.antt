-- ===== src/Base/Run.antt =====
-- Runs of C code over a state: a value and the new state, or the end of the process.
use ece344_operating_systems.Base.Tests.{if◌then◌else◌}
use mathlib.Core.Bool.{Bool}
use mathlib.Core.Path.{◌≡◌, ap}

-- `aborted` is a failed `assert`, `exited` a call of `exit` or the macro EXIT, `faulted` an access
-- outside an object, and `diverged` a loop that does not end.
pub data Halt : Type 0 where
  aborted exited faulted diverged : Halt

pub data Run {ℓ} (S A : Type ℓ) : Type ℓ where
  ok : A → S → Run S A
  halt : Halt → Run S A

abbrev pub Cmd {ℓ} : Type ℓ → Type ℓ → Type ℓ
Cmd S A = S → Run S A

abbrev pub pure {ℓ} : {S A : Type ℓ} → A → Cmd S A
pure a s = ok a s

module _ {ℓ} {S A B : Type ℓ} where
  abbrev pub and_then : Run S A → (A → Cmd S B) → Run S B
  and_then (ok a s) k = k a s
  and_then (halt h) k = halt h

  infixl 5 ◌>>=◌ ◌>>◌
  abbrev pub ◌>>=◌ : Cmd S A → (A → Cmd S B) → Cmd S B
  ◌>>=◌ m k s = and_then (m s) k

  abbrev pub ◌>>◌ : Cmd S A → Cmd S B → Cmd S B
  ◌>>◌ m k s = and_then (m s) (λ _. k)

abbrev pub get_state {ℓ} : {S : Type ℓ} → Cmd S S
get_state s = ok s s

abbrev pub modify : {S : Type 0} → (S → S) → Cmd S (Unit {0})
modify f s = ok tt (f s)

-- assert(b)
abbrev pub assert : {S : Type 0} → Bool → Cmd S (Unit {0})
assert b s = if b then ok tt s else halt aborted

abbrev pub answer_of {ℓ} : {S A : Type ℓ} → A → Run S A → A
answer_of a (ok b s) = b
answer_of a (halt h) = a

abbrev pub state_of {ℓ} : {S A : Type ℓ} → S → Run S A → S
state_of s (ok b t) = t
state_of s (halt h) = s

pub ok_answer : {S A : Type 0} {a b : A} {s t : S} → ok a s ≡ ok b t → a ≡ b
ok_answer {a} e = ap (answer_of a) e

pub ok_state : {S A : Type 0} {a b : A} {s t : S} → ok a s ≡ ok b t → s ≡ t
ok_state {s} e = ap (state_of s) e
