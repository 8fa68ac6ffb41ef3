-- ===== src/Prelude/Outcome.antt =====
-- A Go result with an error, as a value or the error's text.
use mathlib.Core.Path.{◌≡◌}
use mathlib.Core.Logic.{◌≢◌}
use Prim.Native.String.{String, ◌++◌ as ◌<>◌}

pub data Outcome {ℓ} (A : Type ℓ) : Type ℓ where
  done : A → Outcome A
  failed : String → Outcome A

abbrev pub bind {ℓ κ} : {A : Type ℓ} {B : Type κ} → Outcome A → (A → Outcome B) → Outcome B
bind (done a) f = f a
bind (failed e) f = failed e

infixl 5 ◌>>=◌
abbrev pub ◌>>=◌ {ℓ κ} : {A : Type ℓ} {B : Type κ} → Outcome A → (A → Outcome B) → Outcome B
o >>= f = bind o f

-- `fmt.Errorf("...: %w", err)`
abbrev pub wrapped {ℓ} : {A : Type ℓ} → String → Outcome A → Outcome A
wrapped prefix (done a) = done a
wrapped prefix (failed e) = failed (prefix <> e)

pub failed-ne-done {ℓ} : {A : Type ℓ} {e : String} {a : A} → failed e ≢ done a
failed-ne-done h = cc

pub done_inj {ℓ} : {A : Type ℓ} (a b : A) → done a ≡ done b → a ≡ b
done_inj a b h = cc
