-- ===== src/Obsidian/Outcome.antt =====
-- What an operation of internal/tools/obsidian returns: a value or one of the errors that the package
-- tells apart. An error of an encoder is `encoding`.
use personal_mcp_gateway.Base.{Option, none, some, ◌≡◌, refl, arith}

pub data Failure : Type 0 where
  cursor_invalid cursor_mismatch cursor_stale : Failure
  invalid_coverage response_too_large : Failure
  canceled timeout : Failure
  encoding : Failure

pub data Outcome {ℓ} (A : Type ℓ) : Type ℓ where
  ok : A → Outcome A
  fail : Failure → Outcome A

infixl 5 ◌>>=◌
abbrev pub ◌>>=◌ {ℓ κ} : {A : Type ℓ} {B : Type κ} → Outcome A → (A → Outcome B) → Outcome B
ok a >>= f = f a
fail e >>= f = fail e

abbrev pub or_fail {ℓ} : {A : Type ℓ} → Failure → Option A → Outcome A
or_fail e none = fail e
or_fail e (some a) = ok a

abbrev pub unless_failed : Option Failure → Outcome (Unit {0})
unless_failed none = ok tt
unless_failed (some e) = fail e

-- What returns has returned at each of its steps.
pub both_ok {ℓ κ} :
    {A : Type ℓ} {B : Type κ} (m : Outcome A) (next : A → Outcome B) {b : B}
    → (m >>= next) ≡ ok b
    → (a : A) × (m ≡ ok a) × (next a ≡ ok b)
both_ok (ok a) next h = (a, refl, h)
both_ok (fail e) next h = cc

pub some_of_ok {ℓ} :
    {A : Type ℓ} (e : Failure) (o : Option A) {a : A} → or_fail e o ≡ ok a → o ≡ some a
some_of_ok e none h = cc
some_of_ok e (some b) h = ground (arith, h)
