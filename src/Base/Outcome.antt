-- ===== src/Base/Outcome.antt =====
-- What a call comes back with: a value, the message of an `Err`, or a panic; `unfinished` when it is
-- still in a loop after the turns that the run has for it.
use Prim.Native.String.{String}
use mathlib.Core.Bool.{Bool, true, false}
use mathlib.Core.Option.{Option, none, some}

pub data Outcome {ℓ} (A : Type ℓ) : Type ℓ where
  ok : A → Outcome A
  err : String → Outcome A
  panic : String → Outcome A
  unfinished : Outcome A

infixl 5 ◌>>=◌ ◌>>◌
abbrev pub ◌>>=◌ {ℓ κ} : {A : Type ℓ} {B : Type κ} → Outcome A → (A → Outcome B) → Outcome B
ok a >>= f = f a
err e >>= f = err e
panic e >>= f = panic e
unfinished >>= f = unfinished

abbrev pub ◌>>◌ {ℓ} : {B : Type ℓ} → Outcome (Unit {0}) → Outcome B → Outcome B
m >> k = m >>= λ _. k

-- `assert!`
abbrev pub assert : Bool → String → Outcome (Unit {0})
assert true message = ok tt
assert false message = panic message

-- `unwrap` or `expect` of an option.
abbrev pub unwrap {ℓ} : {A : Type ℓ} → Option A → String → Outcome A
unwrap none message = panic message
unwrap (some a) message = ok a

-- `ok_or` and `?`, or a `match` that returns `Err` on `None`.
abbrev pub ok_or {ℓ} : {A : Type ℓ} → Option A → String → Outcome A
ok_or none message = err message
ok_or (some a) message = ok a
