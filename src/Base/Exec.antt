-- ===== src/Base/Exec.antt =====
-- Code that changes a state: the state is passed through, also past an error or a panic, so
-- that what a failed call leaves behind can be stated.
use Prim.Native.String.{String}
use mathlib.Core.Bool.{Bool, true, false}
use mathlib.Core.Path.{◌≡◌, refl, ap}
use native.Mathlib.Omega.{arith}
use rp4os.Base.Outcome.{Outcome, ok, err, panic, unfinished}

abbrev pub Exec : Type 0 → Type 0 → Type 0
Exec S A = S → Outcome A × S

abbrev pub bind_outcome : {S A B : Type 0} → Outcome A → S → (A → Exec S B) → Outcome B × S
bind_outcome (ok a) s f = f a s
bind_outcome (err e) s f = (err e, s)
bind_outcome (panic e) s f = (panic e, s)
bind_outcome unfinished s f = (unfinished, s)

infixl 5 ◌>>=◌ ◌>>◌
abbrev pub ◌>>=◌ : {S A B : Type 0} → Exec S A → (A → Exec S B) → Exec S B
◌>>=◌ m f s = let r = m s in bind_outcome r.0 r.1 f

abbrev pub ◌>>◌ : {S B : Type 0} → Exec S (Unit {0}) → Exec S B → Exec S B
m >> k = m >>= λ _. k

abbrev pub pure : {S A : Type 0} → A → Exec S A
pure a s = (ok a, s)

-- A call that reads no state.
abbrev pub lift : {S A : Type 0} → Outcome A → Exec S A
lift o s = (o, s)

abbrev pub get : {S : Type 0} → Exec S S
get s = (ok s, s)

abbrev pub put : {S : Type 0} → S → Exec S (Unit {0})
put s' s = (ok tt, s')

-- `if test { return Err(message) }`
abbrev pub fail_if : {S : Type 0} → Bool → String → Exec S (Unit {0})
fail_if true message s = (err message, s)
fail_if false message s = (ok tt, s)

-- What holds of the state that a sequence leaves, from its first part and the run of its second.
pub seq_state {ℓ} :
    {S B : Type 0} (P : S → Type ℓ) (m : Exec S (Unit {0})) (k : Exec S B) (s : S)
    → P (m s).1
    → ((s' : S) → m s ≡ (ok tt, s') → P (k s').1)
    → P ((m >> k) s).1
seq_state {S = S} {B = B} P m k s stop go = elim_outcome (m s).0 (m s).1 refl stop go
  where
    elim_outcome :
        (o : Outcome (Unit {0})) (s' : S)
        → m s ≡ (o, s')
        → P s'
        → ((t : S) → m s ≡ (ok tt, t) → P (k t).1)
        → P (bind_outcome o s' (λ _. k)).1
    elim_outcome (ok tt) s' e stop go = go s' e
    elim_outcome (err x) s' e stop go = stop
    elim_outcome (panic x) s' e stop go = stop
    elim_outcome unfinished s' e stop go = stop

-- A sequence that succeeds is two calls that do.
pub seq_ok :
    {S B : Type 0} (m : Exec S (Unit {0})) (k : Exec S B) (b : B) (s s' : S)
    → (m >> k) s ≡ (ok b, s')
    → (t : S) × (m s ≡ (ok tt, t)) × (k t ≡ (ok b, s'))
seq_ok {S = S} {B = B} m k b s s' h = elim_outcome (m s).0 (m s).1 refl h
  where
    elim_outcome :
        (o : Outcome (Unit {0})) (t : S)
        → m s ≡ (o, t)
        → bind_outcome o t (λ _. k) ≡ (ok b, s')
        → (u : S) × (m s ≡ (ok tt, u)) × (k u ≡ (ok b, s'))
    elim_outcome (ok tt) t e h = (t, e, h)
    elim_outcome (err x) t e h = absurd (ground (arith, ap (λ r. r.0) h))
    elim_outcome (panic x) t e h = absurd (ground (arith, ap (λ r. r.0) h))
    elim_outcome unfinished t e h = absurd (ground (arith, ap (λ r. r.0) h))
