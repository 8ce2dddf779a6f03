-- ===== src/Exec.antt =====
-- Code that changes a state and can fail or panic: what was changed before stays changed.
use ssh_keys.Base.{◌≡◌, refl}
use ssh_keys.Outcome.{Message, Outcome, ok, err, panic, wrap_err}

abbrev pub Exec {ℓ} : Type 0 → Type ℓ → Type ℓ
Exec S A = S → Outcome A × S

abbrev pub and_then {ℓ κ} :
    {S : Type 0} {A : Type ℓ} {B : Type κ} → Outcome A → S → (A → Exec S B) → Outcome B × S
and_then (ok a) s f = f a s
and_then (err e) s f = (err e, s)
and_then panic s f = (panic, s)

infixl 5 ◌>>=◌ ◌>>◌
abbrev pub ◌>>=◌ {ℓ κ} :
    {S : Type 0} {A : Type ℓ} {B : Type κ} → Exec S A → (A → Exec S B) → Exec S B
◌>>=◌ m f s = and_then (m s).0 (m s).1 f

abbrev pub ◌>>◌ {ℓ} : {S : Type 0} {B : Type ℓ} → Exec S (Unit {0}) → Exec S B → Exec S B
m >> k = m >>= λ _. k

abbrev pub pure {ℓ} : {S : Type 0} {A : Type ℓ} → A → Exec S A
pure a s = (ok a, s)

-- A step that does not touch the state.
abbrev pub lift {ℓ} : {S : Type 0} {A : Type ℓ} → Outcome A → Exec S A
lift r s = (r, s)

abbrev pub gets {ℓ} : {S : Type 0} {A : Type ℓ} → (S → A) → Exec S A
gets f s = (ok (f s), s)

-- `.wrap_err(message)` on the result of a call.
abbrev pub wrapping {ℓ} : {S : Type 0} {A : Type ℓ} → Message → Exec S A → Exec S A
wrapping m x s = (wrap_err m (x s).0, (x s).1)

module _ {ℓ κ} {S : Type 0} {A : Type ℓ} {B : Type κ} where
  -- What holds of a state, and of the states after the next step, holds after both.
  pub and_then-keeps :
      (P : S → Type 0) (r : Outcome A) (s : S) (f : A → Exec S B)
      → P s
      → ((a : A) → r ≡ ok a → P (f a s).1)
      → P (and_then r s f).1
  and_then-keeps P (ok a) s f p q = q a refl
  and_then-keeps P (err e) s f p q = p
  and_then-keeps P panic s f p q = p

  pub and_then-eq-ok :
      (r : Outcome A) (s : S) (f : A → Exec S B) {b : B}
      → (and_then r s f).0 ≡ ok b
      → (a : A) × (r ≡ ok a) × ((f a s).0 ≡ ok b) × ((and_then r s f).1 ≡ (f a s).1)
  and_then-eq-ok (ok a) s f h = (a, refl, h, refl)
  and_then-eq-ok (err e) s f h = cc
  and_then-eq-ok panic s f h = cc
