-- ===== src/Outcome.antt =====
-- Results of fallible code: `wrapperrs::Result`, with a panic as a third outcome.
use ssh_keys.Base.{ℕ, Bytes, String, ◌≡◌, refl, Option, arith, none, some, ◌⊎◌, inl, inr}

-- The kinds of `std::io::Error` that the program tells apart; any other has a code.
pub data IoKind : Type 0 where
  unexpected_eof broken_pipe not_found : IoKind
  other_io : ℕ → IoKind

-- What `wrap_err` and `Error::new` are given: a text, or a text formatted with a number
-- or a string.
pub data Message : Type 0 where
  text : String → Message
  text_number : String → ℕ → Message
  text_bytes : String → Bytes → Message

-- `library` is an error value of a third-party library.
pub data Error : Type 0 where
  io : IoKind → Error
  utf8 : Error
  library : Error
  error_new : Message → Error
  wrapped : Message → Error → Error

pub data Outcome {ℓ} (A : Type ℓ) : Type ℓ where
  ok : A → Outcome A
  err : Error → Outcome A
  panic : Outcome A

infixl 5 ◌>>=◌ ◌>>◌
abbrev pub ◌>>=◌ {ℓ κ} : {B : Type κ} {A : Type ℓ} → Outcome A → (A → Outcome B) → Outcome B
panic >>= next = panic
err failure >>= next = err failure
ok value >>= next = next value

abbrev pub ◌>>◌ {ℓ} : {B : Type ℓ} → Outcome (Unit {0}) → Outcome B → Outcome B
first >> later = first >>= λ done. later

-- `.wrap_err(message)`
abbrev pub wrap_err {ℓ} : {A : Type ℓ} → Message → Outcome A → Outcome A
wrap_err m (ok a) = ok a
wrap_err m (err e) = err (wrapped m e)
wrap_err m panic = panic

-- A library call that returns an error, under `?`, and the same under `.unwrap()`.
abbrev pub or_library {ℓ} : {A : Type ℓ} → Option A → Outcome A
or_library (some a) = ok a
or_library none = err library

abbrev pub unwrap {ℓ} : {A : Type ℓ} → Option A → Outcome A
unwrap (some a) = ok a
unwrap none = panic

module _ {ℓ κ} {A : Type ℓ} {B : Type κ} {result : B} where
  pub >>=-eq-ok :
      (first : Outcome A) (next : A → Outcome B)
      → (first >>= next) ≡ ok result
      → (value : A) × (first ≡ ok value) × (next value ≡ ok result)
  >>=-eq-ok panic next ran = cc
  >>=-eq-ok (err failure) next ran = cc
  >>=-eq-ok (ok value) next ran = (value, refl, ran)

module _ {ℓ} {A : Type ℓ} where
  pub wrap_err-eq-ok : (m : Message) (r : Outcome A) {a : A} → wrap_err m r ≡ ok a → r ≡ ok a
  wrap_err-eq-ok m (ok a) h = h
  wrap_err-eq-ok m (err e) h = cc
  wrap_err-eq-ok m panic h = cc

  pub or_library-eq-ok : (o : Option A) {a : A} → or_library o ≡ ok a → o ≡ some a
  or_library-eq-ok (some a) h = ground arith
  or_library-eq-ok none h = cc

  pub ok-injective : {a b : A} → ok a ≡ ok b → a ≡ b
  ok-injective h = ground arith

pub Outcome-cases {ℓ} :
    {A : Type ℓ} (r : Outcome A)
    → ((a : A) × (r ≡ ok a)) ⊎ (((e : Error) × (r ≡ err e)) ⊎ (r ≡ panic))
Outcome-cases (ok a) = inl (a, refl)
Outcome-cases (err e) = inr (inl (e, refl))
Outcome-cases panic = inr (inr refl)
