-- ===== src/Reader.antt =====
-- `std::io::Read`, as a state-passing reader over the bytes that are still to come.
use ssh_keys.Base.{
  ℕ, ◌<◌, ◌≡◌, refl, Bytes, length, take, drop, leb, if◌then◌else◌, ◌++◌, arith, length-append,
  take-append, drop-append, take-append-drop, length-take,
}
use ssh_keys.Outcome.{IoKind, unexpected_eof, Message, io, Outcome, ok, err, panic, wrap_err}

-- `ending` is the error of a read past the last byte: end of file, or the failure of a connection.
pub record Input : Type 0 where
  pub bytes : Bytes
  pub ending : IoKind

-- `Cursor::new(buf)`
abbrev pub cursor : Bytes → Input
cursor bs = record { bytes = bs; ending = unexpected_eof }

abbrev pub Reader {ℓ} : Type ℓ → Type ℓ
Reader A = Input → Outcome (A × Input)

abbrev pub run_next {ℓ κ} :
    {A : Type ℓ} {B : Type κ} → Outcome (A × Input) → (A → Reader B) → Outcome (B × Input)
run_next (ok (a, i)) f = f a i
run_next (err e) f = err e
run_next panic f = panic

infixl 5 ◌>>=◌
abbrev pub ◌>>=◌ {ℓ κ} : {A : Type ℓ} {B : Type κ} → Reader A → (A → Reader B) → Reader B
◌>>=◌ m f i = run_next (m i) f

abbrev pub pure {ℓ} : {A : Type ℓ} → A → Reader A
pure a i = ok (a, i)

abbrev pub beside {ℓ} : {A : Type ℓ} → Outcome A → Input → Outcome (A × Input)
beside (ok a) i = ok (a, i)
beside (err e) i = err e
beside panic i = panic

-- A step that reads nothing.
abbrev pub lift {ℓ} : {A : Type ℓ} → Outcome A → Reader A
lift r i = beside r i

-- `.wrap_err(message)` on the result of a read.
abbrev pub wrapping {ℓ} : {A : Type ℓ} → Message → Reader A → Reader A
wrapping m r i = wrap_err m (r i)

module _ {ℓ κ} {A : Type ℓ} {B : Type κ} where
  -- A `do` block that succeeds ran its first step with success.
  pub run_next-eq-ok :
      (m : Outcome (A × Input)) (f : A → Reader B) {b : B} {j : Input}
      → run_next m f ≡ ok (b, j)
      → (a : A) × (i : Input) × (m ≡ ok (a, i)) × (f a i ≡ ok (b, j))
  run_next-eq-ok (ok (a, i)) f h = (a, i, refl, h)
  run_next-eq-ok (err e) f h = cc
  run_next-eq-ok panic f h = cc

module _ {ℓ} {A : Type ℓ} where
  pub beside-eq-ok :
      (r : Outcome A) (i : Input) {a : A} {j : Input}
      → beside r i ≡ ok (a, j)
      → (r ≡ ok a) × (j ≡ i)
  beside-eq-ok (ok a) i h = ground arith
  beside-eq-ok (err e) i h = cc
  beside-eq-ok panic i h = cc

-- `read_exact` into a buffer of `n` bytes.
unfoldable pub read_exact : ℕ → Reader Bytes
read_exact n i =
    if leb n (length i.bytes)
    then ok (take n i.bytes, record i { bytes = drop n i.bytes })
    else err (io i.ending)

pub read_exact-append :
    (front back : Bytes) (e : IoKind)
    → read_exact (length front) (record { bytes = front ++ back; ending = e })
      ≡ ok (front, record { bytes = back; ending = e })
unfolding read_exact
read_exact-append front back e =
    ground (arith, length-append front back, take-append front back, drop-append front back)

-- What was read and what is left make up the input.
pub read_exact_inv :
    (n : ℕ) (i : Input) (bs : Bytes) (j : Input)
    → read_exact n i ≡ ok (bs, j)
    → (i.bytes ≡ bs ++ j.bytes) × (length bs ≡ n) × (j.ending ≡ i.ending)
unfolding read_exact
read_exact_inv n i bs j h = ground (arith, take-append-drop n i.bytes, length-take n i.bytes)

pub read_exact_short : (n : ℕ) (i : Input) → length i.bytes < n → read_exact n i ≡ err (io i.ending)
unfolding read_exact
read_exact_short n i h = ground arith
