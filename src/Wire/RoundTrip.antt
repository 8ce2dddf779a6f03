-- ===== src/Wire/RoundTrip.antt =====
-- src/agent/wire.rs: reading and writing against each other.
use ssh_keys.Base.{
  length-append, true, ℕ, ◌+◌, ◌*◌, ◌%◌, ◌^◌, ◌<◌, ◌≤◌, ◌≡◌, refl, sym, ap, ◌∙◌, Bytes, length, [],
  ◌∷◌, ◌++◌, append_assoc, All, IsByte, All-append_inv, arith, Bool-cases, ◌≢◌, bit_and, inl, inr,
  some, ltb,
}
use ssh_keys.Base.Bits.{bit_and-top}
use ssh_keys.Outcome.{IoKind, ok, panic, text, wrap_err-eq-ok}
use ssh_keys.Packages.{ByteOrder, ByteOrderLaws, Openssl, BigNumLaws}
use ssh_keys.Reader.{Input, wrapping, run_next-eq-ok, read_exact, read_exact-append, read_exact_inv}
use ssh_keys.Wire.{
  read_u8, read_u32, read_string, read_string_utf8, write_string, read_mpint, write_mpint,
  sign_byte,
}
use ssh_keys.Text.{is_utf8, from_utf8}

pub read_u8-cons :
    (b : ℕ) (rest : Bytes) (e : IoKind)
    → read_u8 (record { bytes = b ∷ rest; ending = e })
      ≡ ok (b, record { bytes = rest; ending = e })
unfolding read_u8
read_u8-cons b rest e = rw (read_exact-append (b ∷ []) rest e)

module _ {bo : ByteOrder} (laws : ByteOrderLaws bo) where
  pub length-to_be : (n : ℕ) → n < 2 ^ 32 → length (bo.u32_to_be n) ≡ 4
  length-to_be n h = rw (laws.to_be-bytes n h)

  pub from_be-to_be : (n : ℕ) → n < 2 ^ 32 → bo.u32_from_be (bo.u32_to_be n) ≡ n
  from_be-to_be n h = rw (laws.to_be-bytes n h, laws.from_be-bytes) (omega arith)

  pub to_be-from_be :
      (bs : Bytes) → length bs ≡ 4 → All IsByte bs → bo.u32_to_be (bo.u32_from_be bs) ≡ bs
  to_be-from_be (a ∷ b ∷ c ∷ d ∷ []) h w =
      rw
        (
          laws.from_be-bytes a b c d,
          laws.to_be-bytes (a * 16777216 + b * 65536 + c * 256 + d) (omega arith),
        )
        (ground arith)
  to_be-from_be [] h w = absurd (omega arith)
  to_be-from_be (a ∷ []) h w = absurd (omega arith)
  to_be-from_be (a ∷ b ∷ []) h w = absurd (omega arith)
  to_be-from_be (a ∷ b ∷ c ∷ []) h w = absurd (omega arith)
  to_be-from_be (a ∷ b ∷ c ∷ d ∷ e ∷ bs) h w = absurd (omega arith)

  pub from_be-lt : (bs : Bytes) → length bs ≡ 4 → All IsByte bs → bo.u32_from_be bs < 2 ^ 32
  from_be-lt (a ∷ b ∷ c ∷ d ∷ []) h w = omega (arith, laws.from_be-bytes a b c d)
  from_be-lt [] h w = absurd (omega arith)
  from_be-lt (a ∷ []) h w = absurd (omega arith)
  from_be-lt (a ∷ b ∷ []) h w = absurd (omega arith)
  from_be-lt (a ∷ b ∷ c ∷ []) h w = absurd (omega arith)
  from_be-lt (a ∷ b ∷ c ∷ d ∷ e ∷ bs) h w = absurd (omega arith)

  pub read_u32-to_be :
      (n : ℕ) (rest : Bytes) (e : IoKind)
      → n < 2 ^ 32
      → read_u32 bo (record { bytes = bo.u32_to_be n ++ rest; ending = e })
        ≡ ok (n, record { bytes = rest; ending = e })
  unfolding read_u32
  read_u32-to_be n rest e h =
      let four : length (bo.u32_to_be n) ≡ 4 = length-to_be n h in
      let exact = read_exact-append (bo.u32_to_be n) rest e in
      rw (rw four at exact) (rw (from_be-to_be n h))

  -- A string of fewer than 2^32 bytes is read back as it was written, and what follows it is left.
  pub read_string-write_string :
      (s rest : Bytes) (e : IoKind)
      → length s < 2 ^ 32
      → read_string bo (record { bytes = write_string bo [] s ++ rest; ending = e })
        ≡ ok (s, record { bytes = rest; ending = e })
  unfolding read_string write_string
  read_string-write_string s rest e h =
      let small : length s % 2 ^ 32 ≡ length s = omega arith in
      rw (
        small,
        append_assoc (bo.u32_to_be (length s)) s rest,
        read_u32-to_be (length s) (s ++ rest) e h,
        read_exact-append s rest e,
      )

  pub length-write_string :
      (s : Bytes) → length s < 2 ^ 32 → length (write_string bo [] s) ≡ length s + 4
  unfolding write_string
  length-write_string s h = omega (
    arith,
    length-append (bo.u32_to_be (length s % 2 ^ 32)) s,
    length-to_be (length s % 2 ^ 32) (omega arith),
  )

  -- The same for text.
  pub read_string_utf8-write_string :
      (s rest : Bytes) (e : IoKind)
      → length s < 2 ^ 32
      → is_utf8 s ≡ true
      → read_string_utf8 bo (record { bytes = write_string bo [] s ++ rest; ending = e })
        ≡ ok (s, record { bytes = rest; ending = e })
  unfolding read_string_utf8 from_utf8
  read_string_utf8-write_string s rest e h valid = rw (read_string-write_string s rest e h, valid)

  read_u32_inv :
      (i : Input) (n : ℕ) (j : Input)
      → All IsByte i.bytes
      → read_u32 bo i ≡ ok (n, j)
      → (i.bytes ≡ bo.u32_to_be n ++ j.bytes)
        × (n < 2 ^ 32)
        × All IsByte j.bytes
        × (j.ending ≡ i.ending)
  unfolding read_u32
  read_u32_inv i n j w h =
      let (b, k, hb, hn) = run_next-eq-ok (read_exact 4 i) _ h in
      let (ei, four, ek) = read_exact_inv 4 i b k hb in
      let parts = All-append_inv IsByte b k.bytes (rw ei at w) in
      let en : bo.u32_from_be b ≡ n = ground arith in
      let ej : k ≡ j = ground arith in
      rw (← en, ← ej)
        (
          ei ∙ ap (λ t. t ++ k.bytes) (sym (to_be-from_be b four parts.0)),
          from_be-lt b four parts.0,
          parts.1,
          ek,
        )

  -- From bytes, a string that was read is shorter than 2^32, and what was there is the writing of
  -- this string before what is left.
  pub write_string-read_string :
      (i j : Input) (s : Bytes)
      → All IsByte i.bytes
      → read_string bo i ≡ ok (s, j)
      → (i.bytes ≡ write_string bo [] s ++ j.bytes) × (j.ending ≡ i.ending) × (length s < 2 ^ 32)
  unfolding read_string write_string
  write_string-read_string i j s w h =
      let (n, k, hn, hs) = run_next-eq-ok (wrapping (text "read len") (read_u32 bo) i) _ h in
      let (ei, small, wk, ek) = read_u32_inv i n k w (wrap_err-eq-ok _ _ hn) in
      let (es, len, ej) = read_exact_inv n k s j (wrap_err-eq-ok _ _ hs) in
      let whole : length s % 2 ^ 32 ≡ n = omega arith in
      (rw (whole, ei, es) (sym (append_assoc _ s j.bytes)), ej ∙ ek, omega arith)

-- A write to a `Vec` appends.
pub write_string-append :
    (bo : ByteOrder) (buf s : Bytes) → write_string bo buf s ≡ buf ++ write_string bo [] s
unfolding write_string
write_string-append bo buf s = append_assoc buf _ s

-- What `write_mpint` writes: a string that `read_mpint` takes for the same number, and whose first
-- byte has its top bit clear, so that it is no negative number.
pub data IsMpint (ssl : Openssl) (bn : ssl.BigNum) : Bytes → Type 0 where
  mpint :
      (b : ℕ) (bs : Bytes)
      → b < 128
      → ssl.from_slice (b ∷ bs) ≡ some bn
      → All IsByte (b ∷ bs)
      → IsMpint ssl bn (b ∷ bs)

sign_byte-IsMpint :
    {ssl : Openssl} (laws : BigNumLaws ssl) (bn : ssl.BigNum) (bs : Bytes)
    → ssl.to_vec bn ≡ bs
    → bs ≢ []
    → (out : Bytes) × (sign_byte bs ≡ ok out) × IsMpint ssl bn out × (length out ≤ length bs + 1)
unfolding sign_byte
sign_byte-IsMpint {ssl} laws bn [] e h = absurd (h refl)
sign_byte-IsMpint {ssl} laws bn (b ∷ bs) e h = elim (Bool-cases (ltb 0 (bit_and b 0x80))) [
  | inl top ↦ (
    0 ∷ b ∷ bs,
    rw top,
    mpint 0 (b ∷ bs) (omega arith) (laws.from_slice-zero (b ∷ bs) ∙ whole) (omega arith, octets),
    omega arith,
  )
  | inr clear ↦ (
    b ∷ bs,
    rw clear,
    mpint b bs (ground (arith, bit_and-top b, octets.0)) whole octets,
    omega arith,
  )
]
  where
    whole : ssl.from_slice (b ∷ bs) ≡ some bn
    whole = rw e at (laws.from_slice-to_vec bn)

    octets : All IsByte (b ∷ bs)
    octets = rw e at (laws.to_vec-bytes bn)

IsMpint-from_slice :
    {ssl : Openssl} {bn : ssl.BigNum} {out : Bytes}
    → IsMpint ssl bn out
    → ssl.from_slice out ≡ some bn
IsMpint-from_slice (mpint b bs small whole octets) = whole

-- What was written for a number.
pub record MpintField (bo : ByteOrder) (ssl : Openssl) (buf : Bytes) (bn : ssl.BigNum)
    : Type 0 where
  pub content : Bytes
  pub is_mpint : IsMpint ssl bn content
  pub length_content : length content ≤ length (ssl.to_vec bn) + 1
  pub wrote : write_mpint bo ssl buf bn ≡ ok (buf ++ write_string bo [] content)

pub write_mpint-MpintField :
    (bo : ByteOrder) {ssl : Openssl} (laws : BigNumLaws ssl) (buf : Bytes) (bn : ssl.BigNum)
    → ssl.to_vec bn ≢ []
    → MpintField bo ssl buf bn
unfolding write_mpint
write_mpint-MpintField bo {ssl} laws buf bn h =
    let (out, e, m, l) = sign_byte-IsMpint laws bn (ssl.to_vec bn) refl h in
    record {
      content = out;
      is_mpint = m;
      length_content = l;
      wrote = rw e (ap (λ t. ok t) (write_string-append bo buf out));
    }

-- `bytes[0]` of zero, which has no bytes.
pub write_mpint_zero :
    (bo : ByteOrder) (ssl : Openssl) (buf : Bytes) (bn : ssl.BigNum)
    → ssl.to_vec bn ≡ []
    → write_mpint bo ssl buf bn ≡ panic
unfolding write_mpint
write_mpint_zero bo ssl buf bn h = rw h

pub read_mpint-MpintField :
    {bo : ByteOrder} (laws : ByteOrderLaws bo) {ssl : Openssl} {buf : Bytes} {bn : ssl.BigNum}
    (f : MpintField bo ssl buf bn) (rest : Bytes) (e : IoKind)
    → length (ssl.to_vec bn) + 1 < 2 ^ 32
    → read_mpint bo ssl (record { bytes = write_string bo [] f.content ++ rest; ending = e })
      ≡ ok (bn, record { bytes = rest; ending = e })
unfolding read_mpint
read_mpint-MpintField laws f rest e h = rw (
  read_string-write_string laws f.content rest e (omega (arith, f.length_content)),
  IsMpint-from_slice f.is_mpint,
)
