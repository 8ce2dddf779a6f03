-- ===== src/Text/Utf16/Reading.antt =====
-- src/platform/win/utils.rs: what is read of the result of `to_utf16_null`.
use ssh_keys.Base.{
  All, ℕ, ◌+◌, ◌-◌, ◌*◌, ◌/◌, ◌%◌, ◌<◌, ◌++◌, ◌≡◌, refl, ap, ◌∙◌, inl, inr, true, false, Bool-cases,
  List, [], ◌∷◌, none, some, Bytes, ltb, ◌==◌, arith, append_assoc,
}
use ssh_keys.Text.{utf8_char, utf16_from, from_utf16, with_front, joined, is_low, is_high}
use ssh_keys.Text.Utf16.{
  first_bits, utf16_char, units_from, to_utf16_null, until_zero, IsChar, text_of, chars_until_zero,
}

module _ (bs : Bytes) where
  -- Bits count only where bytes are wanted.
  units_from-bits : (bits : ℕ) → units_from 0 bits bs ≡ units_from 0 0 bs
  unfolding units_from
  units_from-bits bits = go bs
    where
      go : (bs : Bytes) → units_from 0 bits bs ≡ units_from 0 0 bs
      go [] = refl
      go (b ∷ bs) = refl

  one_byte : (x bits : ℕ) → x < 128 → units_from 0 bits (x ∷ bs) ≡ x ∷ units_from 0 0 bs
  unfolding units_from
  one_byte x bits hx =
      let test : ltb x 128 ≡ true = ground arith in
      rw test (ap (λ us. x ∷ us) (units_from-bits (first_bits x)))

  two_bytes :
      (x y bits : ℕ)
      → x < 32
      → y < 64
      → units_from 0 bits ((0xc0 + x) ∷ (0x80 + y) ∷ bs)
        ≡ utf16_char (x * 64 + y) ++ units_from 0 0 bs
  unfolding units_from
  two_bytes x y bits hx hy =
      let low : ltb (0xc0 + x) 0x80 ≡ false = ground arith in
      let test : ltb (0xc0 + x) 0xe0 ≡ true = ground arith in
      let code_ : (0xc0 + x) % 32 * 64 + (0x80 + y) % 64 ≡ x * 64 + y = omega arith in
      rw (low, test) (ap (λ c. utf16_char c ++ units_from 0 0 bs) code_)

  three_bytes :
      (x y z bits : ℕ)
      → x < 16
      → y < 64
      → z < 64
      → units_from 0 bits ((0xe0 + x) ∷ (0x80 + y) ∷ (0x80 + z) ∷ bs)
        ≡ utf16_char ((x * 64 + y) * 64 + z) ++ units_from 0 0 bs
  unfolding units_from
  three_bytes x y z bits hx hy hz =
      let low : ltb (0xe0 + x) 0x80 ≡ false = ground arith in
      let low2 : ltb (0xe0 + x) 0xe0 ≡ false = ground arith in
      let test : ltb (0xe0 + x) 0xf0 ≡ true = ground arith in
      let code_ : ((0xe0 + x) % 16 * 64 + (0x80 + y) % 64) * 64 + (0x80 + z) % 64
          ≡ (x * 64 + y) * 64 + z =
        omega arith in
      rw (low, low2, test) (ap (λ c. utf16_char c ++ units_from 0 0 bs) code_)

  four_bytes :
      (x y z v bits : ℕ)
      → x < 8
      → y < 64
      → z < 64
      → v < 64
      → units_from 0 bits ((0xf0 + x) ∷ (0x80 + y) ∷ (0x80 + z) ∷ (0x80 + v) ∷ bs)
        ≡ utf16_char (((x * 64 + y) * 64 + z) * 64 + v) ++ units_from 0 0 bs
  unfolding units_from
  four_bytes x y z v bits hx hy hz hv =
      let low : ltb (0xf0 + x) 0x80 ≡ false = ground arith in
      let low2 : ltb (0xf0 + x) 0xe0 ≡ false = ground arith in
      let low3 : ltb (0xf0 + x) 0xf0 ≡ false = ground arith in
      let code_ : (((0xf0 + x) % 8 * 64 + (0x80 + y) % 64) * 64 + (0x80 + z) % 64) * 64
            + (0x80 + v) % 64
          ≡ ((x * 64 + y) * 64 + z) * 64 + v =
        omega arith in
      rw (low, low2, low3) (ap (λ c. utf16_char c ++ units_from 0 0 bs) code_)

  units_from-char :
      (c bits : ℕ)
      → c < 0x110000
      → units_from 0 bits (utf8_char c ++ bs) ≡ utf16_char c ++ units_from 0 0 bs
  units_from-char c bits h = elim (Bool-cases (ltb c 0x80)) [
    | inl one ↦
        let small : ltb c 0x10000 ≡ true = ground arith in
        rw (one, small) (one_byte c bits (ground arith))
    | inr n1 ↦ elim (Bool-cases (ltb c 0x800)) [
      | inl two ↦
          rw (n1, two)
            (two_bytes (c / 64) (c % 64) bits (ground arith) (omega arith)
              ∙ ap (λ c. utf16_char c ++ units_from 0 0 bs) (omega arith))
      | inr n2 ↦ elim (Bool-cases (ltb c 0x10000)) [
        | inl three ↦
            let bytes : utf8_char c
                ≡ (0xe0 + c / 4096) ∷ (0x80 + c / 64 % 64) ∷ (0x80 + c % 64) ∷ [] =
              rw (n1, n2, three) refl in
            ap (λ t. units_from 0 bits (t ++ bs)) bytes
            ∙ three_bytes (c / 4096) (c / 64 % 64) (c % 64) bits (ground arith) (omega arith)
                (omega arith)
            ∙ ap (λ c. utf16_char c ++ units_from 0 0 bs) (omega arith)
        | inr n3 ↦
            let bytes : utf8_char c
                ≡ (0xf0 + c / 262144)
                  ∷ (0x80 + c / 4096 % 64)
                  ∷ (0x80 + c / 64 % 64)
                  ∷ (0x80 + c % 64)
                  ∷ [] =
              rw (n1, n2, n3) refl in
            ap (λ t. units_from 0 bits (t ++ bs)) bytes
            ∙ four_bytes (c / 262144) (c / 4096 % 64) (c / 64 % 64) (c % 64) bits (omega arith)
                (omega arith) (omega arith) (omega arith)
            ∙ ap (λ c. utf16_char c ++ units_from 0 0 bs) (omega arith)
      ]
    ]
  ]

-- The units of a text are those of its characters.
units_of : List ℕ → List ℕ
units_of [] = []
units_of (c ∷ cs) = utf16_char c ++ units_of cs

IsChar-lt : (c : ℕ) → IsChar c → c < 0x110000
IsChar-lt c (inl low) = omega arith
IsChar-lt c (inr high) = high.1

units_from-text_of : (cs : List ℕ) → All IsChar cs → units_from 0 0 (text_of cs) ≡ units_of cs
unfolding units_from units_of
units_from-text_of [] h = refl
units_from-text_of (c ∷ cs) (hc, h) =
    units_from-char (text_of cs) c 0 (IsChar-lt c hc)
    ∙ ap (λ us. utf16_char c ++ us) (units_from-text_of cs h)

-- A character is read back from its units.
utf16_from-char :
    (c : ℕ) (us : List ℕ)
    → IsChar c
    → utf16_from none (utf16_char c ++ us) ≡ with_front (utf8_char c) (utf16_from none us)
unfolding utf16_from
utf16_from-char c us h = elim (Bool-cases (ltb c 0x10000)) [
  | inl one ↦
      let units : utf16_char c ≡ c ∷ [] = rw one refl in
      let not_high : is_high c ≡ false = ground arith in
      let not_low : is_low c ≡ false = ground arith in
      ap (λ t. utf16_from none (t ++ us)) units ∙ rw (not_high, not_low) refl
  | inr two ↦
      let high = 0xd800 + (c - 0x10000) / 1024 in
      let low = 0xdc00 + (c - 0x10000) % 1024 in
      let units : utf16_char c ≡ high ∷ low ∷ [] = rw two refl in
      let first : is_high high ≡ true = ground arith in
      let second : is_low low ≡ true = ground arith in
      let same : joined high low ≡ c = ground arith in
      ap (λ t. utf16_from none (t ++ us)) units
      ∙ rw (first, second) (ap (λ c. with_front (utf8_char c) (utf16_from none us)) same)
]

utf16_from-units_of :
    (cs : List ℕ) → All IsChar cs → utf16_from none (units_of cs) ≡ some (text_of cs)
unfolding units_of utf16_from
utf16_from-units_of [] h = refl
utf16_from-units_of (c ∷ cs) (hc, h) =
    utf16_from-char c (units_of cs) hc ∙ ap (with_front (utf8_char c)) (utf16_from-units_of cs h)

nonzero-until_zero :
    (c : ℕ) (us : List ℕ)
    → (c == 0) ≡ false
    → until_zero (utf16_char c ++ us) ≡ utf16_char c ++ until_zero us
nonzero-until_zero c us h = elim (Bool-cases (ltb c 0x10000)) [
  | inl one ↦ rw (one, h) refl
  | inr two ↦
      let first : (0xd800 + (c - 0x10000) / 1024 == 0) ≡ false = ground arith in
      let second : (0xdc00 + (c - 0x10000) % 1024 == 0) ≡ false = ground arith in
      rw (two, first, second) refl
]

-- What stands before the first zero.
until_zero-units_of :
    (cs : List ℕ)
    → All IsChar cs
    → until_zero (units_of cs ++ (0 ∷ [])) ≡ units_of (chars_until_zero cs)
unfolding units_of
until_zero-units_of [] h = refl
until_zero-units_of (c ∷ cs) (hc, h) = elim (Bool-cases (c == 0)) [
  | inl zero_ ↦ let small : ltb c 0x10000 ≡ true = ground arith in rw (small, zero_) refl
  | inr more ↦ rw more (
      ap until_zero (append_assoc (utf16_char c) (units_of cs) (0 ∷ []))
      ∙ nonzero-until_zero c (units_of cs ++ (0 ∷ [])) more
      ∙ ap (λ us. utf16_char c ++ us) (until_zero-units_of cs h))
]

All-chars_until_zero : (cs : List ℕ) → All IsChar cs → All IsChar (chars_until_zero cs)
All-chars_until_zero [] h = tt
All-chars_until_zero (c ∷ cs) (hc, h) = elim (Bool-cases (c == 0)) [
  | inl zero_ ↦ rw zero_ tt
  | inr more ↦ rw more (hc, All-chars_until_zero cs h)
]

-- A text of characters that is given to Windows as `to_utf16_null`, and read up to the first zero, is
-- the text up to its first character zero: all of it only if it has none.
pub to_utf16_null-until_zero :
    (cs : List ℕ)
    → All IsChar cs
    → from_utf16 (until_zero (to_utf16_null (text_of cs))) ≡ some (text_of (chars_until_zero cs))
unfolding to_utf16_null from_utf16
to_utf16_null-until_zero cs h =
    ap (λ us. utf16_from none (until_zero (us ++ (0 ∷ [])))) (units_from-text_of cs h)
    ∙ ap (utf16_from none) (until_zero-units_of cs h)
    ∙ utf16_from-units_of (chars_until_zero cs) (All-chars_until_zero cs h)
