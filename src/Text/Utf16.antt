-- ===== src/Text/Utf16.antt =====
-- src/platform/win/utils.rs: `to_utf16_null`, with `str::encode_utf16`.
pub mod Reading
use ssh_keys.Base.{
  All, ℕ, zero, suc, ◌+◌, ◌-◌, ◌*◌, ◌/◌, ◌%◌, ◌<◌, ◌≤◌, ◌++◌, ◌≡◌, ◌≢◌, refl, sym, ap, ◌∙◌, ◌⊎◌,
  inl, inr, Bool, true, false, Bool-cases, List, [], ◌∷◌, Option, none, some, Bytes, ltb, leb, ◌==◌,
  if◌then◌else◌, arith, append_assoc,
}
use ssh_keys.Text.{utf8_char, utf16_from, from_utf16, with_front, joined, is_low, is_high}

-- How many bytes follow a first byte, the bits that it gives, and the unit that it is alone.
abbrev following : ℕ → ℕ
following b = if ltb b 0x80 then 0 else if ltb b 0xe0 then 1 else if ltb b 0xf0 then 2 else 3

abbrev first_bits : ℕ → ℕ
first_bits b = if ltb b 0xe0 then b % 32 else if ltb b 0xf0 then b % 16 else b % 8

abbrev alone : ℕ → List ℕ
alone b = if ltb b 0x80 then b ∷ [] else []

-- A character's code in UTF-16.
abbrev utf16_char : ℕ → List ℕ
utf16_char c =
    if ltb c 0x10000
    then c ∷ []
    else (0xd800 + (c - 0x10000) / 1024) ∷ (0xdc00 + (c - 0x10000) % 1024) ∷ []

-- The units of text in UTF-8, where the character at hand wants so many bytes more, and has these
-- bits.
units_from : ℕ → ℕ → Bytes → List ℕ
units_from n bits [] = []
units_from zero bits (b ∷ bs) = alone b ++ units_from (following b) (first_bits b) bs
units_from (suc zero) bits (b ∷ bs) = utf16_char (bits * 64 + b % 64) ++ units_from 0 0 bs
units_from (suc (suc n)) bits (b ∷ bs) = units_from (suc n) (bits * 64 + b % 64) bs

-- <&str as StrExt>::to_utf16_null
unfoldable pub to_utf16_null : Bytes → List ℕ
unfolding units_from
to_utf16_null text = units_from 0 0 text ++ (0 ∷ [])

-- `take_while(|c| *c != 0)`
abbrev pub until_zero : List ℕ → List ℕ
until_zero [] = []
until_zero (u ∷ us) = if u == 0 then [] else u ∷ until_zero us

-- A character.
abbrev pub IsChar : ℕ → Type 0
IsChar c = (c < 0xd800) ⊎ ((0xe000 ≤ c) × (c < 0x110000))

abbrev pub text_of : List ℕ → Bytes
text_of [] = []
text_of (c ∷ cs) = utf8_char c ++ text_of cs

abbrev pub chars_until_zero : List ℕ → List ℕ
chars_until_zero [] = []
chars_until_zero (c ∷ cs) = if c == 0 then [] else c ∷ chars_until_zero cs
