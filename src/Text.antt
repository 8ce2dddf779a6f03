-- ===== src/Text.antt =====
-- `String`, as its bytes: the test that `String::from_utf8` makes, and text literals.
pub mod Utf16
use Prim.Native.Char.{code}
use ssh_keys.Base.{
  All, zero, suc, ◌+◌, ◌-◌, ◌*◌, ◌/◌, ◌%◌, ◌++◌, ◌||◌, ◌<◌, lt→ltb, ℕ, String, Bool, true, false,
  ◌&&◌, List, [], ◌∷◌, Option, none, some, Bytes, ltb, leb, ◌==◌, if◌then◌else◌, ◌≡◌, refl, arith,
}
use ssh_keys.Outcome.{Outcome, ok, err, utf8}

-- The bytes of an ASCII literal.
abbrev pub ascii : String → Bytes
ascii String.[] = []
ascii (String.◌∷◌ c s) = code c ∷ ascii s

abbrev Range : Type 0
Range = ℕ × ℕ

abbrev tail : Range
tail = (0x80, 0xbf)

-- The ranges of the bytes that follow a first byte, or none if no character begins with it.
after_first : ℕ → Option (List Range)
after_first b =
    if ltb b 0x80
    then some []
    else if ltb b 0xc2
    then none
    else if ltb b 0xe0
    then some (tail ∷ [])
    else if b == 0xe0
    then some ((0xa0, 0xbf) ∷ tail ∷ [])
    else if b == 0xed
    then some ((0x80, 0x9f) ∷ tail ∷ [])
    else if ltb b 0xf0
    then some (tail ∷ tail ∷ [])
    else if b == 0xf0
    then some ((0x90, 0xbf) ∷ tail ∷ tail ∷ [])
    else if ltb b 0xf4
    then some (tail ∷ tail ∷ tail ∷ [])
    else if b == 0xf4
    then some ((0x80, 0x8f) ∷ tail ∷ tail ∷ [])
    else none

-- The list is what the character at hand still needs.
utf8_from : List Range → Bytes → Bool
utf8_from [] [] = true
utf8_from (r ∷ rs) [] = false
utf8_from [] (b ∷ bs) = elim (after_first b) [ none ↦ false | some rs ↦ utf8_from rs bs ]
utf8_from ((lo, hi) ∷ rs) (b ∷ bs) = if leb lo b && leb b hi then utf8_from rs bs else false

unfoldable pub is_utf8 : Bytes → Bool
unfolding after_first utf8_from
is_utf8 = utf8_from []

-- `String::from_utf8`
unfoldable pub from_utf8 : Bytes → Outcome Bytes
from_utf8 bs = if is_utf8 bs then ok bs else err utf8

pub from_utf8-eq-ok : (bs s : Bytes) → from_utf8 bs ≡ ok s → s ≡ bs
unfolding from_utf8
from_utf8-eq-ok bs s h = ground arith

accepts_euro_sign : is_utf8 (0xe2 ∷ 0x82 ∷ 0xac ∷ []) ≡ true
unfolding is_utf8
accepts_euro_sign = refl

rejects_surrogate : is_utf8 (0xed ∷ 0xa0 ∷ 0x80 ∷ []) ≡ false
unfolding is_utf8
rejects_surrogate = refl

after_first-ascii : (b : ℕ) → b < 128 → after_first b ≡ some []
unfolding after_first
after_first-ascii b h = rw (lt→ltb b 128 h)

utf8_from-ascii : (bs : Bytes) → All (λ b. b < 128) bs → utf8_from [] bs ≡ true
unfolding utf8_from
utf8_from-ascii [] h = refl
utf8_from-ascii (b ∷ bs) (hb, h) = ground (arith, after_first-ascii b hb, utf8_from-ascii bs h)

-- ASCII text is UTF-8.
pub is_utf8-ascii : (bs : Bytes) → All (λ b. b < 128) bs → is_utf8 bs ≡ true
unfolding is_utf8
is_utf8-ascii bs h = utf8_from-ascii bs h

-- `str::starts_with` and `str::contains`
abbrev pub starts_with : Bytes → Bytes → Bool
starts_with bs [] = true
starts_with [] (p ∷ ps) = false
starts_with (b ∷ bs) (p ∷ ps) = if b == p then starts_with bs ps else false

abbrev pub contains : Bytes → Bytes → Bool
contains [] part = starts_with [] part
contains (b ∷ bs) part = starts_with (b ∷ bs) part || contains bs part

-- A character's code in UTF-8.
abbrev utf8_char : ℕ → Bytes
utf8_char c =
    if ltb c 0x80
    then c ∷ []
    else if ltb c 0x800
    then (0xc0 + c / 64) ∷ (0x80 + c % 64) ∷ []
    else if ltb c 0x10000
    then (0xe0 + c / 4096) ∷ (0x80 + c / 64 % 64) ∷ (0x80 + c % 64) ∷ []
    else (0xf0 + c / 262144) ∷ (0x80 + c / 4096 % 64) ∷ (0x80 + c / 64 % 64) ∷ (0x80 + c % 64) ∷ []

abbrev with_front : Bytes → Option Bytes → Option Bytes
with_front front none = none
with_front front (some bs) = some (front ++ bs)

abbrev joined : ℕ → ℕ → ℕ
joined high low = 0x10000 + (high - 0xd800) * 1024 + (low - 0xdc00)

abbrev is_low : ℕ → Bool
is_low u = leb 0xdc00 u && ltb u 0xe000

abbrev is_high : ℕ → Bool
is_high u = leb 0xd800 u && ltb u 0xdc00

-- `String::from_utf16`, with the first half of a pair that waits for the second.
utf16_from : Option ℕ → List ℕ → Option Bytes
utf16_from none [] = some []
utf16_from (some high) [] = none
utf16_from none (u ∷ us) =
    let rest = utf16_from none us in
    let paired = utf16_from (some u) us in
    if is_high u then paired else if is_low u then none else with_front (utf8_char u) rest
utf16_from (some high) (u ∷ us) =
    let rest = utf16_from none us in
    if is_low u then with_front (utf8_char (joined high u)) rest else none

unfoldable pub from_utf16 : List ℕ → Option Bytes
unfolding utf16_from
from_utf16 = utf16_from none

pairs_surrogates :
    from_utf16 (0xd83d ∷ 0xde00 ∷ 97 ∷ []) ≡ some (0xf0 ∷ 0x9f ∷ 0x98 ∷ 0x80 ∷ 97 ∷ [])
unfolding from_utf16
pairs_surrogates = refl

-- A number in decimal, on fuel above its count of digits.
abbrev decimal_from : ℕ → ℕ → Bytes
decimal_from zero n = []
decimal_from (suc fuel) n =
    let front = decimal_from fuel (n / 10) in
    if ltb n 10 then (48 + n) ∷ [] else front ++ ((48 + n % 10) ∷ [])

-- A `u32` has ten digits at most.
abbrev pub decimal : ℕ → Bytes
decimal = decimal_from 10

abbrev hex_digit : ℕ → ℕ
hex_digit d = if ltb d 10 then 48 + d else 87 + d

-- A `u16` as `{:0>4x}`.
abbrev pub hex4 : ℕ → Bytes
hex4 n =
    hex_digit (n / 4096 % 16)
    ∷ hex_digit (n / 256 % 16)
    ∷ hex_digit (n / 16 % 16)
    ∷ hex_digit (n % 16)
    ∷ []

starts_with-append : (part bs : Bytes) → starts_with (part ++ bs) part ≡ true
starts_with-append [] [] = refl
starts_with-append [] (b ∷ bs) = refl
starts_with-append (p ∷ part) bs = ground (arith, starts_with-append part bs)

pub contains-append : (front part bs : Bytes) → contains (front ++ (part ++ bs)) part ≡ true
contains-append [] [] [] = refl
contains-append [] [] (b ∷ bs) = refl
contains-append [] (p ∷ part) bs = rw (starts_with-append (p ∷ part) bs)
contains-append (b ∷ front) part bs = ground (arith, contains-append front part bs)
