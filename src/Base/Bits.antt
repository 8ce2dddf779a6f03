-- ===== src/Base/Bits.antt =====
-- Masks with one bit as arithmetic, for a number of any size.
use Prim.Native.Nat.{ℕ, zero, suc, ◌*◌, ◌/◌, ◌%◌, ◌≤◌, min, bit_and, digits, bit_and-bitwise}
use mathlib.Core.Path.{◌≡◌, refl}
use native.Mathlib.Nat.{mul_assoc}
use native.Mathlib.Omega.{arith}

-- The mask whose only bit is at a position, and the bit of a number at a position.
abbrev mask : ℕ → ℕ
mask zero = 1
mask (suc k) = mask k * 2

abbrev bit_at : ℕ → ℕ → ℕ
bit_at zero a = a % 2
bit_at (suc k) a = bit_at k (a / 2)

-- What `bit_and` stands for, as a run of so many steps.
abbrev steps : ℕ → ℕ → ℕ → ℕ
steps = digits (λ _. zero) min

steps-zero : (fuel a : ℕ) → steps fuel a 0 ≡ 0
steps-zero zero a = refl
steps-zero (suc fuel) zero = refl
steps-zero (suc fuel) (suc a) = omega (arith, steps-zero fuel (suc a / 2))

bit_at-zero : (k : ℕ) → bit_at k 0 ≡ 0
bit_at-zero zero = refl
bit_at-zero (suc k) = bit_at-zero k

shift_mask : (x y m : ℕ) → x ≡ y * m → x * 2 ≡ y * (m * 2)
shift_mask x y m h = omega (arith, mul_assoc y m 2)

halved : (m : ℕ) → m * 2 / 2 ≡ m
halved m = omega arith

half_double : (m : ℕ) (f : ℕ → ℕ) → f (m * 2 / 2) ≡ f m
half_double m f = rw (halved m)

masked : (k fuel a : ℕ) → a ≤ fuel → steps fuel a (mask k) ≡ bit_at k a * mask k
masked k zero zero h = rw (bit_at-zero k) (omega arith)
masked k zero (suc a) h = absurd (omega arith)
masked k (suc fuel) zero h = rw (bit_at-zero k) (omega arith)
masked zero (suc fuel) (suc a) h = omega (arith, steps-zero fuel (suc a / 2))
masked (suc k) (suc fuel) (suc a) h = omega (
  arith,
  shift_mask _ _ _ (masked k fuel (suc a / 2) (omega arith)),
  half_double (mask k) (λ m. steps fuel (suc a / 2) m),
)

pub bit_and-mask : (k a : ℕ) → bit_and a (mask k) ≡ bit_at k a * mask k
bit_and-mask k a = omega (arith, bit_and-bitwise a (mask k), masked k a a (omega arith))

pub bit_and-two : (a : ℕ) → bit_and a 2 ≡ a / 2 % 2 * 2
bit_and-two a = bit_and-mask 1 a

pub bit_and-four : (a : ℕ) → bit_and a 4 ≡ a / 4 % 2 * 4
bit_and-four a = omega (arith, bit_and-mask 2 a)

-- The top bit of a byte.
pub bit_and-top : (a : ℕ) → bit_and a 128 ≡ a / 128 % 2 * 128
bit_and-top a = omega (arith, bit_and-mask 7 a)
