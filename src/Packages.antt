-- ===== src/Packages.antt =====
-- What the program takes from third-party packages (`Cargo.toml`), as interfaces: the types and
-- calls are records that the models are given, and what the packages document is a record of laws
-- that a theorem names when it needs one.
pub mod Model
use ssh_keys.Base.{
  ℕ, ◌+◌, ◌-◌, ◌*◌, ◌/◌, ◌%◌, ◌^◌, ◌<◌, ◌≡◌, ◌↔◌, Bool, true, Option, some, none, List, [], ◌∷◌,
  Bytes, All, IsByte, length,
}
use mathlib.Core.List.{Nodup, map}

-- byteorder: the four bytes of a `u32`, most significant first.
pub record ByteOrder : Type 0 where
  pub u32_to_be : ℕ → Bytes
  pub u32_from_be : Bytes → ℕ

pub record ByteOrderLaws (bo : ByteOrder) : Type 0 where
  pub to_be-bytes :
      (n : ℕ)
      → n < 2 ^ 32
      → bo.u32_to_be n ≡ n / 16777216 ∷ n / 65536 % 256 ∷ n / 256 % 256 ∷ n % 256 ∷ []
  pub from_be-bytes :
      (a b c d : ℕ) → bo.u32_from_be (a ∷ b ∷ c ∷ d ∷ []) ≡ a * 16777216 + b * 65536 + c * 256 + d

-- The hash functions that a signature can use.
pub data Digest : Type 0 where
  sha1 sha256 sha512 : Digest

-- openssl. A call that can fail returns an `Option`; `rem` fails where the `%` of the package
-- panics.
pub record Openssl : Type 1 where
  pub BigNum : Type 0
  pub Rsa : Type 0
  pub PKey : Type 0
  pub Signer : Type 0
  pub from_slice : Bytes → Option BigNum
  pub to_vec : BigNum → Bytes
  pub from_u32 : ℕ → Option BigNum
  pub sub : BigNum → BigNum → BigNum
  pub rem : BigNum → BigNum → Option BigNum
  pub bn_eq : BigNum → BigNum → Bool
  pub from_private_components :
      BigNum → BigNum → BigNum → BigNum → BigNum → BigNum → BigNum → BigNum → Option Rsa
  pub rsa_e : Rsa → BigNum
  pub rsa_n : Rsa → BigNum
  pub private_key_from_pem : Bytes → Option Rsa
  pub private_key_to_pem : Rsa → Option Bytes
  pub pkey_from_rsa : Rsa → Option PKey
  pub signer_new : Digest → PKey → Option Signer
  pub sign_oneshot_to_vec : Signer → Bytes → Option Bytes

-- The numbers: `to_vec` is big-endian and `from_slice` reads it back.
pub record BigNumLaws (ssl : Openssl) : Type 0 where
  pub bn_eq_iff : (a b : ssl.BigNum) → (ssl.bn_eq a b ≡ true) ↔ (a ≡ b)
  pub from_slice-to_vec : (a : ssl.BigNum) → ssl.from_slice (ssl.to_vec a) ≡ some a
  pub from_slice-zero : (bs : Bytes) → ssl.from_slice (0 ∷ bs) ≡ ssl.from_slice bs
  pub to_vec-bytes : (a : ssl.BigNum) → All IsByte (ssl.to_vec a)

-- Writing a private key as PEM succeeds, with ASCII text that reads back as the key.
pub record PemLaws (ssl : Openssl) : Type 0 where
  pub to_pem : (k : ssl.Rsa) → (pem : Bytes) × (ssl.private_key_to_pem k ≡ some pem)
  pub pem_ascii :
      (k : ssl.Rsa) (pem : Bytes) → ssl.private_key_to_pem k ≡ some pem → All (λ b. b < 128) pem
  pub from_pem-to_pem :
      (k : ssl.Rsa) (pem : Bytes)
      → ssl.private_key_to_pem k ≡ some pem
      → ssl.private_key_from_pem pem ≡ some k
