-- ===== src/Packages/Model.antt =====
-- Concrete packages, for examples: numbers are natural numbers with their base-256 digits, a key is
-- three of its components, PEM is a unary text, and a signature is the digest's number, the key's
-- exponent, and the message.
use ssh_keys.Base.{
  ℕ, zero, suc, ◌+◌, ◌-◌, ◌*◌, ◌/◌, ◌%◌, ◌<◌, ◌≡◌, ◌≢◌, refl, sym, ap, ◌∙◌, Option, some, none, [],
  ◌∷◌, ◌++◌, Bytes, All, All-append, IsByte, ◌==◌, ==_iff, if◌then◌else◌, Bool-cases, inl, inr,
  arith,
}
use mathlib.Core.Path.{subst}
use mathlib.Core.Option.{some-injective}
use ssh_keys.Packages.{
  ByteOrder, ByteOrderLaws, Digest, sha1, sha256, sha512, Openssl, BigNumLaws, PemLaws,
}

unfoldable pub from_be : Bytes → ℕ
from_be (a ∷ b ∷ c ∷ d ∷ _) = a * 16777216 + b * 65536 + c * 256 + d
from_be _ = 0

abbrev pub byteorder : ByteOrder
byteorder = record {
  u32_to_be = λ n. n / 16777216 ∷ n / 65536 % 256 ∷ n / 256 % 256 ∷ n % 256 ∷ [];
  u32_from_be = from_be;
}

pub byteorder-laws : ByteOrderLaws byteorder
unfolding from_be
byteorder-laws = record { to_be-bytes = λ n h. refl; from_be-bytes = λ a b c d. refl }

-- The digits of `n`, most significant first, on fuel.
unfoldable pub digits_of : ℕ → ℕ → Bytes
digits_of zero n = []
digits_of (suc f) n =
    let rest = digits_of f (n / 256) in if n == 0 then [] else rest ++ (n % 256 ∷ [])

unfoldable pub value_from : ℕ → Bytes → ℕ
value_from acc [] = acc
value_from acc (b ∷ bs) = value_from (acc * 256 + b) bs

value_from-append :
    (acc : ℕ) (xs ys : Bytes) → value_from acc (xs ++ ys) ≡ value_from (value_from acc xs) ys
unfolding value_from
value_from-append acc [] ys = refl
value_from-append acc (x ∷ xs) ys = value_from-append (acc * 256 + x) xs ys

value-single : (acc b : ℕ) → value_from acc (b ∷ []) ≡ acc * 256 + b
unfolding value_from
value-single acc b = refl

value-digits_of : (f n : ℕ) → n < f → value_from 0 (digits_of f n) ≡ n
unfolding digits_of
value-digits_of zero n h = absurd (omega arith)
value-digits_of (suc f) n h = elim (Bool-cases (n == 0)) [
  | inl e ↦ rw e (unfold value_from in sym ((==_iff n 0).0 e))
  | inr e ↦
      let nonzero : n ≢ 0 = λ z. ground (arith, e, z) in
      let front = digits_of f (n / 256) in
      let high : value_from 0 front ≡ n / 256 = value-digits_of f (n / 256) (omega arith) in
      rw e (
        value_from-append 0 front (n % 256 ∷ [])
        ∙ value-single (value_from 0 front) (n % 256)
        ∙ omega arith)
]

digits_of-IsByte : (f n : ℕ) → All IsByte (digits_of f n)
unfolding digits_of
digits_of-IsByte zero n = tt
digits_of-IsByte (suc f) n = elim (Bool-cases (n == 0)) [
  | inl e ↦ rw e tt
  | inr e ↦ rw e (
      All-append IsByte (digits_of f (n / 256)) (n % 256 ∷ []) (digits_of-IsByte f (n / 256))
        (omega arith, tt))
]

-- How often a number stands in a text, and a text of one letter.
unfoldable pub count : ℕ → Bytes → ℕ
count c [] = 0
count c (b ∷ bs) = if b == c then suc (count c bs) else count c bs

unfoldable pub letters : ℕ → ℕ → Bytes
letters c zero = []
letters c (suc n) = c ∷ letters c n

count-append : (c : ℕ) (xs ys : Bytes) → count c (xs ++ ys) ≡ count c xs + count c ys
unfolding count
count-append c [] ys = omega arith
count-append c (x ∷ xs) ys = ground (arith, count-append c xs ys)

count-letters : (c n : ℕ) → count c (letters c n) ≡ n
unfolding count letters
count-letters c zero = refl
count-letters c (suc n) = ground (arith, count-letters c n)

count-letters_ne : (c d n : ℕ) → c ≢ d → count c (letters d n) ≡ 0
unfolding count letters
count-letters_ne c d zero h = refl
count-letters_ne c d (suc n) h = ground (arith, count-letters_ne c d n h)

letters_ascii : (c n : ℕ) → c < 128 → All (λ b. b < 128) (letters c n)
unfolding letters
letters_ascii c zero h = tt
letters_ascii c (suc n) h = (h, letters_ascii c n h)

pub record Rsa : Type 0 where
  pub n : ℕ
  pub e : ℕ
  pub d : ℕ

unfoldable pub pem_of : Rsa → Bytes
pem_of k = letters b'n' k.n ++ (letters b'e' k.e ++ letters b'd' k.d)

unfoldable pub key_of : Bytes → Rsa
key_of pem = record { n = count b'n' pem; e = count b'e' pem; d = count b'd' pem }

count-pem_of :
    (c : ℕ) (k : Rsa)
    → count c (pem_of k)
      ≡ count c (letters b'n' k.n) + (count c (letters b'e' k.e) + count c (letters b'd' k.d))
unfolding pem_of
count-pem_of c k =
    count-append c (letters b'n' k.n) _
    ∙ ap (λ t. count c (letters b'n' k.n) + t)
        (count-append c (letters b'e' k.e) (letters b'd' k.d))

key_of-pem_of : (k : Rsa) → key_of (pem_of k) ≡ k
unfolding key_of
key_of-pem_of k = λ i. record { n = ns i; e = es i; d = ds i }
  where
    ns : count b'n' (pem_of k) ≡ k.n
    ns = omega (
      arith,
      count-pem_of b'n' k,
      count-letters b'n' k.n,
      count-letters_ne b'n' b'e' k.e (omega arith),
      count-letters_ne b'n' b'd' k.d (omega arith),
    )

    es : count b'e' (pem_of k) ≡ k.e
    es = omega (
      arith,
      count-pem_of b'e' k,
      count-letters b'e' k.e,
      count-letters_ne b'e' b'n' k.n (omega arith),
      count-letters_ne b'e' b'd' k.d (omega arith),
    )

    ds : count b'd' (pem_of k) ≡ k.d
    ds = omega (
      arith,
      count-pem_of b'd' k,
      count-letters b'd' k.d,
      count-letters_ne b'd' b'n' k.n (omega arith),
      count-letters_ne b'd' b'e' k.e (omega arith),
    )

pem_of_ascii : (k : Rsa) → All (λ b. b < 128) (pem_of k)
unfolding pem_of
pem_of_ascii k =
    All-append (λ b. b < 128) (letters b'n' k.n) (letters b'e' k.e ++ letters b'd' k.d)
      (letters_ascii b'n' k.n (omega arith))
      (All-append (λ b. b < 128) (letters b'e' k.e) (letters b'd' k.d)
        (letters_ascii b'e' k.e (omega arith)) (letters_ascii b'd' k.d (omega arith)))

unfoldable pub digest_number : Digest → ℕ
digest_number sha1 = 1
digest_number sha256 = 2
digest_number sha512 = 5

unfoldable pub rem_of : ℕ → ℕ → Option ℕ
rem_of a b = if b == 0 then none else some (a % b)

abbrev pub openssl : Openssl
openssl = record {
  BigNum = ℕ;
  Rsa = Rsa;
  PKey = Rsa;
  Signer = Digest × Rsa;
  from_slice = λ bs. some (value_from 0 bs);
  to_vec = λ n. digits_of (suc n) n;
  from_u32 = λ n. some n;
  sub = λ a b. a - b;
  rem = rem_of;
  bn_eq = λ a b. a == b;
  from_private_components = λ n e d p q dp dq iqmp. some (record { n = n; e = e; d = d });
  rsa_e = λ k. k.e;
  rsa_n = λ k. k.n;
  private_key_from_pem = λ pem. some (key_of pem);
  private_key_to_pem = λ k. some (pem_of k);
  pkey_from_rsa = λ k. some k;
  signer_new = λ digest k. some (digest, k);
  sign_oneshot_to_vec = λ signer msg. some (digest_number signer.0 ∷ signer.1.e ∷ msg);
}

pub bignum-laws : BigNumLaws openssl
unfolding value_from
bignum-laws = record {
  bn_eq_iff = ==_iff;
  from_slice-to_vec = λ a. ap (λ t. some t) (value-digits_of (suc a) a (omega arith));
  from_slice-zero = λ bs. refl;
  to_vec-bytes = λ a. digits_of-IsByte (suc a) a;
}

pub pem-laws : PemLaws openssl
pem-laws = record {
  to_pem = λ k. (pem_of k, refl);
  pem_ascii =
      λ k pem h. subst (All (λ b. b < 128)) (some-injective (pem_of k) pem h) (pem_of_ascii k);
  from_pem-to_pem = λ k pem h.
      ap (λ t. some t) (ap key_of (sym (some-injective (pem_of k) pem h)) ∙ key_of-pem_of k);
}
