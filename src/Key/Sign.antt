-- ===== src/Key/Sign.antt =====
-- src/key/mod.rs: what `PrivateKey::sign` returns.
use ssh_keys.Base.{ℕ, ◌/◌, ◌%◌, ◌≡◌, sym, ◌∙◌, Bytes, [], ◌++◌, inl, inr, some, arith, Bool-cases}
use ssh_keys.Base.Bits.{bit_and-two, bit_and-four}
use ssh_keys.Outcome.{
  ok, >>=-eq-ok, wrap_err, wrap_err-eq-ok, or_library, or_library-eq-ok, ok-injective, text,
}
use ssh_keys.Wire.RoundTrip.{write_string-append}
use ssh_keys.Packages.{ByteOrder, Openssl, Digest, sha1, sha256, sha512}
use ssh_keys.Text.{ascii}
use ssh_keys.Wire.{write_string}
use ssh_keys.Key.{PrivateKey, has_flag, digest_for, sign}

-- RFC 8332 and the agent protocol: bit 2 of the flags asks for SHA-512, bit 1 for SHA-256, bit 2
-- goes first, and the old SHA-1 signature is made where neither is set.
pub data Requested (flags : ℕ) : Digest → Bytes → Type 0 where
  bit_two : flags / 4 % 2 ≡ 1 → Requested flags sha512 (ascii "rsa-sha2-512")
  bit_one : flags / 4 % 2 ≡ 0 → flags / 2 % 2 ≡ 1 → Requested flags sha256 (ascii "rsa-sha2-256")
  neither : flags / 4 % 2 ≡ 0 → flags / 2 % 2 ≡ 0 → Requested flags sha1 (ascii "ssh-rsa")

pub digest_for-Requested : (flags : ℕ) → Requested flags (digest_for flags).0 (digest_for flags).1
unfolding digest_for
digest_for-Requested flags = elim (Bool-cases (has_flag flags 0x4)) [
  | inl four ↦ rw four (bit_two (ground (arith, bit_and-four flags)))
  | inr clear ↦ elim (Bool-cases (has_flag flags 0x2)) [
    | inl two ↦
        rw (clear, two)
          (bit_one (ground (arith, bit_and-four flags)) (ground (arith, bit_and-two flags)))
    | inr none_set ↦
        rw (clear, none_set)
          (neither (ground (arith, bit_and-four flags)) (ground (arith, bit_and-two flags)))
  ]
]

-- A signature: the type's name and the signer's bytes, as two strings, for the requested hash
-- function, key and message.
pub record Signed (bo : ByteOrder) (ssl : Openssl) (key : ssl.Rsa) (msg : Bytes) (flags : ℕ)
    (out : Bytes) : Type 0 where
  pub digest : Digest
  pub sig_type : Bytes
  pub requested : Requested flags digest sig_type
  pub pkey : ssl.PKey
  pub is_pkey : ssl.pkey_from_rsa key ≡ some pkey
  pub signer : ssl.Signer
  pub is_signer : ssl.signer_new digest pkey ≡ some signer
  pub sig : Bytes
  pub is_sig : ssl.sign_oneshot_to_vec signer msg ≡ some sig
  pub is_out : out ≡ write_string bo [] sig_type ++ write_string bo [] sig

-- Every signature that `sign` returns is the type's name and the signer's bytes, as two strings,
-- made with the hash function that the flags request, over the message.
pub sign-Signed :
    (bo : ByteOrder) {ssl : Openssl} (key : ssl.Rsa) (msg : Bytes) (flags : ℕ) (out : Bytes)
    → sign bo {ssl = ssl} (PrivateKey.rsa key) msg flags ≡ ok out
    → Signed bo ssl key msg flags out
unfolding sign
sign-Signed bo {ssl} key msg flags out h =
    let (pkey, hp, h1) =
      >>=-eq-ok (wrap_err (text "create pkey") (or_library (ssl.pkey_from_rsa key))) _ h in
    let (signer, hs, h2) =
      >>=-eq-ok
        (wrap_err (text "create signer") (or_library (ssl.signer_new (digest_for flags).0 pkey))) _
        h1 in
    let (sig, hg, h3) = >>=-eq-ok (or_library (ssl.sign_oneshot_to_vec signer msg)) _ h2 in
    record {
      digest = (digest_for flags).0;
      sig_type = (digest_for flags).1;
      requested = digest_for-Requested flags;
      pkey = pkey;
      is_pkey = or_library-eq-ok _ (wrap_err-eq-ok _ _ hp);
      signer = signer;
      is_signer = or_library-eq-ok _ (wrap_err-eq-ok _ _ hs);
      sig = sig;
      is_sig = or_library-eq-ok _ hg;
      is_out =
          sym (ok-injective h3)
          ∙ write_string-append bo (write_string bo [] (digest_for flags).1) sig;
    }
