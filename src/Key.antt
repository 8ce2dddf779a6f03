-- ===== src/Key.antt =====
-- src/key/mod.rs: key pairs, their wire format and signatures.
pub mod Parse
pub mod Public
pub mod Sign
pub mod Import
use ssh_keys.Base.{
  ℕ, String, ◌≡◌, refl, Bytes, length, List, [], ◌∷◌, Bool, true, false, ◌&&◌, ltb, bit_and,
  bytes_eq, if◌then◌else◌,
}
use ssh_keys.Outcome.{
  Outcome, ok, err, panic, Message, text, text_bytes, Error, error_new, unwrap, or_library,
  wrap_err, ◌>>=◌,
}
use ssh_keys.Packages.{ByteOrder, Openssl, Digest, sha1, sha256, sha512}
use ssh_keys.Text.{ascii}
use ssh_keys.Wire.{write_string, write_mpint}

module _ (ssl : Openssl) where
  pub data PrivateKey : Type 0 where
    rsa : ssl.Rsa → PrivateKey

  pub data PublicKey : Type 0 where
    rsa : (e : ssl.BigNum) (n : ssl.BigNum) → PublicKey

  pub record KeyPair : Type 0 where
    pub private_key : PrivateKey
    pub public_key : PublicKey
    pub name : Bytes

abbrev pub ssh_rsa : Bytes
ssh_rsa = ascii "ssh-rsa"

abbrev pub unknown_key_type : Bytes → Error
unknown_key_type key_type = error_new (text_bytes "unknown key type: {}" key_type)

-- `flags & mask > 0`
abbrev pub has_flag : ℕ → ℕ → Bool
has_flag flags mask = ltb 0 (bit_and flags mask)

-- The hash function and the signature type that the flags of a request ask for.
unfoldable pub digest_for : ℕ → Digest × Bytes
digest_for flags =
    if has_flag flags 0x4
    then (sha512, ascii "rsa-sha2-512")
    else if has_flag flags 0x2
    then (sha256, ascii "rsa-sha2-256")
    else (sha1, ssh_rsa)

module _ {ssl : Openssl} where
  -- PrivateKey::public
  abbrev pub public : PrivateKey ssl → PublicKey ssl
  public (PrivateKey.rsa key) = PublicKey.rsa (ssl.rsa_e key) (ssl.rsa_n key)

  -- PublicKey::key_type
  abbrev pub key_type : PublicKey ssl → Bytes
  key_type (PublicKey.rsa e n) = ssh_rsa

  -- PublicKey::eq
  unfoldable pub public_eq : PublicKey ssl → PublicKey ssl → Bool
  public_eq (PublicKey.rsa e n) (PublicKey.rsa e1 n1) = ssl.bn_eq n n1 && ssl.bn_eq e e1

  -- KeyPair::new
  abbrev pub new_key_pair : PrivateKey ssl → Bytes → KeyPair ssl
  new_key_pair key name = record { private_key = key; public_key = public key; name = name }

-- The two writes behind the signer's call, into an empty vector.
abbrev pub signature : ByteOrder → Bytes → Bytes → Bytes
signature bo sig_type sig = write_string bo (write_string bo [] sig_type) sig

module _ (bo : ByteOrder) {ssl : Openssl} where
  -- PrivateKey::sign
  unfoldable pub sign : PrivateKey ssl → Bytes → ℕ → Outcome Bytes
  unfolding digest_for
  sign (PrivateKey.rsa key) msg flags = do
    pkey ← wrap_err (text "create pkey") (or_library (ssl.pkey_from_rsa key))
    let (digest, sig_type) = digest_for flags
    signer ← wrap_err (text "create signer") (or_library (ssl.signer_new digest pkey))
    sig ← or_library (ssl.sign_oneshot_to_vec signer msg)
    ok (signature bo sig_type sig)

  -- PublicKey::encode
  unfoldable pub encode : PublicKey ssl → Outcome Bytes
  encode (PublicKey.rsa e n) = do
    buf ← write_mpint bo ssl (write_string bo [] ssh_rsa) e
    write_mpint bo ssl buf n
