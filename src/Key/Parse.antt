-- ===== src/Key/Parse.antt =====
-- src/key/mod.rs: the functions that read keys: `PrivateKey::from_wire`, `PublicKey::decode` and
-- `KeyPair::from_wire`.
use ssh_keys.Base.{Bytes, bytes_eq, if◌then◌else◌}
use ssh_keys.Outcome.{Outcome, ok, err, panic, text, unwrap, or_library, wrap_err}
use ssh_keys.Packages.{ByteOrder, Openssl}
use ssh_keys.Reader.{Input, cursor, Reader, ◌>>=◌, pure, lift, wrapping}
use ssh_keys.Wire.{read_string_utf8, read_mpint}
use ssh_keys.Key.{PrivateKey, PublicKey, KeyPair, ssh_rsa, unknown_key_type, new_key_pair}

-- The result of a read whose reader is dropped.
abbrev pub result_of {ℓ} : {A : Type ℓ} → Outcome (A × Input) → Outcome A
result_of (ok (a, i)) = ok a
result_of (err e) = err e
result_of panic = panic

module _ (bo : ByteOrder) (ssl : Openssl) where
  -- The components in the order of the message; `dp` and `dq` are computed.
  unfoldable pub read_rsa : Reader (PrivateKey ssl)
  read_rsa = do
    n ← read_mpint bo ssl
    e ← read_mpint bo ssl
    d ← read_mpint bo ssl
    iqmp ← read_mpint bo ssl
    p ← read_mpint bo ssl
    q ← read_mpint bo ssl
    one ← lift (unwrap (ssl.from_u32 1))
    dp ← lift (unwrap (ssl.rem d (ssl.sub p one)))
    dq ← lift (unwrap (ssl.rem d (ssl.sub q one)))
    key ← lift (
        wrap_err (text "create key")
          (or_library (ssl.from_private_components n e d p q dp dq iqmp)))
    pure (PrivateKey.rsa key)

  -- PrivateKey::from_wire
  unfoldable pub private_from_wire : Reader (PrivateKey ssl)
  unfolding read_rsa
  private_from_wire = do
    key_type ← read_string_utf8 bo
    if bytes_eq key_type ssh_rsa then read_rsa else lift (err (unknown_key_type key_type))

  -- KeyPair::from_wire
  unfoldable pub key_pair_from_wire : Reader (KeyPair ssl)
  unfolding private_from_wire
  key_pair_from_wire = do
    key ← wrapping (text "read key") private_from_wire
    name ← read_string_utf8 bo
    pure (new_key_pair key name)

  unfoldable pub read_public_key : Reader (PublicKey ssl)
  read_public_key = do
    key_type ← read_string_utf8 bo
    if bytes_eq key_type ssh_rsa
        then (do e ← read_mpint bo ssl; n ← read_mpint bo ssl; pure (PublicKey.rsa e n))
        else lift (err (unknown_key_type key_type))

  -- PublicKey::decode
  unfoldable pub decode : Bytes → Outcome (PublicKey ssl)
  unfolding read_public_key
  decode buf = result_of (read_public_key (cursor buf))
