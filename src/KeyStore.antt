-- ===== src/KeyStore.antt =====
-- src/key/ser.rs: key pairs as the entries of the configuration's map, from a name to a key's type
-- and its PEM text. The `Serializer` and `MapAccess` of serde are the list of the map's entries.
pub mod RoundTrip
use ssh_keys.Base.{Bytes, Option, some, none, List, [], ◌∷◌}
use ssh_keys.Outcome.{Outcome, ok, err, panic, Error, error_new, text, unwrap, ◌>>=◌}
use ssh_keys.Packages.{Openssl}
use ssh_keys.Text.{from_utf8}
use ssh_keys.Key.{PrivateKey, KeyPair, new_key_pair}

pub data KeyType : Type 0 where
  rsa : KeyType

pub record KeyConfig : Type 0 where
  pub key_type : KeyType
  pub pem : Bytes

pub record Entry : Type 0 where
  pub name : Bytes
  pub config : KeyConfig

abbrev pub invalid_data : Error
invalid_data = error_new (text "invalid data")

-- `.or(Err(custom("invalid data")))`
abbrev pub or_invalid {ℓ} : {A : Type ℓ} → Option A → Outcome A
or_invalid (some a) = ok a
or_invalid none = err invalid_data

-- `String::from_utf8(bytes).unwrap()`
abbrev pub unwrap_ok {ℓ} : {A : Type ℓ} → Outcome A → Outcome A
unwrap_ok (ok a) = ok a
unwrap_ok (err e) = panic
unwrap_ok panic = panic

module _ (ssl : Openssl) where
  unfoldable pub deserialize_key : KeyConfig → Outcome (PrivateKey ssl)
  deserialize_key config = do
    key ← or_invalid (ssl.private_key_from_pem config.pem)
    ok (PrivateKey.rsa key)

  -- The loop of `visit_map`.
  unfoldable pub deserialize_key_pairs : List Entry → Outcome (List (KeyPair ssl))
  unfolding deserialize_key
  deserialize_key_pairs [] = ok []
  deserialize_key_pairs (e ∷ es) = do
    private_key ← deserialize_key e.config
    rest ← deserialize_key_pairs es
    ok (new_key_pair private_key e.name ∷ rest)

module _ {ssl : Openssl} where
  unfoldable pub serialize_key : PrivateKey ssl → Outcome KeyConfig
  serialize_key (PrivateKey.rsa key) = do
    bytes ← unwrap (ssl.private_key_to_pem key)
    pem ← unwrap_ok (from_utf8 bytes)
    ok (record { key_type = rsa; pem = pem })

  unfoldable pub serialize_key_pairs : List (KeyPair ssl) → Outcome (List Entry)
  unfolding serialize_key
  serialize_key_pairs [] = ok []
  serialize_key_pairs (k ∷ ks) = do
    config ← serialize_key k.private_key
    rest ← serialize_key_pairs ks
    ok (record { name = k.name; config = config } ∷ rest)
