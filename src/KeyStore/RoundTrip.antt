-- ===== src/KeyStore/RoundTrip.antt =====
-- src/key/ser.rs: serialization and deserialization against each other.
use ssh_keys.Base.{◌≡◌, refl, ap, Bytes, List, [], ◌∷◌, map, All}
use ssh_keys.Outcome.{ok}
use ssh_keys.Packages.{Openssl, PemLaws}
use ssh_keys.Text.{is_utf8-ascii, from_utf8}
use ssh_keys.Key.{PrivateKey, KeyPair, public}
use ssh_keys.KeyStore.{
  Entry, KeyConfig, KeyType, serialize_key, deserialize_key, serialize_key_pairs,
  deserialize_key_pairs,
}

abbrev pub name_of : {ssl : Openssl} → KeyPair ssl → Bytes
name_of k = k.name

abbrev pub entry_name : Entry → Bytes
entry_name e = e.name

module _ {ssl : Openssl} (laws : PemLaws ssl) where
  serialize_key_lem :
      (key : PrivateKey ssl)
      → (c : KeyConfig) × (serialize_key key ≡ ok c) × (deserialize_key ssl c ≡ ok key)
  unfolding serialize_key deserialize_key from_utf8
  serialize_key_lem (PrivateKey.rsa key) =
      let (pem, e) = laws.to_pem key in
      (
        record { key_type = KeyType.rsa; pem = pem },
        rw (e, is_utf8-ascii pem (laws.pem_ascii key pem e)),
        rw (laws.from_pem-to_pem key pem e),
      )

  -- Serialization of consistent key pairs succeeds, keeps their names in their order, and
  -- deserialization gives the key pairs back.
  pub serialize_key_pairs_lem :
      (ks : List (KeyPair ssl))
      → All (λ k. k.public_key ≡ public k.private_key) ks
      → (es : List Entry) × (serialize_key_pairs ks ≡ ok es)
        × (map entry_name es ≡ map name_of ks)
        × (deserialize_key_pairs ssl es ≡ ok ks)
  unfolding serialize_key_pairs deserialize_key_pairs
  serialize_key_pairs_lem [] h = ([], refl, refl, refl)
  serialize_key_pairs_lem (k ∷ ks) (hk, h) =
      let (c, es, ed) = serialize_key_lem k.private_key in
      let (rest, er, en, eb) = serialize_key_pairs_lem ks h in
      (
        record { name = k.name; config = c } ∷ rest,
        rw (es, er),
        ap (λ t. k.name ∷ t) en,
        rw (ed, eb, ← hk),
      )
