-- ===== src/Agent/Identities.antt =====
-- src/agent/mod.rs: the answer to `SSH_AGENTC_REQUEST_IDENTITIES`, and a client that reads it by the
-- agent protocol.
use ssh_keys.Base.{
  ℕ, zero, suc, ◌%◌, ◌^◌, ◌<◌, ◌≡◌, refl, sym, ap, ◌∙◌, Bytes, List, [], ◌∷◌, ◌++◌, map, length,
  append_assoc, append-nil, All, arith, ◌==◌, if◌then◌else◌,
}
use ssh_keys.Outcome.{Outcome, ok, err, unexpected_eof, library}
use ssh_keys.Packages.{ByteOrder, ByteOrderLaws, Openssl, BigNumLaws}
use ssh_keys.Reader.{Reader, cursor, ◌>>=◌, pure, lift}
use ssh_keys.Wire.{read_u8, read_u32, read_string, write_string}
use ssh_keys.Wire.RoundTrip.{
  read_u8-cons, read_string-write_string, read_u32-to_be, write_string-append,
}
use ssh_keys.Key.{PublicKey, KeyPair}
use ssh_keys.Key.Parse.{decode, result_of}
use ssh_keys.Key.Public.{IsEncodable, size_bound, decode-encode}
use ssh_keys.Agent.Codes
use ssh_keys.Agent.Replies.{write_identities, identities}

module _ (bo : ByteOrder) (ssl : Openssl) where
  -- A client's reader: each key and its comment.
  unfoldable pub client_keys : ℕ → Reader (List (PublicKey ssl × Bytes))
  client_keys zero = pure []
  client_keys (suc n) = do
    blob ← read_string bo
    key ← lift (decode bo ssl blob)
    name ← read_string bo
    rest ← client_keys n
    pure ((key, name) ∷ rest)

  client_reader : Reader (List (PublicKey ssl × Bytes))
  client_reader = do
    msg_type ← read_u8
    n ← read_u32 bo
    if msg_type == Codes.identities_answer then client_keys n else lift (err library)

  unfoldable pub client_identities : Bytes → Outcome (List (PublicKey ssl × Bytes))
  unfolding client_reader
  client_identities reply = result_of (client_reader (cursor reply))

-- A key pair whose public key and name fit the protocol's lengths.
abbrev pub IsListable : {ssl : Openssl} → KeyPair ssl → Type 0
IsListable k =
    IsEncodable k.public_key × (size_bound k.public_key < 2 ^ 32) × (length k.name < 2 ^ 32)

abbrev pub listing : {ssl : Openssl} → KeyPair ssl → PublicKey ssl × Bytes
listing k = (k.public_key, k.name)

module _ {bo : ByteOrder} (bytes : ByteOrderLaws bo) {ssl : Openssl} (laws : BigNumLaws ssl) where
  -- What the loop appends, and what a client reads from it.
  record Body (ks : List (KeyPair ssl)) : Type 0 where
    body : Bytes
    wrote : (resp : Bytes) → write_identities bo ks resp ≡ ok (resp ++ body)
    reads :
        (rest : Bytes)
        → client_keys bo ssl (length ks) (cursor (body ++ rest)) ≡ ok (map listing ks, cursor rest)

  appended :
      (resp blob name body : Bytes)
      → write_string bo (write_string bo resp blob) name ++ body
        ≡ resp ++ (write_string bo [] blob ++ (write_string bo [] name ++ body))
  appended resp blob name body =
      ap (λ t. write_string bo t name ++ body) (write_string-append bo resp blob)
      ∙ ap (λ t. t ++ body) (write_string-append bo (resp ++ write_string bo [] blob) name)
      ∙ append_assoc (resp ++ write_string bo [] blob) (write_string bo [] name) body
      ∙ append_assoc resp (write_string bo [] blob) (write_string bo [] name ++ body)

  write_identities-Body : (ks : List (KeyPair ssl)) → All IsListable ks → Body ks
  unfolding write_identities client_keys
  write_identities-Body [] h = record {
    body = [];
    wrote = λ resp. ap (λ t. ok t) (sym (append-nil resp));
    reads = λ rest. refl;
  }
  write_identities-Body (k ∷ ks) ((encodable, small, name_len), h) =
      let (blob, e, d, l) = decode-encode bytes laws k.public_key encodable in
      let b = write_identities-Body ks h in
      let wb = write_string bo [] blob in
      let wn = write_string bo [] k.name in
      record {
        body = wb ++ (wn ++ b.body);
        wrote = λ resp. rw (e, b.wrote) (ap (λ t. ok t) (appended resp blob k.name b.body));
        reads = λ rest. rw (
          append_assoc wb (wn ++ b.body) rest,
          append_assoc wn b.body rest,
          read_string-write_string bytes blob (wn ++ (b.body ++ rest)) unexpected_eof (omega arith),
          d,
          read_string-write_string bytes k.name (b.body ++ rest) unexpected_eof name_len,
          b.reads rest,
        );
      }

  -- For fewer than 2^32 keys that can all be listed, the answer to a request for the identities
  -- exists, and a client that reads it by the protocol finds the keys and their names in order.
  pub client_identities-identities :
      (ks : List (KeyPair ssl))
      → All IsListable ks
      → length ks < 2 ^ 32
      → (reply : Bytes) × (identities bo ks ≡ ok reply)
        × (client_identities bo ssl reply ≡ ok (map listing ks))
  unfolding identities client_identities
  client_identities-identities ks h small =
      let b = write_identities-Body ks h in
      let n = bo.u32_to_be (length ks) in
      let whole : length ks % 2 ^ 32 ≡ length ks = omega arith in
      let regroup : b.body ≡ b.body ++ [] = sym (append-nil b.body) in
      (
        Codes.identities_answer ∷ (n ++ b.body),
        rw (whole, b.wrote),
        ap (λ t. client_identities bo ssl (Codes.identities_answer ∷ (n ++ t))) regroup
            ∙ rw (
              read_u8-cons Codes.identities_answer (n ++ (b.body ++ [])) unexpected_eof,
              read_u32-to_be bytes (length ks) (b.body ++ []) unexpected_eof small,
              b.reads [],
            ),
      )
