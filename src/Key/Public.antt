-- ===== src/Key/Public.antt =====
-- src/key/mod.rs: public keys, their wire format and equality.
use ssh_keys.Base.{
  ℕ, length-append, ◌≤◌, ◌+◌, ◌^◌, ◌<◌, ◌≡◌, ◌≢◌, ◌↔◌, refl, sym, ap, List-cases, ◌⊎◌, inl, inr,
  ◌∙◌, Bytes, length, [], ◌++◌, append_assoc, append-nil, true, arith,
}
use ssh_keys.Outcome.{ok, panic, unexpected_eof}
use ssh_keys.Packages.{ByteOrder, ByteOrderLaws, Openssl, BigNumLaws}
use ssh_keys.Reader.{cursor}
use ssh_keys.Text.{is_utf8}
use ssh_keys.Wire.{write_string}
use ssh_keys.Wire.RoundTrip.{
  MpintField, write_mpint-MpintField, write_mpint_zero, read_mpint-MpintField,
  read_string_utf8-write_string, length-write_string,
}
use ssh_keys.Key.{PublicKey, public_eq, ssh_rsa, encode}
use ssh_keys.Key.Parse.{read_public_key, decode}

-- A number that `write_mpint` can write: not zero, and of less than 2^32 bytes.
abbrev pub IsWritable : (ssl : Openssl) → ssl.BigNum → Type 0
IsWritable ssl bn = (ssl.to_vec bn ≢ []) × (length (ssl.to_vec bn) + 1 < 2 ^ 32)

abbrev pub IsEncodable : {ssl : Openssl} → PublicKey ssl → Type 0
IsEncodable {ssl} (PublicKey.rsa e n) = IsWritable ssl e × IsWritable ssl n

-- The blob of a key is at most so long: three lengths, the type, and two numbers with sign bytes.
abbrev pub size_bound : {ssl : Openssl} → PublicKey ssl → ℕ
size_bound {ssl} (PublicKey.rsa e n) = length (ssl.to_vec e) + length (ssl.to_vec n) + 21

pub public_eq_iff :
    {ssl : Openssl} (laws : BigNumLaws ssl) (a b : PublicKey ssl) → (public_eq a b ≡ true) ↔ (a ≡ b)
unfolding public_eq
public_eq_iff laws (PublicKey.rsa e n) (PublicKey.rsa e1 n1) =
    ground (arith, laws.bn_eq_iff e e1, laws.bn_eq_iff n n1)

module _ {bo : ByteOrder} (bytes : ByteOrderLaws bo) {ssl : Openssl} (laws : BigNumLaws ssl) where
  read_public_key-fields :
      (e n : ssl.BigNum) {b c : Bytes} (fe : MpintField bo ssl b e) (fn : MpintField bo ssl c n)
      (rest : Bytes)
      → length (ssl.to_vec e) + 1 < 2 ^ 32
      → length (ssl.to_vec n) + 1 < 2 ^ 32
      → read_public_key bo ssl (
          cursor (
            write_string bo [] ssh_rsa
            ++ (write_string bo [] fe.content ++ (write_string bo [] fn.content ++ rest))))
        ≡ ok (PublicKey.rsa e n, cursor rest)
  unfolding read_public_key
  read_public_key-fields e n fe fn rest he hn =
      let ce = write_string bo [] fe.content in
      let cn = write_string bo [] fn.content in
      let tag =
        read_string_utf8-write_string bytes ssh_rsa (ce ++ (cn ++ rest)) unexpected_eof
          (omega arith) (unfold is_utf8 in refl) in
      rw (
        tag,
        read_mpint-MpintField bytes fe (cn ++ rest) unexpected_eof he,
        read_mpint-MpintField bytes fn rest unexpected_eof hn,
      )

  -- A public key of nonzero numbers, each shorter than a string can be, is encoded in a blob of
  -- bounded size, and the blob decodes to the key.
  pub decode-encode :
      (key : PublicKey ssl)
      → IsEncodable key
      → (blob : Bytes) × (encode bo key ≡ ok blob)
        × (decode bo ssl blob ≡ ok key)
        × (length blob ≤ size_bound key)
  unfolding encode decode
  decode-encode (PublicKey.rsa e n) ((e_pos, e_len), (n_pos, n_len)) =
      let head = write_string bo [] ssh_rsa in
      let fe = write_mpint-MpintField bo laws head e e_pos in
      let ce = write_string bo [] fe.content in
      let fn = write_mpint-MpintField bo laws (head ++ ce) n n_pos in
      let cn = write_string bo [] fn.content in
      let regroup : (head ++ ce) ++ cn ≡ head ++ (ce ++ (cn ++ [])) =
        append_assoc head ce cn ∙ ap (λ t. head ++ (ce ++ t)) (sym (append-nil cn)) in
      (
        (head ++ ce) ++ cn,
        rw fe.wrote fn.wrote,
        rw (regroup, read_public_key-fields e n fe fn [] e_len n_len),
        omega (
          arith,
          length-append (head ++ ce) cn,
          length-append head ce,
          length-write_string bytes ssh_rsa (omega arith),
          length-write_string bytes fe.content (omega (arith, fe.length_content)),
          length-write_string bytes fn.content (omega (arith, fn.length_content)),
          fe.length_content,
          fn.length_content,
        ),
      )

-- A public key of which a number has no bytes, as zero has none, is not encoded: `encode` panics.
pub encode_zero :
    (bo : ByteOrder) {ssl : Openssl} (laws : BigNumLaws ssl) (e n : ssl.BigNum)
    → (ssl.to_vec e ≡ []) ⊎ (ssl.to_vec n ≡ [])
    → encode bo {ssl = ssl} (PublicKey.rsa e n) ≡ panic
unfolding encode
encode_zero bo {ssl} laws e n (inl h) =
    rw (write_mpint_zero bo ssl (write_string bo [] ssh_rsa) e h)
encode_zero bo {ssl} laws e n (inr h) =
    let head = write_string bo [] ssh_rsa in
    elim (List-cases (ssl.to_vec e)) [
      | inl zero ↦ rw (write_mpint_zero bo ssl head e zero)
      | inr positive ↦
          let fe = write_mpint-MpintField bo laws head e positive in
          rw (fe.wrote, write_mpint_zero bo ssl (head ++ write_string bo [] fe.content) n h)
    ]
