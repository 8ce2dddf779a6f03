-- ===== src/Key/Import.antt =====
-- src/key/mod.rs: `KeyPair::from_wire` on the message that an SSH client sends to add an RSA key.
use ssh_keys.Base.{◌^◌, ◌<◌, ◌≡◌, refl, Bytes, length, [], ◌++◌, some, none, true, arith}
use ssh_keys.Outcome.{IoKind, ok, panic}
use ssh_keys.Packages.{ByteOrder, ByteOrderLaws, Openssl}
use ssh_keys.Text.{is_utf8}
use ssh_keys.Wire.{read_mpint, write_string}
use ssh_keys.Wire.RoundTrip.{read_string-write_string, read_string_utf8-write_string}
use ssh_keys.Key.{PrivateKey, ssh_rsa, new_key_pair}
use ssh_keys.Key.Parse.{read_rsa, private_from_wire, key_pair_from_wire}

-- The bytes of a number in a message.
pub record Field (ssl : Openssl) : Type 0 where
  pub content : Bytes
  pub value : ssl.BigNum
  pub is_value : ssl.from_slice content ≡ some value
  pub small : length content < 2 ^ 32

-- The message of the protocol: the type, the components, and the comment.
pub record AddRsa (ssl : Openssl) : Type 0 where
  pub n : Field ssl
  pub e : Field ssl
  pub d : Field ssl
  pub iqmp : Field ssl
  pub p : Field ssl
  pub q : Field ssl
  pub comment : Bytes
  pub comment_text : is_utf8 comment ≡ true
  pub comment_small : length comment < 2 ^ 32

abbrev string : ByteOrder → Bytes → Bytes → Bytes
string bo s rest = write_string bo [] s ++ rest

module _ (bo : ByteOrder) {ssl : Openssl} where
  abbrev components : AddRsa ssl → Bytes → Bytes
  components m rest = string bo m.n.content (
      string bo m.e.content (
        string bo m.d.content
          (string bo m.iqmp.content (string bo m.p.content (string bo m.q.content rest)))))

  abbrev pub message : AddRsa ssl → Bytes → Bytes
  message m rest = string bo ssh_rsa (components m (string bo m.comment rest))

module _ {bo : ByteOrder} (bytes : ByteOrderLaws bo) {ssl : Openssl} where
  read_mpint-Field :
      (f : Field ssl) (rest : Bytes) (x : IoKind)
      → read_mpint bo ssl (record { bytes = write_string bo [] f.content ++ rest; ending = x })
        ≡ ok (f.value, record { bytes = rest; ending = x })
  unfolding read_mpint
  read_mpint-Field f rest x =
      rw (read_string-write_string bytes f.content rest x f.small, f.is_value)

  read_rsa-components :
      (m : AddRsa ssl) (rest : Bytes) (x : IoKind) (one dp dq : ssl.BigNum) (key : ssl.Rsa)
      → ssl.from_u32 1 ≡ some one
      → ssl.rem m.d.value (ssl.sub m.p.value one) ≡ some dp
      → ssl.rem m.d.value (ssl.sub m.q.value one) ≡ some dq
      → ssl.from_private_components m.n.value m.e.value m.d.value m.p.value m.q.value dp dq
          m.iqmp.value
        ≡ some key
      → read_rsa bo ssl (record { bytes = components bo m rest; ending = x })
        ≡ ok (PrivateKey.rsa key, record { bytes = rest; ending = x })
  unfolding read_rsa
  read_rsa-components m rest x one dp dq key h1 hp hq hk = rw (
    read_mpint-Field m.n _ x,
    read_mpint-Field m.e _ x,
    read_mpint-Field m.d _ x,
    read_mpint-Field m.iqmp _ x,
    read_mpint-Field m.p _ x,
    read_mpint-Field m.q _ x,
    h1,
    hp,
    hq,
    hk,
  )

  -- From the message that adds an RSA key, where the two remainders exist and the package accepts
  -- the components, the key pair that is read has the private key of the components, each in its
  -- place, and the comment as its name, and what follows the message is left unread.
  pub key_pair_from_wire-message :
      (m : AddRsa ssl) (rest : Bytes) (x : IoKind) (one dp dq : ssl.BigNum) (key : ssl.Rsa)
      → ssl.from_u32 1 ≡ some one
      → ssl.rem m.d.value (ssl.sub m.p.value one) ≡ some dp
      → ssl.rem m.d.value (ssl.sub m.q.value one) ≡ some dq
      → ssl.from_private_components m.n.value m.e.value m.d.value m.p.value m.q.value dp dq
          m.iqmp.value
        ≡ some key
      → key_pair_from_wire bo ssl (record { bytes = message bo m rest; ending = x })
        ≡ ok (new_key_pair (PrivateKey.rsa key) m.comment, record { bytes = rest; ending = x })
  unfolding key_pair_from_wire private_from_wire
  key_pair_from_wire-message m rest x one dp dq key h1 hp hq hk =
      let after = write_string bo [] m.comment ++ rest in
      rw (
        read_string_utf8-write_string bytes ssh_rsa (components bo m after) x (omega arith)
            (unfold is_utf8 in refl),
        read_rsa-components m after x one dp dq key h1 hp hq hk,
        read_string_utf8-write_string bytes m.comment rest x m.comment_small m.comment_text,
      )

  -- A message whose `p` is one more than a number that nothing can be divided by, as `p` = 1: the
  -- `%` of the package panics, and with it the whole read.
  pub key_pair_from_wire_panics :
      (m : AddRsa ssl) (rest : Bytes) (x : IoKind) (one : ssl.BigNum)
      → ssl.from_u32 1 ≡ some one
      → ssl.rem m.d.value (ssl.sub m.p.value one) ≡ none
      → key_pair_from_wire bo ssl (record { bytes = message bo m rest; ending = x }) ≡ panic
  unfolding key_pair_from_wire private_from_wire read_rsa
  key_pair_from_wire_panics m rest x one h1 hp =
      let after = write_string bo [] m.comment ++ rest in
      rw (
        read_string_utf8-write_string bytes ssh_rsa (components bo m after) x (omega arith)
            (unfold is_utf8 in refl),
        read_mpint-Field m.n _ x,
        read_mpint-Field m.e _ x,
        read_mpint-Field m.d _ x,
        read_mpint-Field m.iqmp _ x,
        read_mpint-Field m.p _ x,
        read_mpint-Field m.q _ x,
        h1,
        hp,
      )
