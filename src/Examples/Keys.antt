-- ===== src/Examples/Keys.antt =====
-- Strings, keys and signatures.
use ssh_keys.Base.{Bytes, refl, ◌-◌, ◌≡◌, ◌≤◌, [], ◌∷◌, ◌++◌, some, length, arith}
use ssh_keys.Outcome.{ok, unexpected_eof}
use ssh_keys.Reader.{Input}
use ssh_keys.Text.{ascii}
use ssh_keys.Wire.{read_string}
use ssh_keys.Packages.Model.{byteorder-laws, bignum-laws}
use ssh_keys.Key.{PrivateKey, sign, encode, new_key_pair}
use ssh_keys.Key.Parse.{decode, key_pair_from_wire}
use ssh_keys.Key.Public.{IsEncodable, size_bound, decode-encode}
use ssh_keys.Key.Sign.{Signed, sign-Signed}
use ssh_keys.Key.Import.{message, key_pair_from_wire-message}
use ssh_keys.Examples.Values.{bo, ssl, rsa_key, public_key}
use ssh_keys.Examples.Fields.{add_message}
use ssh_keys.Examples.Run.{run}

abbrev at_end : Bytes → Input
at_end bs = record { bytes = bs; ending = unexpected_eof }

reads_two :
    read_string bo (at_end (0 ∷ 0 ∷ 0 ∷ 2 ∷ 1 ∷ 2 ∷ 9 ∷ [])) ≡ ok (1 ∷ 2 ∷ [], at_end (9 ∷ []))
unfolding run
reads_two = refl

encodable : IsEncodable {ssl = ssl} public_key
unfolding run
encodable = ((λ e. cc, omega arith), (λ e. cc, omega arith))

decode-encode_example :
    (blob : Bytes) × (encode bo {ssl = ssl} public_key ≡ ok blob)
    × (decode bo ssl blob ≡ ok public_key)
    × (length blob ≤ size_bound {ssl = ssl} public_key)
decode-encode_example = decode-encode byteorder-laws {ssl = ssl} bignum-laws public_key encodable

signed_bytes : Bytes
signed_bytes = 0 ∷ 0 ∷ 0 ∷ 12 ∷ ascii "rsa-sha2-512" ++ (0 ∷ 0 ∷ 0 ∷ 3 ∷ 5 ∷ 3 ∷ 7 ∷ [])

signs : sign bo {ssl = ssl} (PrivateKey.rsa rsa_key) (7 ∷ []) 6 ≡ ok signed_bytes
unfolding run signed_bytes
signs = refl

sign-Signed_example : Signed bo ssl rsa_key (7 ∷ []) 6 signed_bytes
sign-Signed_example = sign-Signed bo {ssl = ssl} rsa_key (7 ∷ []) 6 signed_bytes signs

remainder_three : ssl.rem 11 (5 - 1) ≡ some 3
unfolding run
remainder_three = refl

remainder_one : ssl.rem 11 (3 - 1) ≡ some 1
unfolding run
remainder_one = refl

key_pair_from_wire-message_example :
    key_pair_from_wire bo ssl (at_end (message bo (add_message 5) []))
    ≡ ok (new_key_pair (PrivateKey.rsa rsa_key) (ascii "me"), at_end [])
key_pair_from_wire-message_example =
    key_pair_from_wire-message byteorder-laws {ssl = ssl} (add_message 5) [] unexpected_eof 1 3 1
      rsa_key refl remainder_three remainder_one refl
