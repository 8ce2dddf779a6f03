-- ===== src/Agent/Replies.antt =====
-- src/agent/mod.rs: the parts of the replies that are computed from keys.
use ssh_keys.Base.{ℕ, ◌%◌, ◌^◌, Bytes, Option, some, none, List, [], ◌∷◌, Bool, true, false, length}
use ssh_keys.Outcome.{Outcome, ok, err, wrap_err, error_new, text, ◌>>=◌}
use ssh_keys.Packages.{ByteOrder, Openssl}
use ssh_keys.Wire.{write_u8, write_u32, write_string}
use ssh_keys.Key.{KeyPair, encode, sign}
use ssh_keys.Agent.Codes

-- `.ok_or(Error::new("key not found"))`
abbrev pub key_or_missing {ℓ} : {A : Type ℓ} → Option (A × ℕ) → Outcome A
key_or_missing (some (k, idx)) = ok k
key_or_missing none = err (error_new (text "key not found"))

module _ (bo : ByteOrder) {ssl : Openssl} where
  -- The loop over the keys: each key's blob and name.
  unfoldable pub write_identities : List (KeyPair ssl) → Bytes → Outcome Bytes
  write_identities [] resp = ok resp
  write_identities (k ∷ ks) resp = do
    blob ← encode bo k.public_key
    write_identities ks (write_string bo (write_string bo resp blob) k.name)

  -- The answer to `SSH_AGENTC_REQUEST_IDENTITIES`.
  unfoldable pub identities : List (KeyPair ssl) → Outcome Bytes
  unfolding write_identities
  identities keys =
      write_identities keys
        (write_u32 bo (write_u8 [] Codes.identities_answer) (length keys % 2 ^ 32))

  -- The answer to a sign request, after the user's.
  unfoldable pub sign_reply : Bool → KeyPair ssl → Bytes → ℕ → Outcome Bytes
  sign_reply true k msg flags = do
    sig ← wrap_err (text "sign") (sign bo k.private_key msg flags)
    ok (write_string bo (write_u8 [] Codes.sign_response) sig)
  sign_reply false k msg flags = ok (write_u8 [] Codes.failure)
