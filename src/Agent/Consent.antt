-- ===== src/Agent/Consent.antt =====
-- src/agent/mod.rs: signatures and the user's consent.
use ssh_keys.Base.{
  ℕ, ◌≡◌, ◌≢◌, refl, sym, ap, ◌∙◌, Bytes, some, List, [], ◌∷◌, ◌++◌, ◌%◌, ◌^◌, length, true,
  Bool-cases, Option-cases, inl, inr, arith, ◌==◌, ==_iff,
}
use ssh_keys.Outcome.{
  Outcome, ok, err, panic, text, text_number, wrap_err, wrap_err-eq-ok, >>=-eq-ok, ok-injective,
}
use ssh_keys.Packages.{ByteOrder, Openssl}
use ssh_keys.Reader.{Input, cursor}
use ssh_keys.Wire.{read_u8, write_string, write_u8}
use ssh_keys.Key.{PublicKey, KeyPair, sign, encode}
use ssh_keys.Key.Parse.{result_of, key_pair_from_wire}
use ssh_keys.Exec.{and_then-eq-ok, pure}
use ssh_keys.Config.{Toml}
use ssh_keys.Agent.{
  Agent, User, RequestInfo, get_key, ask_confirmation, add_key, add_parsed, sign_parsed, handle_add,
  handle_sign, handle_identities, handle_message, handle_request_internal, handle_request,
  failure_for,
}
use ssh_keys.Agent.Replies.{write_identities, identities, sign_reply}
use ssh_keys.Agent.SignRequest.{read_sign_request}
use ssh_keys.Agent.Codes

-- The reply `reply` to the request `buf` is a signature: the request is a sign request, its key is
-- one of the agent's, one more prompt was shown, for this key and this client, the user agreed to
-- it, and the signature is by this key and of this message.
pub record Consented (bo : ByteOrder) {ssl : Openssl} (user : User ssl) (buf : Bytes)
    (info : RequestInfo) (a b : Agent ssl) (reply : Bytes) : Type 0 where
  pub req : Input
  pub is_sign : read_u8 (cursor buf) ≡ ok (Codes.sign_request, req)
  pub key : PublicKey ssl
  pub msg : Bytes
  pub flags : ℕ
  pub fields : result_of (read_sign_request bo ssl req) ≡ ok (key, msg, flags)
  pub key_pair : KeyPair ssl
  pub idx : ℕ
  pub found : get_key key a ≡ some (key_pair, idx)
  pub shown : b.prompts ≡ record { key_pair = key_pair; info = info } ∷ a.prompts
  pub agreed : user b.prompts ≡ true
  pub sig : Bytes
  pub is_sig : sign bo key_pair.private_key msg flags ≡ ok sig
  pub is_reply : Codes.sign_response ∷ reply ≡ write_string bo (write_u8 [] Codes.sign_response) sig

module _ (bo : ByteOrder) {ssl : Openssl} where
  pub write_identities_head :
      (ks : List (KeyPair ssl)) (b : ℕ) (resp out : Bytes)
      → write_identities bo ks (b ∷ resp) ≡ ok out
      → (rest : Bytes) × (out ≡ b ∷ rest)
  unfolding write_identities write_string
  write_identities_head [] b resp out h = (resp, sym (ok-injective h))
  write_identities_head (k ∷ ks) b resp out h =
      let (blob, e, t) = >>=-eq-ok (encode bo k.public_key) _ h in
      write_identities_head ks b
        ((resp ++ bo.u32_to_be (length blob % 2 ^ 32) ++ blob)
          ++ bo.u32_to_be (length k.name % 2 ^ 32)
          ++ k.name)
        out t

failure_for-ne :
    (r : Outcome Bytes) {b : ℕ} {rest : Bytes}
    → b ≢ Codes.failure
    → failure_for r ≡ ok (b ∷ rest)
    → r ≡ ok (b ∷ rest)
failure_for-ne (ok resp) ne h = h
failure_for-ne (err e) ne h = absurd (ne (ground arith))
failure_for-ne panic ne h = cc

module _ (bo : ByteOrder) (toml : Toml) {ssl : Openssl} (user : User ssl) where
  -- A reply that is no failure message is what the handler of the message returned.
  pub handle_request-eq-ok :
      (buf : Bytes) (info : RequestInfo) (a : Agent ssl) (b : ℕ) (rest : Bytes)
      → b ≢ Codes.failure
      → (handle_request bo toml user buf info a).0 ≡ ok (b ∷ rest)
      → (msg_type : ℕ) × (req : Input) × (read_u8 (cursor buf) ≡ ok (msg_type, req))
        × ((handle_message bo toml user msg_type req info a).0 ≡ ok (b ∷ rest))
        × ((handle_message bo toml user msg_type req info a).1
            ≡ (handle_request bo toml user buf info a).1)
  unfolding handle_request handle_request_internal
  handle_request-eq-ok buf info a b rest ne h = go (read_u8 (cursor buf)) refl
    where
      go :
          (r : Outcome (ℕ × Input))
          → read_u8 (cursor buf) ≡ r
          → (msg_type : ℕ) × (req : Input) × (r ≡ ok (msg_type, req))
            × ((handle_message bo toml user msg_type req info a).0 ≡ ok (b ∷ rest))
            × ((handle_message bo toml user msg_type req info a).1
                ≡ (handle_request bo toml user buf info a).1)
      go (ok (msg_type, req)) e = (
        msg_type,
        req,
        refl,
        wrap_err-eq-ok (text_number "msg_type={}" msg_type) _ (failure_for-ne _ ne (rw e at h)),
        rw e,
      )
      go (err x) e = absurd (ne (ground (arith, e, h)))
      go panic e = cc (rw e at h)

  sign_parsed-Consented :
      (info : RequestInfo) (a : Agent ssl) (key : PublicKey ssl) (msg : Bytes) (flags : ℕ)
      (reply : Bytes)
      → (sign_parsed bo toml user info (key, msg, flags) a).0 ≡ ok (Codes.sign_response ∷ reply)
      → (key_pair : KeyPair ssl) × (idx : ℕ) × (sig : Bytes) × (get_key key a
          ≡ some (key_pair, idx))
        × ((sign_parsed bo toml user info (key, msg, flags) a).1.prompts
            ≡ record { key_pair = key_pair; info = info } ∷ a.prompts)
        × (user (record { key_pair = key_pair; info = info } ∷ a.prompts) ≡ true)
        × (sign bo key_pair.private_key msg flags ≡ ok sig)
        × (Codes.sign_response ∷ reply ≡ write_string bo (write_u8 [] Codes.sign_response) sig)
  unfolding sign_parsed ask_confirmation sign_reply
  sign_parsed-Consented info a key msg flags reply h = elim (Option-cases (get_key key a)) [
    | inl missing ↦ cc (rw missing at h)
    | inr ((k, idx), found) ↦
        elim (Bool-cases (user (record { key_pair = k; info = info } ∷ a.prompts))) [
          | inl agreed ↦
              let (sig, hs, e) =
                >>=-eq-ok (wrap_err (text "sign") (sign bo k.private_key msg flags)) _
                  (rw (found, agreed) at h) in
              (k, idx, sig, found, rw found, agreed, wrap_err-eq-ok _ _ hs, sym (ok-injective e))
          | inr refused ↦ absurd (ground (arith, rw (found, refused) at h))
        ]
  ]

  handle_add-ne-sign :
      (req : Input) (a : Agent ssl) (reply : Bytes)
      → (handle_add bo toml user req a).0 ≢ ok (Codes.sign_response ∷ reply)
  unfolding handle_add add_parsed
  handle_add-ne-sign req a reply h =
      let (k, e, h1, _) =
        and_then-eq-ok (wrap_err (text "read key_pair") (result_of (key_pair_from_wire bo ssl req)))
          a (add_parsed bo toml user) h in
      let (_, e2, h2, _) =
        and_then-eq-ok (wrap_err (text "add key") (add_key toml k a).0) (add_key toml k a).1
          (λ _. pure (Codes.success ∷ [])) h1 in
      ground arith

  handle_message-sign :
      (msg_type : ℕ) (req : Input) (info : RequestInfo) (a : Agent ssl) (reply : Bytes)
      → (handle_message bo toml user msg_type req info a).0 ≡ ok (Codes.sign_response ∷ reply)
      → (msg_type ≡ Codes.sign_request)
        × ((handle_sign bo toml user req info a).0 ≡ ok (Codes.sign_response ∷ reply))
        × ((handle_message bo toml user msg_type req info a).1
            ≡ (handle_sign bo toml user req info a).1)
  unfolding handle_message handle_identities identities
  handle_message-sign msg_type req info a reply h =
      elim (Bool-cases (msg_type == Codes.request_identities)) [
        | inl e ↦
            let (rest, p) =
              write_identities_head bo a.config.keys Codes.identities_answer _ _ (rw e at h) in
            absurd (ground arith)
        | inr n ↦ elim (Bool-cases (msg_type == Codes.add_identity)) [
          | inl e ↦ absurd (handle_add-ne-sign req a reply (rw (n, e) at h))
          | inr m ↦ elim (Bool-cases (msg_type == Codes.sign_request)) [
            | inl e ↦ ((==_iff _ _).0 e, rw (n, m, e) at h, rw (n, m, e))
            | inr l ↦ absurd (ground (arith, rw (n, m, l) at h))
          ]
        ]
      ]

  -- If the reply to a request is a signature, the request was a sign request, the user was shown a
  -- prompt for the first key pair with the requested key, and agreed, and the reply is the signature
  -- by that key pair over the requested message with the requested flags.
  pub handle_request-Consented :
      (buf : Bytes) (info : RequestInfo) (a : Agent ssl) (reply : Bytes)
      → (handle_request bo toml user buf info a).0 ≡ ok (Codes.sign_response ∷ reply)
      → Consented bo user buf info a (handle_request bo toml user buf info a).1 reply
  unfolding handle_sign
  handle_request-Consented buf info a reply h =
      let (t, req, et, h1, e1) =
        handle_request-eq-ok buf info a Codes.sign_response reply (λ e. absurd (omega arith)) h in
      let (is_sign, h2, e2) = handle_message-sign t req info a reply h1 in
      let ((key, msg, flags), ef, h3, e3) =
        and_then-eq-ok (result_of (read_sign_request bo ssl req)) a (sign_parsed bo toml user info)
          h2 in
      let (k, idx, sig, found, shown, agreed, hs, er) =
        sign_parsed-Consented info a key msg flags reply h3 in
      let prompts = ap (λ t. t.prompts) (sym e1 ∙ e2 ∙ e3) ∙ shown in
      record {
        req = req;
        is_sign = rw (← is_sign) et;
        key = key;
        msg = msg;
        flags = flags;
        fields = ef;
        key_pair = k;
        idx = idx;
        found = found;
        shown = prompts;
        agreed = rw prompts agreed;
        sig = sig;
        is_sig = hs;
        is_reply = er;
      }
