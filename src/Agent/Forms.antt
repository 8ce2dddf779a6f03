-- ===== src/Agent/Forms.antt =====
-- src/agent/mod.rs: the forms of the replies.
use ssh_keys.Base.{
  ℕ, ◌≡◌, refl, sym, ap, ◌∙◌, Bytes, List, [], ◌∷◌, ◌++◌, ◌%◌, ◌^◌, length, true, Bool-cases, inl,
  inr, arith, leb, ◌==◌, ==_iff, append_assoc, append-nil, Option-cases,
}
use ssh_keys.Outcome.{
  Outcome, ok, err, panic, text, text_number, Message, wrap_err, >>=-eq-ok, ok-injective,
}
use ssh_keys.Packages.{ByteOrder, Openssl}
use ssh_keys.Reader.{Input, cursor, read_exact}
use ssh_keys.Wire.{read_u8, write_string}
use ssh_keys.Key.{PublicKey, KeyPair, sign, encode}
use ssh_keys.Key.Parse.{result_of, key_pair_from_wire}
use ssh_keys.Exec.{and_then-eq-ok, pure}
use ssh_keys.Config.{Toml}
use ssh_keys.Agent.{
  Agent, User, RequestInfo, get_key, ask_confirmation, add_key, add_parsed, sign_parsed, handle_add,
  handle_sign, handle_identities, handle_message, handle_request_internal, handle_request,
  failure_for,
}
use ssh_keys.Agent.Replies.{write_identities, identities, sign_reply}
use ssh_keys.Agent.SignRequest.{read_sign_request}
use ssh_keys.Agent.Codes

-- What a reply to a request of a type can be.
pub data Form (bo : ByteOrder) (msg_type : ℕ) (reply : Bytes) : Type 0 where
  failed : reply ≡ Codes.failure ∷ [] → Form bo msg_type reply
  added : msg_type ≡ Codes.add_identity → reply ≡ Codes.success ∷ [] → Form bo msg_type reply
  listed :
      (count : ℕ) (body : Bytes)
      → msg_type ≡ Codes.request_identities
      → reply ≡ Codes.identities_answer ∷ (bo.u32_to_be count ++ body)
      → Form bo msg_type reply
  signed :
      (sig : Bytes)
      → msg_type ≡ Codes.sign_request
      → reply ≡ Codes.sign_response ∷ (bo.u32_to_be (length sig % 2 ^ 32) ++ sig)
      → Form bo msg_type reply

-- The reply's form, by the first byte of the request.
abbrev pub FormFor : ByteOrder → Bytes → Bytes → Type 0
FormFor bo [] reply = reply ≡ Codes.failure ∷ []
FormFor bo (msg_type ∷ rest) reply = Form bo msg_type reply

read_u8-cons : (b : ℕ) (rest : Bytes) → read_u8 (cursor (b ∷ rest)) ≡ ok (b, cursor rest)
unfolding read_u8 read_exact
read_u8-cons b rest = let enough : leb 1 (length (b ∷ rest)) ≡ true = ground arith in rw enough refl

module _ (bo : ByteOrder) where
  write_string-front :
      (buf content : Bytes) → write_string bo buf content ≡ buf ++ write_string bo [] content
  unfolding write_string
  write_string-front buf content = append_assoc buf (bo.u32_to_be (length content % 2 ^ 32)) content

module _ (bo : ByteOrder) {ssl : Openssl} where
  write_identities-append :
      (ks : List (KeyPair ssl)) (resp out : Bytes)
      → write_identities bo ks resp ≡ ok out
      → (body : Bytes) × (out ≡ resp ++ body)
  unfolding write_identities
  write_identities-append [] resp out h = ([], sym (ok-injective h) ∙ sym (append-nil resp))
  write_identities-append (k ∷ ks) resp out h =
      let (blob, e, t) = >>=-eq-ok (encode bo k.public_key) _ h in
      let blob_field = write_string bo [] blob in
      let name_field = write_string bo [] k.name in
      let (body, same) =
        write_identities-append ks (write_string bo (write_string bo resp blob) k.name) out t in
      (
        blob_field ++ (name_field ++ body),
        same
            ∙ ap (λ t. t ++ body) (write_string-front bo (write_string bo resp blob) k.name)
            ∙ ap (λ t. (t ++ name_field) ++ body) (write_string-front bo resp blob)
            ∙ append_assoc (resp ++ blob_field) name_field body
            ∙ append_assoc resp blob_field (name_field ++ body),
      )

module _ (bo : ByteOrder) (toml : Toml) {ssl : Openssl} (user : User ssl) where
  handle_identities-Form :
      (a : Agent ssl) (reply : Bytes)
      → (handle_identities bo toml user a).0 ≡ ok reply
      → Form bo Codes.request_identities reply
  unfolding handle_identities identities
  handle_identities-Form a reply h =
      let count = length a.config.keys % 2 ^ 32 in
      let (body, same) = write_identities-append bo a.config.keys _ reply h in
      listed count body refl same

  handle_add-Form :
      (req : Input) (a : Agent ssl) (reply : Bytes)
      → (handle_add bo toml user req a).0 ≡ ok reply
      → Form bo Codes.add_identity reply
  unfolding handle_add add_parsed
  handle_add-Form req a reply h =
      let (k, e, h1, _) =
        and_then-eq-ok (wrap_err (text "read key_pair") (result_of (key_pair_from_wire bo ssl req)))
          a (add_parsed bo toml user) h in
      let (_, e2, h2, _) =
        and_then-eq-ok (wrap_err (text "add key") (add_key toml k a).0) (add_key toml k a).1
          (λ _. pure (Codes.success ∷ [])) h1 in
      added refl (sym (ok-injective h2))

  sign_parsed-Form :
      (info : RequestInfo) (a : Agent ssl) (key : PublicKey ssl) (msg : Bytes) (flags : ℕ)
      (reply : Bytes)
      → (sign_parsed bo toml user info (key, msg, flags) a).0 ≡ ok reply
      → Form bo Codes.sign_request reply
  unfolding sign_parsed ask_confirmation sign_reply write_string
  sign_parsed-Form info a key msg flags reply h = elim (Option-cases (get_key key a)) [
    | inl missing ↦ cc (rw missing at h)
    | inr ((k, idx), found) ↦
        elim (Bool-cases (user (record { key_pair = k; info = info } ∷ a.prompts))) [
          | inl agreed ↦
              let (sig, hs, e) =
                >>=-eq-ok (wrap_err (text "sign") (sign bo k.private_key msg flags)) _
                  (rw (found, agreed) at h) in
              signed sig refl (sym (ok-injective e))
          | inr refused ↦ failed (sym (ok-injective (rw (found, refused) at h)))
        ]
  ]

  handle_message-Form :
      (msg_type : ℕ) (req : Input) (info : RequestInfo) (a : Agent ssl) (reply : Bytes)
      → (handle_message bo toml user msg_type req info a).0 ≡ ok reply
      → Form bo msg_type reply
  unfolding handle_message handle_sign
  handle_message-Form msg_type req info a reply h =
      elim (Bool-cases (msg_type == Codes.request_identities)) [
        | inl e ↦ rw ((==_iff _ _).0 e) (handle_identities-Form a reply (rw e at h))
        | inr n ↦ elim (Bool-cases (msg_type == Codes.add_identity)) [
          | inl e ↦ rw ((==_iff _ _).0 e) (handle_add-Form req a reply (rw (n, e) at h))
          | inr m ↦ elim (Bool-cases (msg_type == Codes.sign_request)) [
            | inl e ↦
                let ((key, msg, flags), ef, h3, e3) =
                  and_then-eq-ok (result_of (read_sign_request bo ssl req)) a
                    (sign_parsed bo toml user info) (rw (n, m, e) at h) in
                rw ((==_iff _ _).0 e) (sign_parsed-Form info a key msg flags reply h3)
            | inr l ↦ failed (sym (ok-injective (rw (n, m, l) at h)))
          ]
        ]
      ]

  failure_for-Form :
      (msg_type : ℕ) (m : Message) (r : Outcome Bytes) (reply : Bytes)
      → ((made : Bytes) → r ≡ ok made → Form bo msg_type made)
      → failure_for (wrap_err m r) ≡ ok reply
      → Form bo msg_type reply
  failure_for-Form msg_type m (ok made) reply f h = rw (sym (ok-injective h)) (f made refl)
  failure_for-Form msg_type m (err e) reply f h = failed (sym (ok-injective h))
  failure_for-Form msg_type m panic reply f h = cc

  -- Every reply has one of four forms. It is a failure; or, to a request to add a key, the success; or,
  -- to a request for the identities, the answer's number, a count in four bytes, and more; or, to a sign
  -- request, the response's number and one string. To an empty request it is the failure.
  pub handle_request-Form :
      (buf : Bytes) (info : RequestInfo) (a : Agent ssl) (reply : Bytes)
      → (handle_request bo toml user buf info a).0 ≡ ok reply
      → FormFor bo buf reply
  unfolding handle_request handle_request_internal
  handle_request-Form [] info a reply h = unfold read_u8 read_exact in sym (ok-injective h)
  handle_request-Form (b ∷ rest) info a reply h =
      failure_for-Form b (text_number "msg_type={}" b)
        (handle_message bo toml user b (cursor rest) info a).0 reply
        (handle_message-Form b (cursor rest) info a) (rw (read_u8-cons b rest) at h)
