-- ===== src/Agent/Effects.antt =====
-- src/agent/mod.rs: what a request can do to the agent's state.
use ssh_keys.Base.{
  ℕ, ◌≡◌, refl, Bytes, Option, some, none, [], ◌∷◌, ◌++◌, arith, Bool-cases, Option-cases, inl, inr,
  ◌==◌,
}
use ssh_keys.Outcome.{Outcome, ok, err, panic, text, wrap_err, wrap_err-eq-ok}
use ssh_keys.Packages.{ByteOrder, Openssl}
use ssh_keys.Reader.{Input, cursor, run_next-eq-ok, wrapping}
use ssh_keys.Wire.{read_u8, read_string_utf8}
use ssh_keys.Key.{PublicKey, KeyPair, public}
use ssh_keys.Key.Parse.{key_pair_from_wire, private_from_wire, result_of}
use ssh_keys.Exec.{and_then-keeps, pure}
use ssh_keys.Disk.{Disk}
use ssh_keys.Config.{Toml}
use ssh_keys.Agent.{
  Agent, User, RequestInfo, get_key, add_key, add_if_new, push_key, ask_confirmation, add_parsed,
  sign_parsed, handle_add, handle_sign, handle_identities, handle_message, handle_request_internal,
  handle_request, handle_rest,
}
use ssh_keys.Agent.SignRequest.{read_sign_request}
use ssh_keys.Agent.Codes

-- The public half is the one that the private half determines.
abbrev pub IsConsistent : {ssl : Openssl} → KeyPair ssl → Type 0
IsConsistent k = k.public_key ≡ public k.private_key

-- The agent `b` after a request to `a`: the same; with one more key, which is consistent and whose
-- public half was not there, and the file as the save left it; or with one more prompt, for a key
-- that was looked up.
pub data Effect {ssl : Openssl} (a b : Agent ssl) : Type 0 where
  unchanged : b ≡ a → Effect a b
  added :
      (k : KeyPair ssl) (d : Disk)
      → IsConsistent k
      → get_key k.public_key a ≡ none
      → b ≡ record a { config = record { keys = a.config.keys ++ (k ∷ []) }; disk = d }
      → Effect a b
  asked :
      (public : PublicKey ssl) (k : KeyPair ssl) (idx : ℕ) (info : RequestInfo)
      → get_key public a ≡ some (k, idx)
      → b ≡ record a { prompts = record { key_pair = k; info = info } ∷ a.prompts }
      → Effect a b

pub result_of-eq-ok {ℓ} :
    {A : Type ℓ} (r : Outcome (A × Input)) {x : A}
    → result_of r ≡ ok x
    → (j : Input) × (r ≡ ok (x, j))
result_of-eq-ok (ok (x, j)) h = (j, ground arith)
result_of-eq-ok (err e) h = cc
result_of-eq-ok panic h = cc

key_pair_from_wire-IsConsistent :
    (bo : ByteOrder) (ssl : Openssl) (i : Input) (k : KeyPair ssl)
    → result_of (key_pair_from_wire bo ssl i) ≡ ok k
    → IsConsistent k
unfolding key_pair_from_wire
key_pair_from_wire-IsConsistent bo ssl i k h =
    let (j, e) = result_of-eq-ok _ h in
    let (key, i1, h1, e1) =
      run_next-eq-ok (wrapping (text "read key") (private_from_wire bo ssl) i) _ e in
    let (name, i2, h2, e2) = run_next-eq-ok (read_string_utf8 bo i1) _ e1 in ground arith

module _ (bo : ByteOrder) (toml : Toml) {ssl : Openssl} (user : User ssl) where
  add_if_new-Effect :
      (k : KeyPair ssl) (a : Agent ssl) (found : Option (KeyPair ssl × ℕ))
      → IsConsistent k
      → get_key k.public_key a ≡ found
      → Effect a (add_if_new toml k found a).1
  unfolding add_if_new push_key
  add_if_new-Effect k a none c e = added k _ c e refl
  add_if_new-Effect k a (some found) c e = unchanged refl

  add_parsed-Effect :
      (k : KeyPair ssl) (a : Agent ssl) → IsConsistent k → Effect a (add_parsed bo toml user k a).1
  unfolding add_parsed add_key
  add_parsed-Effect k a c =
      let (r, b) = add_if_new toml k (get_key k.public_key a) a in
      let e : Effect a b = add_if_new-Effect k a (get_key k.public_key a) c refl in
      and_then-keeps (Effect a) (wrap_err (text "add key") r) b (λ _. pure (Codes.success ∷ [])) e
        (λ _ _. e)

  handle_add-Effect : (req : Input) (a : Agent ssl) → Effect a (handle_add bo toml user req a).1
  unfolding handle_add
  handle_add-Effect req a =
      let r = wrap_err (text "read key_pair") (result_of (key_pair_from_wire bo ssl req)) in
      and_then-keeps (Effect a) r a (add_parsed bo toml user) (unchanged refl) λ k h.
        add_parsed-Effect k a (key_pair_from_wire-IsConsistent bo ssl req k (wrap_err-eq-ok _ _ h))

  sign_parsed-Effect :
      (info : RequestInfo) (key : PublicKey ssl) (msg : Bytes) (flags : ℕ) (a : Agent ssl)
      → Effect a (sign_parsed bo toml user info (key, msg, flags) a).1
  unfolding sign_parsed ask_confirmation
  sign_parsed-Effect info key msg flags a = elim (Option-cases (get_key key a)) [
    | inl missing ↦ rw missing (unchanged refl)
    | inr ((k, idx), found) ↦ rw found (asked key k idx info found refl)
  ]

  handle_sign-Effect :
      (req : Input) (info : RequestInfo) (a : Agent ssl)
      → Effect a (handle_sign bo toml user req info a).1
  unfolding handle_sign
  handle_sign-Effect req info a =
      and_then-keeps (Effect a) (result_of (read_sign_request bo ssl req)) a
        (sign_parsed bo toml user info) (unchanged refl)
        λ (key, msg, flags) h. sign_parsed-Effect info key msg flags a

  handle_message-Effect :
      (msg_type : ℕ) (req : Input) (info : RequestInfo) (a : Agent ssl)
      → Effect a (handle_message bo toml user msg_type req info a).1
  unfolding handle_message handle_identities
  handle_message-Effect msg_type req info a =
      elim (Bool-cases (msg_type == Codes.request_identities)) [
        | inl e ↦ rw e (unchanged refl)
        | inr n ↦ elim (Bool-cases (msg_type == Codes.add_identity)) [
          | inl e ↦ rw (n, e) (handle_add-Effect req a)
          | inr m ↦ elim (Bool-cases (msg_type == Codes.sign_request)) [
            | inl e ↦ rw (n, m, e) (handle_sign-Effect req info a)
            | inr l ↦ rw (n, m, l) (unchanged refl)
          ]
        ]
      ]

  handle_rest-Effect :
      (r : Outcome (ℕ × Input)) (info : RequestInfo) (a : Agent ssl)
      → Effect a (handle_rest bo toml user r info a).1
  handle_rest-Effect (ok (msg_type, req)) info a = handle_message-Effect msg_type req info a
  handle_rest-Effect (err e) info a = unchanged refl
  handle_rest-Effect panic info a = unchanged refl

  -- Whatever a request is, and whether it succeeds, fails or panics, it leaves the agent as it was,
  -- or adds one consistent key at the end whose public key was not there, or shows one more prompt,
  -- for a key that was looked up.
  pub handle_request-Effect :
      (buf : Bytes) (info : RequestInfo) (a : Agent ssl)
      → Effect a (handle_request bo toml user buf info a).1
  unfolding handle_request handle_request_internal
  handle_request-Effect buf info a =
      handle_rest-Effect (wrap_err (text "read msg_type") (read_u8 (cursor buf))) info a
