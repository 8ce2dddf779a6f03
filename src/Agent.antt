-- ===== src/Agent.antt =====
-- src/agent/mod.rs: the agent's state and the requests of the agent protocol.
pub mod Codes
pub mod SignRequest
pub mod Replies
pub mod Effects
pub mod Lookup
pub mod Invariant
pub mod Consent
pub mod Forms
pub mod Identities
pub mod Persistence
use SignRequest.{read_sign_request}
use Replies.{identities, key_or_missing, sign_reply}
use ssh_keys.Base.{
  ℕ, ◌+◌, ◌%◌, ◌^◌, Bytes, Option, some, none, List, [], ◌∷◌, ◌++◌, Bool, true, false, length, ◌==◌,
  if◌then◌else◌,
}
use ssh_keys.Outcome.{
  Outcome, ok, err, panic, wrap_err, Error, error_new, Message, text, text_number,
}
use ssh_keys.Packages.{ByteOrder, Openssl}
use ssh_keys.Reader.{Input, cursor}
use ssh_keys.Wire.{write_u8, write_u32, write_string, read_u8, read_u32, read_string}
use ssh_keys.Key.{PrivateKey, PublicKey, KeyPair, public_eq, encode, sign}
use ssh_keys.Key.Parse.{key_pair_from_wire, result_of}
use ssh_keys.Exec.{Exec, and_then, ◌>>=◌, ◌>>◌, pure, lift, gets, wrapping}
use ssh_keys.Disk.{Disk}
use ssh_keys.Config.{Toml, Config, save}

pub record RequesterInfo : Type 0 where
  pub description_short : Bytes
  pub description_long : Bytes

pub record RequestInfo : Type 0 where
  pub channel : Bytes
  pub requester : Option RequesterInfo

-- What `ask_confirmation` shows to the user.
pub record Prompt (ssl : Openssl) : Type 0 where
  pub key_pair : KeyPair ssl
  pub info : RequestInfo

-- The agent with the file that it saves to, and the prompts that were shown, the last one first.
pub record Agent (ssl : Openssl) : Type 0 where
  pub config : Config ssl
  pub disk : Disk
  pub prompts : List (Prompt ssl)

-- The user's answer to the first prompt of the list, after the others.
abbrev pub User : Openssl → Type 0
User ssl = List (Prompt ssl) → Bool

module _ {ssl : Openssl} where
  -- `iter().enumerate().find(..)`, from an index on.
  unfoldable pub find_from : ℕ → PublicKey ssl → List (KeyPair ssl) → Option (KeyPair ssl × ℕ)
  find_from idx public [] = none
  find_from idx public (k ∷ ks) =
      if public_eq k.public_key public then some (k, idx) else find_from (idx + 1) public ks

  -- Agent::get_key
  unfoldable pub get_key : PublicKey ssl → Agent ssl → Option (KeyPair ssl × ℕ)
  unfolding find_from
  get_key public a = find_from 0 public a.config.keys

  -- A call on the configuration's file.
  abbrev pub on_disk {ℓ} : {A : Type ℓ} → Exec Disk A → Exec (Agent ssl) A
  on_disk m a = ((m a.disk).0, record a { disk = (m a.disk).1 })

  unfoldable pub push_key : KeyPair ssl → Exec (Agent ssl) (Unit {0})
  push_key k a = (ok tt, record a { config = record { keys = a.config.keys ++ (k ∷ []) } })

  -- `ask_confirmation`: the prompt is shown, and the user answers.
  unfoldable pub ask_confirmation : User ssl → KeyPair ssl → RequestInfo → Exec (Agent ssl) Bool
  ask_confirmation user k info a =
      let shown = record { key_pair = k; info = info } ∷ a.prompts in
      (ok (user shown), record a { prompts = shown })

module _ (toml : Toml) {ssl : Openssl} where
  add_if_new : KeyPair ssl → Option (KeyPair ssl × ℕ) → Exec (Agent ssl) (Unit {0})
  add_if_new k none = do
    push_key k
    config ← gets (λ a. a.config)
    wrapping (text "save config") (on_disk (save toml config))
  add_if_new k (some found) = pure tt

  -- Agent::add_key
  unfoldable pub add_key : KeyPair ssl → Exec (Agent ssl) (Unit {0})
  unfolding add_if_new push_key
  add_key k a = add_if_new k (get_key k.public_key a) a

-- `handle_request` on the result of `handle_request_internal`: an error becomes a failure message.
abbrev pub failure_for : Outcome Bytes → Outcome Bytes
failure_for (ok resp) = ok resp
failure_for (err e) = ok (Codes.failure ∷ [])
failure_for panic = panic

module _ (bo : ByteOrder) (toml : Toml) {ssl : Openssl} (user : User ssl) where
  unfoldable pub handle_identities : Exec (Agent ssl) Bytes
  handle_identities = do config ← gets (λ a. a.config); lift (identities bo config.keys)

  -- What is left of the request when the key pair has been read.
  unfoldable pub add_parsed : KeyPair ssl → Exec (Agent ssl) Bytes
  add_parsed k = do wrapping (text "add key") (add_key toml k); pure (write_u8 [] Codes.success)

  unfoldable pub handle_add : Input → Exec (Agent ssl) Bytes
  unfolding add_parsed
  handle_add req = do
    k ← lift (wrap_err (text "read key_pair") (result_of (key_pair_from_wire bo ssl req)))
    add_parsed k

  -- What is left of the request when its fields have been read.
  unfoldable pub sign_parsed : RequestInfo → PublicKey ssl × Bytes × ℕ → Exec (Agent ssl) Bytes
  sign_parsed info (key, msg, flags) = do
    found ← gets (get_key key)
    k ← lift (key_or_missing found)
    allowed ← ask_confirmation user k info
    lift (sign_reply bo allowed k msg flags)

  unfoldable pub handle_sign : Input → RequestInfo → Exec (Agent ssl) Bytes
  unfolding sign_parsed
  handle_sign req info = do
    fields ← lift (result_of (read_sign_request bo ssl req))
    sign_parsed info fields

  -- The `match` on the message's type.
  unfoldable pub handle_message : ℕ → Input → RequestInfo → Exec (Agent ssl) Bytes
  handle_message msg_type req info =
      if msg_type == Codes.request_identities
      then handle_identities
      else if msg_type == Codes.add_identity
      then handle_add req
      else if msg_type == Codes.sign_request
      then handle_sign req info
      else pure (write_u8 [] Codes.failure)

  abbrev pub handle_rest : Outcome (ℕ × Input) → RequestInfo → Exec (Agent ssl) Bytes
  handle_rest (ok (msg_type, req)) info =
      wrapping (text_number "msg_type={}" msg_type) (handle_message msg_type req info)
  handle_rest (err e) info = lift (err e)
  handle_rest panic info = lift panic

  -- Agent::handle_request_internal
  unfoldable pub handle_request_internal : Bytes → RequestInfo → Exec (Agent ssl) Bytes
  handle_request_internal buf info =
      handle_rest (wrap_err (text "read msg_type") (read_u8 (cursor buf))) info

  -- Agent::handle_request
  unfoldable pub handle_request : Bytes → RequestInfo → Exec (Agent ssl) Bytes
  unfolding handle_request_internal
  handle_request buf info a =
      let (r, a') = handle_request_internal buf info a in (failure_for r, a')
