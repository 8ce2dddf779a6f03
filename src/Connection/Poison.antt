-- ===== src/Connection/Poison.antt =====
-- src/utils.rs: the mutex of the agent after a panic.
use ssh_keys.Base.{◌≡◌, refl, Bytes, some, none, [], ◌∷◌, true, false}
use ssh_keys.Outcome.{panic}
use ssh_keys.Packages.{ByteOrder, Openssl}
use ssh_keys.Config.{Toml}
use ssh_keys.Agent.{Agent, User, RequestInfo, handle_request}
use ssh_keys.Outcome.{unexpected_eof}
use ssh_keys.Packages.{ByteOrderLaws}
use ssh_keys.Wire.RoundTrip.{read_u8-cons}
use ssh_keys.Key.Import.{AddRsa, message, key_pair_from_wire_panics}
use ssh_keys.Agent.{handle_message, handle_add}
use ssh_keys.Agent.Codes
use ssh_keys.Connection.{Session, locked_request}

module _ (bo : ByteOrder) (toml : Toml) {ssl : Openssl} (user : User ssl) where
  -- A request whose handling panics leaves the mutex poisoned, and while it is poisoned a request
  -- of any client panics and changes nothing.
  pub locked_request-poisoned :
      (info info' : RequestInfo) (buf buf' : Bytes) (s : Session ssl)
      → s.poisoned ≡ false
      → (handle_request bo toml user buf info s.agent).0 ≡ panic
      → let t = (locked_request bo toml user info buf s).1 in
        (t.poisoned ≡ true) × (locked_request bo toml user info' buf' t ≡ (panic, t))
  unfolding locked_request
  locked_request-poisoned info info' buf buf' s clean h = rw (clean, h) (refl, refl)

module _ {bo : ByteOrder} (bytes : ByteOrderLaws bo) (toml : Toml) {ssl : Openssl} (user : User ssl)
    (m : AddRsa ssl) (one : ssl.BigNum) (is_one : ssl.from_u32 1 ≡ some one)
    (no_rem : ssl.rem m.d.value (ssl.sub m.p.value one) ≡ none) where
  handle_request-panics :
      (info : RequestInfo) (a : Agent ssl)
      → (handle_request bo toml user (Codes.add_identity ∷ message bo m []) info a).0 ≡ panic
  unfolding handle_request handle_message handle_add
  handle_request-panics info a = rw (
    read_u8-cons Codes.add_identity (message bo m []) unexpected_eof,
    key_pair_from_wire_panics bytes m [] unexpected_eof one is_one no_rem,
  )

  -- A client that adds a key whose `p` less one has no remainder, as `p` = 1, panics the agent and
  -- poisons its mutex, and every later request of any client panics too and changes nothing.
  pub add_request_poisons :
      (info info' : RequestInfo) (buf' : Bytes) (s : Session ssl)
      → s.poisoned ≡ false
      → let buf = Codes.add_identity ∷ message bo m [] in
        let t = (locked_request bo toml user info buf s).1 in
        ((locked_request bo toml user info buf s).0 ≡ panic)
        × (t.poisoned ≡ true)
        × (locked_request bo toml user info' buf' t ≡ (panic, t))
  unfolding locked_request
  add_request_poisons info info' buf' s clean =
      rw (clean, handle_request-panics info s.agent) (refl, refl, refl)
