-- ===== src/Start/Second.antt =====
-- src/main.rs and src/agent/mod.rs: a second process of the program, `copy-id` or another agent, whose
-- start falls between the requests of a running agent.
use ssh_keys.Base.{
  ◌≡◌, refl, sym, ap, ◌∙◌, ℕ, length, Bytes, Option, some, none, List, [], ◌∷◌, ◌++◌, map,
}
use ssh_keys.Outcome.{Outcome, ok, ok-injective, ◌>>=◌}
use ssh_keys.Disk.{Disk}
use ssh_keys.Packages.{Openssl, BigNumLaws, PemLaws}
use ssh_keys.Key.{PublicKey, KeyPair}
use ssh_keys.KeyStore.RoundTrip.{name_of}
use ssh_keys.Config.{Toml, Config, save, load_config}
use ssh_keys.Config.RoundTrip.{
  TomlLaws, DistinctNames, ConsistentKeys, healthy, save_lem, load_config-save,
}
use ssh_keys.Agent.{Agent, Prompt, get_key, add_key}
use ssh_keys.Agent.Persistence.{with_key, add_key-saved, get_key-add_key, add_key_known}
use ssh_keys.Start.{load_config_lem}

-- What a start of the program finds of a public key: the configuration is loaded, and searched as an
-- agent does.
abbrev pub stored_key :
    (toml : Toml) {ssl : Openssl} → PublicKey ssl → Disk → Outcome (Option (KeyPair ssl × ℕ))
stored_key toml {ssl} public disk = do
  config ← (load_config toml ssl disk).0
  ok (get_key public (record { config = config; disk = disk; prompts = [] }))

module _ {toml : Toml} (laws : TomlLaws toml) {ssl : Openssl} (pem : PemLaws ssl) where
  add_key-disk :
      (k : KeyPair ssl) (a : Agent ssl) (before : Option Bytes)
      → a.disk ≡ healthy before
      → get_key k.public_key a ≡ none
      → ConsistentKeys (a.config.keys ++ (k ∷ []))
      → (after : Bytes) × ((add_key toml k a).1.disk ≡ healthy (some after))
  unfolding add_key
  add_key-disk k a before works missing c =
      let (es, after, e, _, _, _) = save_lem laws pem (with_key a k) before c in
      (after, rw (missing, works, e) refl)

  get_key-config :
      (public : PublicKey ssl) (a : Agent ssl) (disk : Disk) (prompts : List (Prompt ssl))
      → get_key public (record { config = a.config; disk = disk; prompts = prompts })
        ≡ get_key public a
  unfolding get_key
  get_key-config public a disk prompts = refl

  stored_key-load_config :
      (public : PublicKey ssl) (disk : Disk) (config : Config ssl)
      → (load_config toml ssl disk).0 ≡ ok config
      → stored_key toml public disk
        ≡ ok (get_key public (record { config = config; disk = disk; prompts = [] }))
  stored_key-load_config public disk config e = rw e refl

  module _ (numbers : BigNumLaws ssl) where
    -- On a disk that works, where the agent's keys and a new one are consistent and of distinct names, the
    -- agent does not have its public key, and what is stored is loaded, has distinct names, and does not
    -- have it either: if the agent adds the new key after another process has loaded the configuration,
    -- and before that process saves what it loaded, as `main` does at every start, then both succeed. A
    -- start of the program between them finds the new key in the file, behind the agent's others; a start
    -- after them does not find it. And then adding the key to the agent again succeeds, and leaves the
    -- agent and the file as they are, without the key in the file.
    pub add_key-then-save :
        (k : KeyPair ssl) (a : Agent ssl) (before : Option Bytes) (loaded : Config ssl)
        → a.disk ≡ healthy before
        → get_key k.public_key a ≡ none
        → ConsistentKeys (a.config.keys ++ (k ∷ []))
        → DistinctNames (map name_of (a.config.keys ++ (k ∷ [])))
        → (load_config toml ssl (healthy before)).0 ≡ ok loaded
        → stored_key toml k.public_key (healthy before) ≡ ok none
        → DistinctNames (map name_of loaded.keys)
        → let added = add_key toml k a in
          let saved = save toml loaded added.1.disk in
          let running = record added.1 { disk = saved.1 } in
          (added.0 ≡ ok tt)
          × (stored_key toml k.public_key added.1.disk ≡ ok (some (k, length a.config.keys)))
          × (saved.0 ≡ ok tt)
          × (stored_key toml k.public_key saved.1 ≡ ok none)
          × (add_key toml k running ≡ (ok tt, running))
    add_key-then-save k a before loaded works missing c d load absent names =
        let (after, disk) = add_key-disk k a before works missing c in
        let (added, stored, config) = add_key-saved laws pem k a before works missing c d in
        let consistent = (load_config_lem toml ssl before).1 loaded load in
        let (saved, again) = load_config-save laws pem loaded (some after) consistent names in
        let holder : Agent ssl = record { config = loaded; disk = healthy before; prompts = [] } in
        let gone : get_key k.public_key holder ≡ none =
          ok-injective
            (sym (stored_key-load_config k.public_key (healthy before) loaded load) ∙ absent) in
        let found = get_key-add_key numbers toml k a missing in
        let after_add = (add_key toml k a).1 in
        let overwritten = (save toml loaded after_add.disk).1 in
        (
          added,
          stored_key-load_config k.public_key after_add.disk after_add.config stored
              ∙ ap ok (get_key-config k.public_key after_add after_add.disk [] ∙ found),
          rw disk saved,
          stored_key-load_config k.public_key overwritten loaded (rw disk again)
              ∙ ap ok (get_key-config k.public_key holder overwritten [] ∙ gone),
          add_key_known numbers toml k (record after_add { disk = overwritten })
              (get_key-config k.public_key after_add overwritten after_add.prompts ∙ found),
        )
