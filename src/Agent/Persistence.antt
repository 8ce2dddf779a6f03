-- ===== src/Agent/Persistence.antt =====
-- src/agent/mod.rs: adding a key, and what is in the file afterwards.
use ssh_keys.Base.{
  ℕ, ◌+◌, ◌≡◌, refl, ◌∙◌, Bytes, Option, some, none, List, [], ◌∷◌, ◌++◌, map, length, arith,
  Bool-cases, inl, inr, true,
}
use ssh_keys.Outcome.{ok}
use ssh_keys.Packages.{Openssl, BigNumLaws, PemLaws}
use ssh_keys.Key.{PublicKey, KeyPair, public_eq}
use ssh_keys.Key.Public.{public_eq_iff}
use ssh_keys.KeyStore.RoundTrip.{name_of}
use ssh_keys.Config.{Toml, Config, load_config}
use ssh_keys.Config.RoundTrip.{TomlLaws, DistinctNames, ConsistentKeys, healthy, load_config-save}
use ssh_keys.Agent.{Agent, find_from, get_key, add_key}

-- The agent with one more key at the end.
abbrev pub with_key : {ssl : Openssl} → Agent ssl → KeyPair ssl → Config ssl
with_key a k = record { keys = a.config.keys ++ (k ∷ []) }

module _ {ssl : Openssl} (laws : BigNumLaws ssl) where
  public_eq_refl : (p : PublicKey ssl) → public_eq p p ≡ true
  public_eq_refl p = (public_eq_iff laws p p).1 refl

  find_from-append :
      (idx : ℕ) (k : KeyPair ssl) (ks : List (KeyPair ssl))
      → find_from idx k.public_key ks ≡ none
      → find_from idx k.public_key (ks ++ (k ∷ [])) ≡ some (k, idx + length ks)
  unfolding find_from
  find_from-append idx k [] h = rw (public_eq_refl k.public_key) (ground arith)
  find_from-append idx k (j ∷ js) h = elim (Bool-cases (public_eq j.public_key k.public_key)) [
    | inl e ↦ cc (rw e at h)
    | inr n ↦ rw (n, find_from-append (idx + 1) k js (rw n at h)) (ground arith)
  ]

  -- The key that was added is found, and it is the last one, whether or not the save worked.
  pub get_key-add_key :
      (toml : Toml) (k : KeyPair ssl) (a : Agent ssl)
      → get_key k.public_key a ≡ none
      → get_key k.public_key (add_key toml k a).1 ≡ some (k, length a.config.keys)
  unfolding get_key add_key
  get_key-add_key toml k a h = rw h (find_from-append 0 k a.config.keys h ∙ ground arith)

  pub add_key_known :
      (toml : Toml) (k : KeyPair ssl) (a : Agent ssl) {found : KeyPair ssl × ℕ}
      → get_key k.public_key a ≡ some found
      → add_key toml k a ≡ (ok tt, a)
  unfolding add_key
  add_key_known toml k a h = rw h

  -- Adding a key that was not there a second time succeeds and changes nothing, whether the save of
  -- the first time succeeded or failed.
  pub add_key_twice :
      (toml : Toml) (k : KeyPair ssl) (a : Agent ssl)
      → get_key k.public_key a ≡ none
      → add_key toml k (add_key toml k a).1 ≡ (ok tt, (add_key toml k a).1)
  add_key_twice toml k a h =
      let found = get_key-add_key toml k a h in add_key_known toml k (add_key toml k a).1 found

module _ {toml : Toml} (toml_laws : TomlLaws toml) {ssl : Openssl} (pem : PemLaws ssl) where
  -- On a disk that works, a key whose public key and name the agent does not have is added, where
  -- all keys are consistent and of distinct names, and what is loaded from the file afterwards is
  -- the agent's configuration, with the key at its end.
  pub add_key-saved :
      (k : KeyPair ssl) (a : Agent ssl) (before : Option Bytes)
      → a.disk ≡ healthy before
      → get_key k.public_key a ≡ none
      → ConsistentKeys (a.config.keys ++ (k ∷ []))
      → DistinctNames (map name_of (a.config.keys ++ (k ∷ [])))
      → ((add_key toml k a).0 ≡ ok tt)
        × ((load_config toml ssl (add_key toml k a).1.disk).0 ≡ ok (add_key toml k a).1.config)
        × ((add_key toml k a).1.config ≡ with_key a k)
  unfolding add_key
  add_key-saved k a before ed h c d =
      let (done, loaded) = load_config-save toml_laws pem (with_key a k) before c d in
      rw (h, ed, done) (refl, loaded, refl)
