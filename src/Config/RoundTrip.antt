-- ===== src/Config/RoundTrip.antt =====
-- src/config.rs: `save` and `load_config` against each other.
use ssh_keys.Base.{◌≡◌, ◌≢◌, ap, Bytes, Option, some, none, List, [], ◌∷◌, map, All}
use ssh_keys.Outcome.{ok, err, library}
use ssh_keys.Packages.{Openssl, PemLaws}
use ssh_keys.Key.{KeyPair, public}
use ssh_keys.KeyStore.{Entry, deserialize_key_pairs}
use ssh_keys.KeyStore.RoundTrip.{name_of, entry_name, serialize_key_pairs_lem}
use ssh_keys.Disk.{Disk, create, write_all, open_file, read_to_end}
use ssh_keys.Config.{Toml, Config, save, load_config}

-- No text stands twice in the list.
abbrev pub DistinctNames : List Bytes → Type 0
DistinctNames [] = Unit
DistinctNames (n ∷ ns) = All (λ m. n ≢ m) ns × DistinctNames ns

-- TOML: the tables of `keys` are read back as they were written, and a document that defines one
-- table twice, or that lacks `keys`, is refused.
pub record TomlLaws (toml : Toml) : Type 0 where
  pub writes : (es : List Entry) → (text : Bytes) × (toml.to_string_pretty es ≡ some text)
  pub reads :
      (es : List Entry) (text : Bytes)
      → DistinctNames (map entry_name es)
      → toml.to_string_pretty es ≡ some text
      → toml.from_slice text ≡ some es
  pub refuses_duplicates :
      (es : List Entry) (text : Bytes)
      → ¬ DistinctNames (map entry_name es)
      → toml.to_string_pretty es ≡ some text
      → toml.from_slice text ≡ none
  pub refuses_empty : toml.from_slice [] ≡ none

abbrev pub ConsistentKeys : {ssl : Openssl} → List (KeyPair ssl) → Type 0
ConsistentKeys ks = All (λ k. k.public_key ≡ public k.private_key) ks

-- A disk that works from now on.
abbrev pub healthy : Option Bytes → Disk
healthy contents = record { contents = contents; faults = [] }

module _ {toml : Toml} (laws : TomlLaws toml) {ssl : Openssl} (pem : PemLaws ssl) where
  -- A save that works writes the keys' text, and nothing else is in the file.
  pub save_lem :
      (c : Config ssl) (before : Option Bytes)
      → ConsistentKeys c.keys
      → (es : List Entry) × (text : Bytes) × (save toml c (healthy before)
          ≡ (ok tt, healthy (some text)))
        × (toml.to_string_pretty es ≡ some text)
        × (map entry_name es ≡ map name_of c.keys)
        × (deserialize_key_pairs ssl es ≡ ok c.keys)
  unfolding save create write_all
  save_lem c before h =
      let (es, e, names, back) = serialize_key_pairs_lem pem c.keys h in
      let (text, w) = laws.writes es in (es, text, rw (e, w), w, names, back)

  -- On a disk that works, a configuration with consistent keys of distinct names is saved, and what
  -- is loaded afterwards is that configuration.
  pub load_config-save :
      (c : Config ssl) (before : Option Bytes)
      → ConsistentKeys c.keys
      → DistinctNames (map name_of c.keys)
      → ((save toml c (healthy before)).0 ≡ ok tt)
        × ((load_config toml ssl (save toml c (healthy before)).1).0 ≡ ok c)
  unfolding load_config open_file read_to_end
  load_config-save c before h names =
      let (es, text, e, w, en, back) = save_lem c before h in
      (ap (λ t. t.0) e, rw (e, laws.reads es text (rw en names) w, back))

  -- On a disk that works, a configuration with consistent keys of which two have one name is saved
  -- with success, and loading it fails.
  pub load_config-save_duplicate :
      (c : Config ssl) (before : Option Bytes)
      → ConsistentKeys c.keys
      → ¬ DistinctNames (map name_of c.keys)
      → ((save toml c (healthy before)).0 ≡ ok tt)
        × ((load_config toml ssl (save toml c (healthy before)).1).0 ≡ err library)
  unfolding load_config open_file read_to_end
  load_config-save_duplicate c before h names =
      let (es, text, e, w, en, back) = save_lem c before h in
      (ap (λ t. t.0) e, rw (e, laws.refuses_duplicates es text (rw en names) w))
