-- ===== src/Config.antt =====
-- src/config.rs: the configuration, saved to and loaded from its file.
pub mod RoundTrip
pub mod Failure
pub mod Model
use ssh_keys.Base.{Bool, true, false, if◌then◌else◌, Bytes, Option, List, []}
use ssh_keys.Outcome.{not_found, Outcome, ok, err, panic, Error, io, or_library}
use ssh_keys.Packages.{Openssl}
use ssh_keys.Key.{KeyPair}
use ssh_keys.KeyStore.{Entry, serialize_key_pairs, deserialize_key_pairs}
use ssh_keys.Exec.{Exec, ◌>>=◌, ◌>>◌, pure, lift}
use ssh_keys.Disk.{Disk, create, write_all, open_file, read_to_end}

-- The toml package: `to_string_pretty` of a `Config` from the entries of its `keys`, and
-- `from_slice` down to these entries.
pub record Toml : Type 0 where
  pub to_string_pretty : List Entry → Option Bytes
  pub from_slice : Bytes → Option (List Entry)

pub record Config (ssl : Openssl) : Type 0 where
  pub keys : List (KeyPair ssl)

-- Config::default
abbrev pub default_config : {ssl : Openssl} → Config ssl
default_config = record { keys = [] }

module _ (toml : Toml) where
  -- Config::save
  unfoldable pub save : {ssl : Openssl} → Config ssl → Exec Disk (Unit {0})
  save c = do
    create
    entries ← lift (serialize_key_pairs c.keys)
    content ← lift (or_library (toml.to_string_pretty entries))
    write_all content

-- `err.kind()` is `NotFound`.
abbrev pub is_not_found : Error → Bool
is_not_found (io not_found) = true
is_not_found _ = false

module _ (toml : Toml) (ssl : Openssl) where
  abbrev pub opened : Outcome Bytes → Exec Disk (Config ssl)
  opened (ok file) = do
    buf ← read_to_end file
    entries ← lift (or_library (toml.from_slice buf))
    keys ← lift (deserialize_key_pairs ssl entries)
    pure (record { keys = keys })
  opened (err e) = if is_not_found e then pure default_config else lift (err e)
  opened panic = lift panic

  unfoldable pub load_config : Exec Disk (Config ssl)
  load_config d = opened (open_file d).0 (open_file d).1

  abbrev replaced :
      Outcome (Config ssl) → Config ssl → Disk → Outcome (Unit {0}) × (Config ssl × Disk)
  replaced (ok new) old d = (ok tt, (new, d))
  replaced (err e) old d = (err e, (old, d))
  replaced panic old d = (panic, (old, d))

  -- Config::reload
  unfoldable pub reload : Exec (Config ssl × Disk) (Unit {0})
  unfolding load_config
  reload (config, d) = replaced (load_config d).0 config (load_config d).1
