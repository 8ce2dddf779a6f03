-- ===== src/Start.antt =====
-- src/main.rs: what `main` does after the log is set up and the command line is read.
pub mod Second
pub mod CommandLine
pub mod Main
use ssh_keys.Base.{◌≡◌, refl, sym, ap, ◌∙◌, inl, inr, Bytes, Option, some, none, List, [], ◌∷◌, map}
use ssh_keys.Outcome.{
  Error, ok, err, IoKind, io, library, wrapped, text, Outcome-cases, or_library, ok-injective,
  >>=-eq-ok,
}
use ssh_keys.Packages.{ByteOrder, Openssl, PemLaws}
use ssh_keys.Key.{KeyPair}
use ssh_keys.KeyStore.RoundTrip.{name_of}
use ssh_keys.KeyStore.{Entry, serialize_key_pairs, deserialize_key_pairs, deserialize_key}
use ssh_keys.Exec.{Exec, ◌>>=◌, ◌>>◌, pure, wrapping}
use ssh_keys.Disk.{Disk, works, fails, create, write_all, open_file, read_to_end}
use ssh_keys.Config.{Toml, Config, save, load_config}
use ssh_keys.Config.RoundTrip.{
  TomlLaws, DistinctNames, ConsistentKeys, healthy, save_lem, load_config-save,
}
use ssh_keys.CopyId.{ArgMatches, Remote, copy_id}

-- `opts.subcommand()`
pub data Subcommand : Type 0 where
  copy_id_command : ArgMatches → Subcommand
  no_command : Subcommand

module _ (toml : Toml) (ssl : Openssl) where
  -- The configuration is loaded, and saved again.
  unfoldable pub prepare : Exec Disk (Config ssl)
  prepare = do
    config ← wrapping (text "load config") (load_config toml ssl)
    save toml config
    pure config

  module _ (bo : ByteOrder) (remote : Remote)
      (serve : Config ssl → Exec (Disk × remote.Host) (Unit {0})) where
    abbrev on_disk : {A : Type 0} → Exec Disk A → Exec (Disk × remote.Host) A
    on_disk m (disk, host) = ((m disk).0, ((m disk).1, host))

    abbrev on_host : {A : Type 0} → Exec remote.Host A → Exec (Disk × remote.Host) A
    on_host m (disk, host) = ((m host).0, (disk, (m host).1))

    abbrev dispatch : Subcommand → Config ssl → Exec (Disk × remote.Host) (Unit {0})
    dispatch (copy_id_command opts) config = on_host (copy_id remote bo config opts)
    dispatch no_command config = serve config

    -- The body of `main`, where `serve` is the platform's.
    unfoldable pub main_body : Subcommand → Exec (Disk × remote.Host) (Unit {0})
    main_body command = on_disk prepare >>= dispatch command

module _ {ssl : Openssl} where
  deserialize_key_pairs-ConsistentKeys :
      (es : List Entry) {ks : List (KeyPair ssl)}
      → deserialize_key_pairs ssl es ≡ ok ks
      → ConsistentKeys ks
  unfolding deserialize_key_pairs
  deserialize_key_pairs-ConsistentKeys [] h = rw (sym (ok-injective h)) tt
  deserialize_key_pairs-ConsistentKeys (e ∷ es) h =
      let (key, read, next) = >>=-eq-ok (deserialize_key ssl e.config) _ h in
      let (rest, more, same) = >>=-eq-ok (deserialize_key_pairs ssl es) _ next in
      rw (sym (ok-injective same)) (refl, deserialize_key_pairs-ConsistentKeys es more)

module _ (toml : Toml) (ssl : Openssl) where
  -- A working disk is left as it was, and the key pairs that are read from it are consistent.
  pub load_config_lem :
      (before : Option Bytes)
      → ((load_config toml ssl (healthy before)).1 ≡ healthy before)
        × ((c : Config ssl)
            → (load_config toml ssl (healthy before)).0 ≡ ok c
            → ConsistentKeys c.keys)
  unfolding load_config open_file read_to_end
  load_config_lem none = (refl, λ c h. rw (sym (ok-injective h)) tt)
  load_config_lem (some bs) = elim (Outcome-cases (or_library (toml.from_slice bs))) [
    | inl (es, e) ↦ elim (Outcome-cases (deserialize_key_pairs ssl es)) [
      | inl (ks, k) ↦
          rw (e, k)
            (refl, λ c h. rw (sym (ok-injective h)) (deserialize_key_pairs-ConsistentKeys es k))
      | inr (inl (x, k)) ↦ rw (e, k) (refl, λ c h. cc)
      | inr (inr k) ↦ rw (e, k) (refl, λ c h. cc)
    ]
    | inr (inl (x, e)) ↦ rw e (refl, λ c h. cc)
    | inr (inr e) ↦ rw e (refl, λ c h. cc)
  ]

  load_config-eq-ok :
      (bs : Bytes) {c : Config ssl}
      → (load_config toml ssl (healthy (some bs))).0 ≡ ok c
      → (es : List Entry) × (or_library (toml.from_slice bs) ≡ ok es)
        × (deserialize_key_pairs ssl es ≡ ok c.keys)
  unfolding load_config open_file read_to_end
  load_config-eq-ok bs h = elim (Outcome-cases (or_library (toml.from_slice bs))) [
    | inl (es, e) ↦ elim (Outcome-cases (deserialize_key_pairs ssl es)) [
      | inl (ks, k) ↦ (es, e, k ∙ ap (λ c. ok c.keys) (ok-injective (rw (e, k) at h)))
      | inr (inl (x, k)) ↦ let never = rw (e, k) at h in cc
      | inr (inr k) ↦ let never = rw (e, k) at h in cc
    ]
    | inr (inl (x, e)) ↦ let never = rw e at h in cc
    | inr (inr e) ↦ let never = rw e at h in cc
  ]

module _ {toml : Toml} (laws : TomlLaws toml) {ssl : Openssl} (pem : PemLaws ssl) where
  prepare_lem :
      (c : Config ssl) (before : Option Bytes)
      → (load_config toml ssl (healthy before)).0 ≡ ok c
      → DistinctNames (map name_of c.keys)
      → (after : Bytes) × (prepare toml ssl (healthy before) ≡ (ok c, healthy (some after)))
        × ((load_config toml ssl (healthy (some after))).0 ≡ ok c)
  unfolding prepare
  prepare_lem c before loaded names =
      let (kept, all_consistent) = load_config_lem toml ssl before in
      let consistent = all_consistent c loaded in
      let (es, after, saved, w, en, deser) = save_lem laws pem c before consistent in
      let (same, back) = load_config-save laws pem c before consistent names in
      (after, rw (loaded, kept, saved) refl, rw saved at back)

  -- On a disk that works, where the file holds a configuration of distinct names, or there is no
  -- file, `main` goes on with the configuration that is loaded, and a second start, after the
  -- configuration was saved again, loads the same.
  pub prepare-prepare :
      (c : Config ssl) (before : Option Bytes)
      → (load_config toml ssl (healthy before)).0 ≡ ok c
      → DistinctNames (map name_of c.keys)
      → let first = prepare toml ssl (healthy before) in
        (first.0 ≡ ok c) × ((prepare toml ssl first.1).0 ≡ ok c)
  prepare-prepare c before loaded names =
      let (after, first, again) = prepare_lem c before loaded names in
      let (last, second, _) = prepare_lem c (some after) again names in
      rw first (refl, ap (λ r. r.0) second)

-- The file can be opened, read and created again, and then a write fails at once.
abbrev pub failing_write : Bytes → IoKind → Disk
failing_write bs k = record { contents = some bs; faults = works ∷ works ∷ works ∷ fails 0 k ∷ [] }

module _ {toml : Toml} (laws : TomlLaws toml) {ssl : Openssl} where
  prepare_loses_keys :
      (bs : Bytes) (es : List Entry) (c : Config ssl) (k : IoKind)
      → (load_config toml ssl (healthy (some bs))).0 ≡ ok c
      → serialize_key_pairs c.keys ≡ ok es
      → (prepare toml ssl (failing_write bs k) ≡ (err (io k), healthy (some [])))
        × (prepare toml ssl (healthy (some []))
            ≡ (err (wrapped (text "load config") library), healthy (some [])))
  unfolding prepare load_config open_file read_to_end save create write_all
  prepare_loses_keys bs es c k loaded entries =
      let (read, e, same) = load_config-eq-ok toml ssl bs loaded in
      let (after, w) = laws.writes es in rw (e, same, entries, w, laws.refuses_empty) (refl, refl)

module _ (toml : Toml) {ssl : Openssl} (bo : ByteOrder) (remote : Remote)
    (serve : Config ssl → Exec (Disk × remote.Host) (Unit {0})) where
  -- Where `prepare` fails, nothing else is done.
  main_body-prepare :
      (chosen : Subcommand) (d : Disk) (host : remote.Host) {e : Error} {after : Disk}
      → prepare toml ssl d ≡ (err e, after)
      → main_body toml ssl bo remote serve chosen (d, host) ≡ (err e, (after, host))
  unfolding main_body
  main_body-prepare chosen d host h = rw h refl

  -- Where the file is opened and read as a configuration that can be serialized, and is created again,
  -- and the write then fails at once, `main` fails whatever the command, neither serves nor acts on a
  -- host, and leaves the file empty; and the next start, whatever its command, fails at the load,
  -- although the disk works again.
  pub main_body_loses_keys :
      TomlLaws toml
      → (bs : Bytes) (es : List Entry) (c : Config ssl) (k : IoKind)
      → (load_config toml ssl (healthy (some bs))).0 ≡ ok c
      → serialize_key_pairs c.keys ≡ ok es
      → (chosen next : Subcommand) (host : remote.Host)
      → (main_body toml ssl bo remote serve chosen (failing_write bs k, host)
          ≡ (err (io k), (healthy (some []), host)))
        × (main_body toml ssl bo remote serve next (healthy (some []), host)
            ≡ (err (wrapped (text "load config") library), (healthy (some []), host)))
  main_body_loses_keys laws bs es c k loaded entries chosen next host =
      let (first, second) = prepare_loses_keys laws bs es c k loaded entries in
      (main_body-prepare chosen _ host first, main_body-prepare next _ host second)
