-- ===== src/Start/Main.antt =====
-- src/main.rs: `main`, with the set-up of the log before its body and the log of an error after it.
use ssh_keys.Base.{◌≡◌, ◌≢◌, inl, inr, refl, Bytes, some, List, ◌∷◌}
use ssh_keys.Outcome.{Outcome, ok, err, panic, ◌>>◌, Error, error_new, text}
use ssh_keys.Packages.{ByteOrder, Openssl}
use ssh_keys.Exec.{Exec}
use ssh_keys.Disk.{Disk}
use ssh_keys.KeyStore.{unwrap_ok}
use ssh_keys.Config.{Toml, Config}
use ssh_keys.CopyId.{ArgMatches, Remote, copy_id, find_key}
use ssh_keys.Start.{Subcommand, copy_id_command, prepare, main_body}
use ssh_keys.Start.CommandLine.{copy_id_args, IsParsed, key_required, no_host}
use ssh_keys.CopyId.Arguments.{copy_id_no_host}
use ssh_keys.Key.{KeyPair}
use ssh_keys.Text.{ascii}

-- The results of create_dir_all, of the open of the log file, and of CombinedLogger::init.
pub record LogSetup : Type 0 where
  pub create_dir_all : Outcome (Unit {0})
  pub open_log_file : Outcome (Unit {0})
  pub init : Outcome (Unit {0})

-- Each with `.expect(..)`.
unfoldable pub set_up_log : LogSetup → Outcome (Unit {0})
set_up_log setup = do
  unwrap_ok setup.create_dir_all
  unwrap_ok setup.open_log_file
  unwrap_ok setup.init

module _ {S : Type 0} where
  -- `if let Err(err) = .. { error!("{}", err); }`
  abbrev pub logged : List Error → Outcome (Unit {0}) × S → Outcome (Unit {0}) × (S × List Error)
  logged log (ok done, s) = (ok tt, (s, log))
  logged log (err e, s) = (ok tt, (s, e ∷ log))
  logged log (panic, s) = (panic, (s, log))

  abbrev pub after_set_up :
      Outcome (Unit {0}) → Exec S (Unit {0}) → Exec (S × List Error) (Unit {0})
  after_set_up (ok done) body (s, log) = logged log (body s)
  after_set_up (err e) body (s, log) = (panic, (s, log))
  after_set_up panic body (s, log) = (panic, (s, log))

module _ (toml : Toml) (ssl : Openssl) (bo : ByteOrder) (remote : Remote)
    (serve : Config ssl → Exec (Disk × remote.Host) (Unit {0})) where
  -- main, with the disk, the host and the errors that are logged. clap has read the command line.
  unfoldable pub main : LogSetup → Subcommand → Exec ((Disk × remote.Host) × List Error) (Unit {0})
  main setup command = after_set_up (set_up_log setup) (main_body toml ssl bo remote serve command)

-- How `main` ends for a command line of `copy-id` with the argument `key`, from the result of the log's
-- set-up, and of the load and save of the configuration: its outcome, and the errors that are logged.
pub data CopyIdEnds {ssl : Openssl} (key_name : Bytes) (log : List Error)
    : Outcome (Unit {0}) → Outcome (Config ssl) → Outcome (Unit {0}) → List Error → Type 0 where
  no_log :
      {set_up : Outcome (Unit {0})} {prepared : Outcome (Config ssl)}
      → set_up ≢ ok tt
      → CopyIdEnds key_name log set_up prepared panic log
  not_prepared : (e : Error) → CopyIdEnds key_name log (ok tt) (err e) (ok tt) (e ∷ log)
  prepare_panics : CopyIdEnds key_name log (ok tt) panic panic log
  no_key :
      (config : Config ssl)
      → find_key key_name config.keys ≡ err (error_new (text "key not found"))
      → CopyIdEnds key_name log (ok tt) (ok config) (ok tt) (error_new (text "key not found") ∷ log)
  key_found :
      (config : Config ssl) (key : KeyPair ssl)
      → find_key key_name config.keys ≡ ok key
      → CopyIdEnds key_name log (ok tt) (ok config) panic log

module _ (toml : Toml) {ssl : Openssl} (bo : ByteOrder) (remote : Remote)
    (serve : Config ssl → Exec (Disk × remote.Host) (Unit {0})) (key_name : Bytes)
    (log : List Error) where
  -- How `main` ends, with the host as it was.
  abbrev pub Ends :
      Outcome (Unit {0})
      → Outcome (Config ssl)
      → remote.Host
      → Outcome (Unit {0}) × ((Disk × remote.Host) × List Error)
      → Type 0
  Ends set_up prepared host after =
      CopyIdEnds key_name log set_up prepared after.0 after.1.1 × (after.1.0.1 ≡ host)

  module _ (m : ArgMatches) (has_key : m.value_of (ascii "key") ≡ some key_name)
      (p : IsParsed copy_id_args m) where
    logged-Ends :
        (config : Config ssl) (disk : Disk) (host : remote.Host)
        → let x = copy_id remote bo config m host in
          Ends (ok tt) (ok config) host (logged log (x.0, (disk, x.1)))
    logged-Ends config disk host =
        elim (copy_id_no_host bo remote config m key_name has_key (no_host m p) host) [
          | inl (e, same) ↦ rw same (no_key config e, refl)
          | inr (key, e, same) ↦ rw same (key_found config key e, refl)
        ]

    body-Ends :
        (prepared : Outcome (Config ssl)) (disk : Disk) (host : remote.Host)
        → (prepare toml ssl disk).0 ≡ prepared
        → Ends
            (ok tt)
            prepared
            host
            (logged log (main_body toml ssl bo remote serve (copy_id_command m) (disk, host)))
    unfolding main_body
    body-Ends (ok config) disk host e = rw e (logged-Ends config (prepare toml ssl disk).1 host)
    body-Ends (err x) disk host e = rw e (not_prepared x, refl)
    body-Ends panic disk host e = rw e (prepare_panics, refl)

    after_set_up-Ends :
        (set_up : Outcome (Unit {0})) (disk : Disk) (host : remote.Host)
        → Ends set_up (prepare toml ssl disk).0 host (
            after_set_up set_up
              (main_body toml ssl bo remote serve (copy_id_command m))
              ((disk, host), log))
    after_set_up-Ends (ok done) disk host = body-Ends (prepare toml ssl disk).0 disk host refl
    after_set_up-Ends (err e) disk host = (no_log (λ h. cc), refl)
    after_set_up-Ends panic disk host = (no_log (λ h. cc), refl)

module _ (toml : Toml) {ssl : Openssl} (bo : ByteOrder) (remote : Remote)
    (serve : Config ssl → Exec (Disk × remote.Host) (Unit {0})) where
  -- Whatever command line of `copy-id` clap accepts, it has a key's name, and main does nothing on a host.
  -- Where the set-up of the log does not succeed, main panics. Where the configuration is not loaded and
  -- saved, main logs the error and returns, or panics as that did. Otherwise, where no stored key has the
  -- name, main logs "key not found" and returns; and where one has it, main panics.
  pub main-CopyIdEnds :
      (setup : LogSetup) (m : ArgMatches) (disk : Disk) (host : remote.Host) (log : List Error)
      → IsParsed copy_id_args m
      → (key_name : Bytes) × (m.value_of (ascii "key") ≡ some key_name)
        × Ends toml bo remote serve key_name log
            (set_up_log setup)
            (prepare toml ssl disk).0
            host
            (main toml ssl bo remote serve setup (copy_id_command m) ((disk, host), log))
  unfolding main
  main-CopyIdEnds setup m disk host log p =
      let (key_name, has_key) = key_required m p in
      (
        key_name,
        has_key,
        after_set_up-Ends toml bo remote serve key_name log m has_key p (set_up_log setup) disk
            host,
      )
