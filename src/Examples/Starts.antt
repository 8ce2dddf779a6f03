-- ===== src/Examples/Starts.antt =====
-- Starts of the program.
use ssh_keys.Base.{true, ◌≤◌, ◌≡◌, refl, arith, List, [], ◌∷◌, Bytes, none, some}
use ssh_keys.Outcome.{ok, err, io, library, other_io, wrapped, text}
use ssh_keys.KeyStore.{Entry, serialize_key_pairs}
use ssh_keys.Packages.Model.{bignum-laws, pem-laws}
use ssh_keys.Disk.{Disk}
use ssh_keys.Config.{Config, save, load_config}
use ssh_keys.Config.RoundTrip.{healthy, save_lem, load_config-save}
use ssh_keys.Config.Model.{toml, toml-laws}
use ssh_keys.Start.{main_body, failing_write, copy_id_command, no_command, main_body_loses_keys}
use ssh_keys.Exec.{Exec}
use ssh_keys.Examples.Hosts.{remote, other_key, opts}
use ssh_keys.Start.Second.{stored_key, add_key-then-save}
use ssh_keys.Key.{PrivateKey, PublicKey, KeyPair, public_eq}
use ssh_keys.Text.{ascii}
use ssh_keys.Agent.{Agent, get_key, find_from, add_key}
use ssh_keys.Serve.{Call}
use ssh_keys.Serve.Instances.{
  Happening, starts, ends, happen_all, listening_count, listening_count-happen_all,
}
use ssh_keys.Examples.Values.{bo, ssl, key_pair}
use ssh_keys.Examples.Run.{run}

abbrev one_key : Config ssl
one_key = record { keys = key_pair ∷ [] }

entries : (es : List Entry) × (serialize_key_pairs {ssl = ssl} (key_pair ∷ []) ≡ ok es)
unfolding run
entries = (_, refl)

-- The file that the key was saved to.
saved : (before : Bytes) × ((load_config toml ssl (healthy (some before))).0 ≡ ok one_key)
saved =
    let (es, before, e, _, _, _) =
      save_lem toml-laws {ssl = ssl} pem-laws one_key none (refl, tt) in
    let back = load_config-save toml-laws {ssl = ssl} pem-laws one_key none (refl, tt) (tt, tt) in
    (before, rw e at back.1)

-- An agent that serves is not looked at further.
abbrev serve : Config ssl → Exec (Disk × remote.Host) (Unit {0})
serve config s = (ok tt, s)

main_body_loses_keys_example :
    (main_body toml ssl bo remote serve
        (copy_id_command opts)
        (failing_write saved.0 (other_io 28), other_key)
      ≡ (err (io (other_io 28)), (healthy (some []), other_key)))
    × (main_body toml ssl bo remote serve no_command (healthy (some []), other_key)
        ≡ (err (wrapped (text "load config") library), (healthy (some []), other_key)))
main_body_loses_keys_example =
    main_body_loses_keys toml {ssl = ssl} bo remote serve toml-laws saved.0 entries.0 one_key
      (other_io 28) saved.1 entries.1 (copy_id_command opts) no_command other_key

-- Another key, of another name.
abbrev second_key : KeyPair ssl
second_key = record {
  private_key = PrivateKey.rsa (record { n = 21; e = 5; d = 5 });
  public_key = PublicKey.rsa 5 21;
  name = ascii "you";
}

abbrev running : Agent ssl
running = record { config = one_key; disk = healthy (some saved.0); prompts = [] }

new_key : get_key {ssl = ssl} (PublicKey.rsa 5 21) running ≡ none
unfolding run
new_key = refl

no_second_key : stored_key toml {ssl = ssl} (PublicKey.rsa 5 21) (healthy (some saved.0)) ≡ ok none
unfolding get_key find_from public_eq
no_second_key = rw saved.1 refl

add_key-then-save_example :
    let added = add_key toml second_key running in
    let later = save toml one_key added.1.disk in
    let still_running = record added.1 { disk = later.1 } in
    (added.0 ≡ ok tt)
    × (stored_key toml {ssl = ssl} (PublicKey.rsa 5 21) added.1.disk ≡ ok (some (second_key, 1)))
    × (later.0 ≡ ok tt)
    × (stored_key toml {ssl = ssl} (PublicKey.rsa 5 21) later.1 ≡ ok none)
    × (add_key toml second_key still_running ≡ (ok tt, still_running))
add_key-then-save_example =
    add_key-then-save toml-laws {ssl = ssl} pem-laws bignum-laws second_key running (some saved.0)
      one_key refl new_key (refl, (refl, tt)) ((λ e. ground arith, tt), (tt, tt)) saved.1
      no_second_key (tt, tt)

-- A window's class and a window that are made.
abbrev made : Call
made = record { succeeded = true; last_error = 0 }

-- Two agents are started, the first one ends, and a third is started.
abbrev happenings : List Happening
happenings = starts made made ∷ starts made made ∷ ends 1 ∷ starts made made ∷ []

listening_count-happen_all_example : listening_count (happen_all (λ code. []) happenings []) ≤ 1
listening_count-happen_all_example = listening_count-happen_all (λ code. []) happenings
