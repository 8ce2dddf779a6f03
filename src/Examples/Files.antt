-- ===== src/Examples/Files.antt =====
-- The configuration's file.
use ssh_keys.Base.{refl, ◌≡◌, [], ◌∷◌, none}
use ssh_keys.Outcome.{ok, err, library, other_io}
use ssh_keys.Text.{ascii}
use ssh_keys.Key.{PrivateKey, PublicKey, KeyPair}
use ssh_keys.Packages.Model.{pem-laws}
use ssh_keys.Disk.{works, fails}
use ssh_keys.Config.{Config, save, load_config}
use ssh_keys.Config.RoundTrip.{healthy, load_config-save, load_config-save_duplicate}
use ssh_keys.Config.Failure.{SaveLeaves, save-SaveLeaves}
use ssh_keys.Config.Model.{toml, toml-laws}
use ssh_keys.Agent.{Agent, get_key, add_key}
use ssh_keys.Agent.Persistence.{with_key, add_key-saved}
use ssh_keys.Examples.Values.{ssl, public_key, key_pair, empty_agent}
use ssh_keys.Examples.Run.{run}

abbrev one_key : Config ssl
one_key = record { keys = key_pair ∷ [] }

load_config-save_example :
    ((save toml one_key (healthy none)).0 ≡ ok tt)
    × ((load_config toml ssl (save toml one_key (healthy none)).1).0 ≡ ok one_key)
load_config-save_example =
    load_config-save toml-laws {ssl = ssl} pem-laws one_key none (refl, tt) (tt, tt)

-- Another key with the same name.
abbrev namesake : KeyPair ssl
namesake = record {
  private_key = PrivateKey.rsa (record { n = 21; e = 5; d = 5 });
  public_key = PublicKey.rsa 5 21;
  name = ascii "me";
}

abbrev two_of_a_name : Config ssl
two_of_a_name = record { keys = key_pair ∷ namesake ∷ [] }

load_config-save_duplicate_example :
    ((save toml two_of_a_name (healthy none)).0 ≡ ok tt)
    × ((load_config toml ssl (save toml two_of_a_name (healthy none)).1).0 ≡ err library)
load_config-save_duplicate_example =
    load_config-save_duplicate toml-laws {ssl = ssl} pem-laws two_of_a_name none (refl, (refl, tt))
      (λ d. d.0.0 refl)

save-SaveLeaves_example :
    SaveLeaves toml one_key none
      (works ∷ fails 3 (other_io 1) ∷ [])
      (save toml one_key (record { contents = none; faults = works ∷ fails 3 (other_io 1) ∷ [] })).0
      (save toml one_key
        (record { contents = none; faults = works ∷ fails 3 (other_io 1) ∷ [] })).1.contents
save-SaveLeaves_example =
    save-SaveLeaves toml {ssl = ssl} one_key none (works ∷ fails 3 (other_io 1) ∷ [])

new_key : get_key {ssl = ssl} public_key empty_agent ≡ none
unfolding run
new_key = refl

add_key-saved_example :
    ((add_key toml key_pair empty_agent).0 ≡ ok tt)
    × ((load_config toml ssl (add_key toml key_pair empty_agent).1.disk).0
        ≡ ok (add_key toml key_pair empty_agent).1.config)
    × ((add_key toml key_pair empty_agent).1.config ≡ with_key empty_agent key_pair)
add_key-saved_example =
    add_key-saved toml-laws {ssl = ssl} pem-laws key_pair empty_agent none refl new_key (refl, tt)
      (tt, tt)

-- The disk is full: the file cannot be created.
abbrev on_full_disk : Agent ssl
on_full_disk = record empty_agent {
  disk = record { contents = none; faults = fails 0 (other_io 28) ∷ [] };
}

new_on_full_disk : get_key {ssl = ssl} public_key on_full_disk ≡ none
unfolding run
new_on_full_disk = refl
