-- ===== src/Examples/Requests.antt =====
-- Requests to the agent.
use ssh_keys.Base.{Bytes, refl, ◌≡◌, [], ◌∷◌, some, map, arith}
use ssh_keys.Outcome.{ok}
use ssh_keys.Packages.Model.{byteorder-laws, bignum-laws}
use ssh_keys.Config.Model.{toml}
use ssh_keys.Agent.{handle_request, get_key}
use ssh_keys.Agent.Replies.{identities}
use ssh_keys.Agent.Forms.{FormFor, handle_request-Form}
use ssh_keys.Agent.Effects.{Effect, handle_request-Effect}
use ssh_keys.Agent.Consent.{Consented, handle_request-Consented}
use ssh_keys.Agent.Invariant.{IsSound, handle_all, handle_all-IsSound}
use ssh_keys.Agent.Identities.{client_identities, listing, IsListable, client_identities-identities}
use ssh_keys.Examples.Values.{
  bo, ssl, user, info, key_pair, public_key, agent, sign_request, list_request,
}
use ssh_keys.Examples.Run.{run}

abbrev pub signature_reply : Bytes
signature_reply =
    0 ∷ 0 ∷ 0 ∷ 24 ∷ 0 ∷ 0 ∷ 0 ∷ 12 ∷ 114 ∷ 115 ∷ 97 ∷ 45 ∷ 115 ∷ 104 ∷ 97 ∷ 50 ∷ 45 ∷ 50 ∷ 53 ∷ 54
    ∷ 0 ∷ 0 ∷ 0 ∷ 4 ∷ 2 ∷ 3 ∷ 7 ∷ 8 ∷ []

-- The digest's number is 2, for SHA-256, and the exponent of the key is 3.
pub signs :
    (handle_request bo toml {ssl = ssl} user sign_request info agent).0 ≡ ok (14 ∷ signature_reply)
unfolding run
signs = refl

handle_request-Consented_example :
    Consented bo {ssl = ssl} user sign_request info agent
      (handle_request bo toml {ssl = ssl} user sign_request info agent).1
      signature_reply
handle_request-Consented_example =
    handle_request-Consented bo toml {ssl = ssl} user sign_request info agent signature_reply signs

handle_request-Form_example : FormFor bo sign_request (14 ∷ signature_reply)
handle_request-Form_example =
    handle_request-Form bo toml {ssl = ssl} user sign_request info agent (14 ∷ signature_reply)
      signs

handle_request-Effect_example :
    Effect {ssl = ssl} agent (handle_request bo toml {ssl = ssl} user sign_request info agent).1
handle_request-Effect_example =
    handle_request-Effect bo toml {ssl = ssl} user sign_request info agent

pub agent-IsSound : IsSound {ssl = ssl} agent
agent-IsSound = record { consistent = (refl, tt); distinct = (tt, tt) }

handle_all-IsSound_example :
    IsSound
      (handle_all bo toml {ssl = ssl} user ((sign_request, info) ∷ (list_request, info) ∷ []) agent)
handle_all-IsSound_example =
    handle_all-IsSound bo toml {ssl = ssl} user bignum-laws
      ((sign_request, info) ∷ (list_request, info) ∷ []) agent agent-IsSound

finds : get_key {ssl = ssl} public_key agent ≡ some (key_pair, 0)
unfolding run
finds = refl

listable : IsListable {ssl = ssl} key_pair
unfolding run
listable = (((λ e. cc, omega arith), (λ e. cc, omega arith)), omega arith, omega arith)

client_identities-identities_example :
    (reply : Bytes) × (identities bo {ssl = ssl} (key_pair ∷ []) ≡ ok reply)
    × (client_identities bo ssl reply ≡ ok (map listing (key_pair ∷ [])))
client_identities-identities_example =
    client_identities-identities byteorder-laws {ssl = ssl} bignum-laws (key_pair ∷ [])
      (listable, tt) (omega arith)
