-- ===== src/Examples/Threads.antt =====
-- Two clients, whose threads take turns.
use ssh_keys.Base.{true, false, none, [], ◌∷◌}
use ssh_keys.Outcome.{unexpected_eof}
use ssh_keys.Packages.Model.{bignum-laws}
use ssh_keys.Config.Model.{toml}
use ssh_keys.Wire.{write_string}
use ssh_keys.Agent.Invariant.{IsSound}
use ssh_keys.Connection.Clients.{Client, reading, requested, Shared, run_clients}
use ssh_keys.Connection.Interleaving.{run_clients-IsSound}
use ssh_keys.Examples.Values.{bo, ssl, user, info, agent, sign_request, list_request}
use ssh_keys.Examples.Requests.{agent-IsSound}

abbrev lister : Client
lister = record {
  input = record { bytes = write_string bo [] list_request; ending = unexpected_eof };
  output = record { sent = []; limit = none };
  info = info;
  phase = reading;
}

abbrev signer : Client
signer = record {
  input = record { bytes = []; ending = unexpected_eof };
  output = record { sent = []; limit = none };
  info = info;
  phase = requested sign_request;
}

abbrev shared : Shared ssl
shared = record { agent = agent; poisoned = false }

abbrev poisoned : Shared ssl
poisoned = record { agent = agent; poisoned = true }

run_clients-IsSound_example :
    IsSound
      (run_clients bo toml user (0 ∷ 1 ∷ 0 ∷ 0 ∷ 1 ∷ []) (lister ∷ signer ∷ []) shared).1.agent
run_clients-IsSound_example =
    run_clients-IsSound bo toml user bignum-laws (0 ∷ 1 ∷ 0 ∷ 0 ∷ 1 ∷ []) (lister ∷ signer ∷ [])
      shared agent-IsSound
