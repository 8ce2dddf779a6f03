-- ===== src/Examples/Sessions.antt =====
-- Sessions of clients.
use ssh_keys.Base.{Bytes, refl, ◌≡◌, [], ◌∷◌, ◌++◌, some, true, inl, arith}
use ssh_keys.Outcome.{Outcome, ok, panic, unexpected_eof}
use ssh_keys.Packages.Model.{byteorder-laws}
use ssh_keys.Config.Model.{toml}
use ssh_keys.Key.Import.{message}
use ssh_keys.Agent.Codes
use ssh_keys.Connection.{Session, connection_handler, locked_request}
use ssh_keys.Connection.Total.{connection_handler_total}
use ssh_keys.Connection.Frames.{
  Answers, done, next, open_session, frames, connection_handler-Answers,
}
use ssh_keys.Connection.Poison.{add_request_poisons}
use ssh_keys.Examples.Values.{bo, ssl, user, info, agent, list_request}
use ssh_keys.Examples.Fields.{add_message, no_remainder}
use ssh_keys.Examples.Run.{run}

abbrev pub listed : Bytes
listed =
    12 ∷ 0 ∷ 0 ∷ 0 ∷ 1 ∷ 0 ∷ 0 ∷ 0 ∷ 21 ∷ 0 ∷ 0 ∷ 0 ∷ 7 ∷ 115 ∷ 115 ∷ 104 ∷ 45 ∷ 114 ∷ 115 ∷ 97 ∷ 0
    ∷ 0 ∷ 0 ∷ 1 ∷ 3 ∷ 0 ∷ 0 ∷ 0 ∷ 1 ∷ 15 ∷ 0 ∷ 0 ∷ 0 ∷ 2 ∷ 109 ∷ 101 ∷ []

lists : Answers bo toml {ssl = ssl} user info agent (list_request ∷ []) (listed ∷ []) agent
unfolding run
lists = next refl done

connection_handler-Answers_example :
    (t : Session ssl) × (connection_handler bo toml user info
        (open_session (frames bo (list_request ∷ []) ++ []) unexpected_eof [] agent)
      ≡ some (ok tt, t))
    × (t.output.sent ≡ frames bo (listed ∷ []))
    × (t.agent ≡ agent)
connection_handler-Answers_example =
    connection_handler-Answers byteorder-laws toml {ssl = ssl} user info (list_request ∷ [])
      (listed ∷ []) [] [] unexpected_eof agent agent (omega arith) lists (inl (omega arith, refl))

abbrev start : Session ssl
start = open_session (1 ∷ 2 ∷ 3 ∷ []) unexpected_eof [] agent

connection_handler_total_example :
    (r : Outcome (Unit {0})) × (t : Session ssl) × (connection_handler bo toml user info start
      ≡ some (r, t))
connection_handler_total_example = connection_handler_total bo toml {ssl = ssl} user info start

add_request_poisons_example :
    let buf = Codes.add_identity ∷ message bo (add_message 1) [] in
    let t = (locked_request bo toml user info buf start).1 in
    ((locked_request bo toml user info buf start).0 ≡ panic)
    × (t.poisoned ≡ true)
    × (locked_request bo toml user info list_request t ≡ (panic, t))
add_request_poisons_example =
    add_request_poisons byteorder-laws toml {ssl = ssl} user (add_message 1) 1 refl no_remainder
      info info list_request start refl
