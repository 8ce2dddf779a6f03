-- ===== src/Examples/Pipes.antt =====
-- A pipe that transfers pieces, and clients of the listener.
use ssh_keys.Base.{◌≡◌, refl, arith, true, false, [], ◌∷◌, ◌++◌, Bytes, none, some}
use ssh_keys.Outcome.{ok, Error, broken_pipe}
use ssh_keys.Text.{ascii, is_utf8}
use ssh_keys.Pipe.{Pipe, takes}
use ssh_keys.Pipe.Sending.{some_bytes}
use ssh_keys.Pipe.Connected.{SamePipe, handle_pipe-connection_handler}
use ssh_keys.Config.Model.{toml}
use ssh_keys.Pipe.Listener.{
  Round, error_pipe_connected, accept, listen_named_pipe, after_listener, exit_with_box, client,
  nobody, client_requester, listen_named_pipe-early,
}
use ssh_keys.Examples.Values.{bo, ssl, user, info, agent}
use ssh_keys.Examples.Processes.{windows}

-- Seven bytes in three pieces, and calls that take one byte and three.
abbrev pieces : Pipe
pieces = record {
  incoming = (1 ∷ 2 ∷ []) ∷ (3 ∷ []) ∷ (4 ∷ 5 ∷ 6 ∷ 7 ∷ []) ∷ [];
  ending = broken_pipe;
  outgoing = 9 ∷ [];
  calls = takes 1 ∷ takes 3 ∷ [];
}

-- A request for the identities, in two pieces.
abbrev framed : Pipe
framed = record pieces { incoming = (0 ∷ 0 ∷ []) ∷ (0 ∷ 1 ∷ 11 ∷ []) ∷ [] }

handle_pipe-connection_handler_example : SamePipe bo toml {ssl = ssl} user info framed agent false
handle_pipe-connection_handler_example =
    handle_pipe-connection_handler bo toml {ssl = ssl} user info framed agent false
      (omega arith, (omega arith, tt)) (some_bytes 0, (some_bytes 2, tt))

-- The texts of the system end with a line break.
abbrev message : Bytes
message = ascii "There is a process on other end of the pipe." ++ (13 ∷ 10 ∷ [])

abbrev connected : Round
connected = record {
  created = true;
  create_error = 0;
  connected = true;
  connect_error = 0;
  client_process_id = none;
}

abbrev early : Round
early = record connected { connected = false; connect_error = error_pipe_connected }

accepted : accept (λ code. message) windows 3 false connected ≡ some (ok info)
unfolding accept client_requester
accepted = refl

valid : is_utf8 message ≡ true
unfolding is_utf8
valid = refl

listen_named_pipe-early_example :
    let l =
      listen_named_pipe (λ code. message) windows 3 false (connected ∷ early ∷ connected ∷ []) in
    (l.started ≡ info ∷ [])
    × ((e : Error) × (after_listener "listen_named_pipe" l.ended ≡ exit_with_box e))
listen_named_pipe-early_example =
    listen_named_pipe-early (λ code. message) windows 3 false (connected ∷ []) (info ∷ []) early
      (connected ∷ []) (client accepted nobody) refl refl refl
      (record {
        valid = valid;
        line = ascii "There is a process on other end of the pipe.";
        breaks = refl;
      })
