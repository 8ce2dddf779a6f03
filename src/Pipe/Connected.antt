-- ===== src/Pipe/Connected.antt =====
-- src/platform/win/pipe.rs and src/utils.rs: `connection_handler` on a named pipe.
use ssh_keys.Base.{
  Bool, ℕ, suc, ◌≡◌, refl, sym, ap, ◌∙◌, Bytes, Option, some, none, ◌++◌, length, All,
}
use mathlib.Core.Path.{subst}
use ssh_keys.Outcome.{Outcome, ok, err, panic}
use ssh_keys.Packages.{ByteOrder, Openssl}
use ssh_keys.Reader
use ssh_keys.Reader.{Input}
use ssh_keys.Config.{Toml}
use ssh_keys.Agent.{Agent, User, RequestInfo}
use ssh_keys.Connection.{Session, Output, connection_handler}
use ssh_keys.Connection.Transport.{ReadWrite, Served, serve_on}
use ssh_keys.Connection.Simulation.{Simulates, Simulation, Alike}
use ssh_keys.Connection.Plain.{plain, read_plain, served}
use ssh_keys.Connection.Refined.{serve_on-SameLoop}
use ssh_keys.Pipe.{Pipe, read_exact_loop, write_all_loop}
use ssh_keys.Pipe.Transfer.{concat, flat, flat_result, IsPiece, Keeps, read_exact_loop-Keeps}
use ssh_keys.Pipe.Sending.{Progress, write_all_loop-Sends}

-- The result of a read or a write, and the pipe; a loop always ends within the fuel.
-- After an error the pipe is as it was before, whatever was transferred, since it is not used again.
abbrev after_read : Pipe → Option (Outcome (Bytes × Pipe)) → Outcome Bytes × Pipe
after_read p (some (ok (bytes, q))) = (ok bytes, q)
after_read p (some (err e)) = (err e, p)
after_read p (some panic) = (panic, p)
after_read p none = (panic, p)

abbrev after_write : Pipe → Option (Outcome Pipe) → Outcome (Unit {0}) × Pipe
after_write p (some (ok q)) = (ok tt, q)
after_write p (some (err e)) = (err e, p)
after_write p (some panic) = (panic, p)
after_write p none = (panic, p)

-- <Pipe as ReadWrite>
abbrev pub pipe_read_write : ReadWrite Pipe
pipe_read_write = record {
  read_exact = λ n p. after_read p (read_exact_loop n n p);
  write_all = λ bs p. after_write p (write_all_loop (length bs) bs p);
}

-- The pipe, and the bytes that are to come and that were sent, whatever the pieces.
pub record IsPipe (p : Pipe) (io : Input × Output) : Type 0 where
  pub pieces : All IsPiece p.incoming
  pub progress : All Progress p.calls
  pub to_come : flat p ≡ io.0
  pub sent : p.outgoing ≡ io.1.sent
  pub unlimited : io.1.limit ≡ none

after_read-IsPipe :
    (p : Pipe) (i : Input) (o : Output)
    → IsPipe p (i, o)
    → (r : Outcome (Bytes × Pipe)) (m : Outcome (Bytes × Input)) → flat_result r ≡ m
    → Keeps p r
    → ((after_read p (some r)).0 ≡ (read_plain m i o).0)
      × IsPipe (after_read p (some r)).1 (read_plain m i o).1
after_read-IsPipe p i o h (ok (bytes, q)) m e (pieces, calls, sent) = rw (sym e) (
  refl,
  record {
    pieces = pieces;
    progress = subst (All Progress) (sym calls) h.progress;
    to_come = refl;
    sent = sent ∙ h.sent;
    unlimited = h.unlimited;
  },
)
after_read-IsPipe p i o h (err x) m e kept = rw (sym e) (refl, h)
after_read-IsPipe p i o h panic m e kept = rw (sym e) (refl, h)

reads_bytes : (n : ℕ) → Simulates IsPipe (pipe_read_write.read_exact n) (plain.read_exact n)
reads_bytes n p (i, o) h =
    let (r, e, same, kept) = read_exact_loop-Keeps n p h.pieces in
    rw e (
      after_read-IsPipe p i o h r (Reader.read_exact n i)
        (same ∙ ap (Reader.read_exact n) h.to_come) kept)

writes_bytes : (bs : Bytes) → Simulates IsPipe (pipe_read_write.write_all bs) (plain.write_all bs)
writes_bytes bs p (i, o) h =
    let (q, e, sent, kept, ending, calls) = write_all_loop-Sends bs p h.progress in
    let same : flat q ≡ flat p = λ j. record { bytes = concat (kept j); ending = ending j } in
    rw (e, h.unlimited)
      (
        refl,
        record {
          pieces = subst (All IsPiece) (sym kept) h.pieces;
          progress = calls;
          to_come = same ∙ h.to_come;
          sent = sent ∙ ap (λ t. t ++ bs) h.sent;
          unlimited = refl;
        },
      )

IsPipe-Simulation : Simulation IsPipe pipe_read_write plain
IsPipe-Simulation = record { reads = reads_bytes; writes = writes_bytes }

-- A pipe at the start of a connection, with the agent.
abbrev pub on_pipe : {ssl : Openssl} → Pipe → Agent ssl → Bool → Served Pipe ssl
on_pipe p a poisoned = record { transport = p; agent = a; poisoned = poisoned }

-- The session with the pipe's bytes in one row, whose writes never fail.
abbrev pub flat_session : {ssl : Openssl} → Pipe → Agent ssl → Bool → Session ssl
flat_session p a poisoned = record {
  input = flat p;
  output = record { sent = p.outgoing; limit = none };
  agent = a;
  poisoned = poisoned;
}

module _ (bo : ByteOrder) (toml : Toml) {ssl : Openssl} (user : User ssl) (info : RequestInfo) where
  -- connection_handler on a pipe, with one more round than there are bytes to read.
  unfoldable pub handle_pipe : Served Pipe ssl → Option (Outcome (Unit {0}) × Served Pipe ssl)
  handle_pipe s =
      serve_on pipe_read_write bo toml user info (suc (length (flat s.transport).bytes)) s

  -- The loop on a pipe ends, and as the loop on the pipe's bytes in one row does.
  abbrev pub SamePipe : Pipe → Agent ssl → Bool → Type 0
  SamePipe p a poisoned =
      (r : Outcome (Unit {0})) × (s : Served Pipe ssl) × (t : Session ssl) × (handle_pipe
          (on_pipe p a poisoned)
        ≡ some (r, s))
      × (connection_handler bo toml user info (flat_session p a poisoned) ≡ some (r, t))
      × (s.transport.outgoing ≡ t.output.sent)
      × (flat s.transport ≡ t.input)
      × (s.agent ≡ t.agent)
      × (s.poisoned ≡ t.poisoned)

  -- On a pipe of which no piece is empty, and on which every call of WriteFile takes at least one byte,
  -- `connection_handler` ends, and does what it does on a session with the pipe's bytes in one row: it
  -- has the same outcome, sends the same bytes, leaves the same bytes unread (those before a read that
  -- failed, if one did), and leaves the agent and its mutex in the same state.
  pub handle_pipe-connection_handler :
      (p : Pipe) (a : Agent ssl) (poisoned : Bool)
      → All IsPiece p.incoming
      → All Progress p.calls
      → SamePipe p a poisoned
  unfolding handle_pipe
  handle_pipe-connection_handler p a poisoned pieces progress =
      let alike : Alike IsPipe (on_pipe p a poisoned) (served (flat_session p a poisoned)) =
        record {
          transports = record {
            pieces = pieces;
            progress = progress;
            to_come = refl;
            sent = refl;
            unlimited = refl;
          };
          agents = refl;
          poisons = refl;
        } in
      let (r, s, t, h, e, l) =
        serve_on-SameLoop IsPipe-Simulation bo toml user info (on_pipe p a poisoned)
          (flat_session p a poisoned) alike in
      (r, s, t, h, e, l.transports.sent, l.transports.to_come, l.agents, l.poisons)
