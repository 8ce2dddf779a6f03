-- ===== src/Pageant/Buffer.antt =====
-- src/platform/win/pageant/mod.rs: `BufReadWrite`, a cursor over the mapping and a vector for the replies.
use ssh_keys.Base.{
  ℕ, suc, ◌≡◌, refl, sym, ap, ◌∙◌, Bytes, Option, some, none, [], ◌++◌, length, Bool,
}
use ssh_keys.Outcome.{Outcome, ok, err, panic, unexpected_eof}
use ssh_keys.Packages.{ByteOrder, Openssl}
use ssh_keys.Reader.{Input, read_exact, read_exact_inv}
use ssh_keys.Config.{Toml}
use ssh_keys.Agent.{Agent, User, RequestInfo}
use ssh_keys.Connection.{Session, Output, connection_handler}
use ssh_keys.Connection.Transport.{ReadWrite, Served, serve_on}
use ssh_keys.Connection.Simulation.{Simulates, Simulation, Alike}
use ssh_keys.Connection.Plain.{plain, read_plain, served}
use ssh_keys.Connection.Refined.{serve_on-SameLoop}
use ssh_keys.Pageant.{session}

-- `req` is the rest of the mapping.
pub record BufReadWrite : Type 0 where
  pub req : Bytes
  pub resp : Bytes

abbrev rest_of : Outcome (Bytes × Input) → BufReadWrite → Outcome Bytes × BufReadWrite
rest_of (ok (bytes, rest)) b = (ok bytes, record b { req = rest.bytes })
rest_of (err e) b = (err e, b)
rest_of panic b = (panic, b)

-- A write to a vector appends, and does not fail.
abbrev pub buf_read_write : ReadWrite BufReadWrite
buf_read_write = record {
  read_exact = λ n b. rest_of (read_exact n (record { bytes = b.req; ending = unexpected_eof })) b;
  write_all = λ bs b. (ok tt, record b { resp = b.resp ++ bs });
}

pub record IsBuffer (b : BufReadWrite) (io : Input × Output) : Type 0 where
  pub to_come : io.0 ≡ record { bytes = b.req; ending = unexpected_eof }
  pub sent : b.resp ≡ io.1.sent
  pub unlimited : io.1.limit ≡ none

module _ (b : BufReadWrite) (o : Output) where
  rest_of-IsBuffer :
      (n : ℕ) (i : Input) (r : Outcome (Bytes × Input))
      → IsBuffer b (i, o)
      → read_exact n i ≡ r
      → ((rest_of r b).0 ≡ (read_plain r i o).0) × IsBuffer (rest_of r b).1 (read_plain r i o).1
  rest_of-IsBuffer n i (ok (bytes, rest)) h e =
      let (_, _, kept) = read_exact_inv n i bytes rest e in
      let ending = kept ∙ ap (λ t. t.ending) h.to_come in
      (
        refl,
        record {
          to_come = λ j. record { bytes = rest.bytes; ending = ending j };
          sent = h.sent;
          unlimited = h.unlimited;
        },
      )
  rest_of-IsBuffer n i (err x) h e = (refl, h)
  rest_of-IsBuffer n i panic h e = (refl, h)

reads_rest : (n : ℕ) → Simulates IsBuffer (buf_read_write.read_exact n) (plain.read_exact n)
reads_rest n b (i, o) h =
    rw (ap (read_exact n) (sym h.to_come)) (rest_of-IsBuffer b o n i (read_exact n i) h refl)

appends : (bs : Bytes) → Simulates IsBuffer (buf_read_write.write_all bs) (plain.write_all bs)
appends bs b (i, o) h =
    rw h.unlimited
      (refl, record { to_come = h.to_come; sent = ap (λ t. t ++ bs) h.sent; unlimited = refl })

IsBuffer-Simulation : Simulation IsBuffer buf_read_write plain
IsBuffer-Simulation = record { reads = reads_rest; writes = appends }

module _ (bo : ByteOrder) (toml : Toml) {ssl : Openssl} (user : User ssl) where
  -- connection_handler on the mapping, with one more round than it has bytes.
  unfoldable pub handle_buffer :
      RequestInfo → Bytes → Agent ssl → Bool → Option (Outcome (Unit {0}) × Served BufReadWrite ssl)
  handle_buffer info mapping a poisoned =
      serve_on buf_read_write bo toml user info (suc (length mapping))
        (record { transport = record { req = mapping; resp = [] }; agent = a; poisoned = poisoned })

  -- The loop on a mapping ends: it has the same outcome and the same replies as the loop on the session of
  -- the mapping's bytes, and leaves the agent and its mutex in the same state.
  pub handle_buffer-connection_handler :
      (info : RequestInfo) (mapping : Bytes) (a : Agent ssl) (poisoned : Bool)
      → (r : Outcome (Unit {0})) × (s : Served BufReadWrite ssl) × (t : Session ssl)
        × (handle_buffer info mapping a poisoned ≡ some (r, s))
        × (connection_handler bo toml user info (session mapping a poisoned) ≡ some (r, t))
        × (s.transport.resp ≡ t.output.sent)
        × (s.agent ≡ t.agent)
        × (s.poisoned ≡ t.poisoned)
  unfolding handle_buffer
  handle_buffer-connection_handler info mapping a poisoned =
      let start : Served BufReadWrite ssl = record {
        transport = record { req = mapping; resp = [] };
        agent = a;
        poisoned = poisoned;
      } in
      let alike : Alike IsBuffer start (served (session mapping a poisoned)) = record {
        transports = record { to_come = refl; sent = refl; unlimited = refl };
        agents = refl;
        poisons = refl;
      } in
      let (r, s, t, h, e, l) =
        serve_on-SameLoop IsBuffer-Simulation bo toml user info start (session mapping a poisoned)
          alike in
      (r, s, t, h, e, l.transports.sent, l.agents, l.poisons)
