-- ===== src/Connection/Clients.antt =====
-- src/utils.rs: several clients at once, each in its own thread with its own connection, over one
-- agent behind its mutex. A thread's reads and writes touch its connection only, and the mutex is
-- held for one call of `handle_request`, so that the steps of the threads interleave at these.
use ssh_keys.Base.{ℕ, zero, suc, Bytes, Option, some, none, List, [], ◌∷◌, Bool}
use ssh_keys.Outcome.{Outcome, ok, err, panic}
use ssh_keys.Packages.{ByteOrder, Openssl}
use ssh_keys.Reader.{Input}
use ssh_keys.Wire.{read_u32}
use ssh_keys.Exec.{Exec, ◌>>=◌, pure}
use ssh_keys.Config.{Toml}
use ssh_keys.Agent.{Agent, User, RequestInfo}
use ssh_keys.Connection.{Session, Output, length_or_end, receive, locked_request, send_string}

-- Where a client's thread is in the loop of `connection_handler`.
pub data Phase : Type 0 where
  reading : Phase
  requested : Bytes → Phase
  replying : Bytes → Phase
  left : Outcome (Unit {0}) → Phase

pub record Client : Type 0 where
  pub input : Input
  pub output : Output
  pub info : RequestInfo
  pub phase : Phase

-- What the threads share.
pub record Shared (ssl : Openssl) : Type 0 where
  pub agent : Agent ssl
  pub poisoned : Bool

abbrev pub session : {ssl : Openssl} → Client → Shared ssl → Session ssl
session c sh = record {
  input = c.input;
  output = c.output;
  agent = sh.agent;
  poisoned = sh.poisoned;
}

abbrev pub put_back : {ssl : Openssl} → Client → Phase → Session ssl → Client × Shared ssl
put_back c phase s = (
  record { input = s.input; output = s.output; info = c.info; phase = phase },
  record { agent = s.agent; poisoned = s.poisoned },
)

abbrev pub after_fetch : Outcome (Option Bytes) → Phase
after_fetch (ok none) = left (ok tt)
after_fetch (ok (some buf)) = requested buf
after_fetch (err e) = left (err e)
after_fetch panic = left panic

abbrev pub after_request : Outcome Bytes → Phase
after_request (ok resp) = replying resp
after_request (err e) = left (err e)
after_request panic = left panic

abbrev pub after_send : Outcome (Unit {0}) → Phase
after_send (ok sent) = reading
after_send (err e) = left (err e)
after_send panic = left panic

module _ {ssl : Openssl} where
  abbrev pub fetch_request : Option ℕ → Exec (Session ssl) (Option Bytes)
  fetch_request none = pure none
  fetch_request (some len) = do buf ← receive len; pure (some buf)

  -- The reads of one round.
  unfoldable pub fetch : ByteOrder → Exec (Session ssl) (Option Bytes)
  fetch bo s = (length_or_end (read_u32 bo s.input) >>= fetch_request) s

module _ (bo : ByteOrder) (toml : Toml) {ssl : Openssl} (user : User ssl) where
  abbrev pub step_in : Phase → Client → Shared ssl → Client × Shared ssl
  step_in reading c sh = let (r, s) = fetch bo (session c sh) in put_back c (after_fetch r) s
  step_in (requested buf) c sh =
      let (r, s) = locked_request bo toml user c.info buf (session c sh) in
      put_back c (after_request r) s
  step_in (replying resp) c sh =
      let (r, s) = send_string bo resp (session c sh) in put_back c (after_send r) s
  step_in (left r) c sh = (c, sh)

  -- The next step of a client's thread.
  unfoldable pub client_step : Client → Shared ssl → Client × Shared ssl
  client_step c sh = step_in c.phase c sh

  -- The step of the client at a place.
  unfoldable pub step_at : ℕ → List Client → Shared ssl → List Client × Shared ssl
  step_at place [] sh = ([], sh)
  step_at zero (c ∷ cs) sh = let (c', sh') = client_step c sh in (c' ∷ cs, sh')
  step_at (suc place) (c ∷ cs) sh = let (cs', sh') = step_at place cs sh in (c ∷ cs', sh')

  -- A schedule: the place of the client whose thread runs next, for each step.
  unfoldable pub run_clients : List ℕ → List Client → Shared ssl → List Client × Shared ssl
  run_clients [] cs sh = (cs, sh)
  run_clients (place ∷ places) cs sh =
      let (cs', sh') = step_at place cs sh in run_clients places cs' sh'
