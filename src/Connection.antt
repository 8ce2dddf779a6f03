-- ===== src/Connection.antt =====
-- src/utils.rs: the loop that serves one client, over the agent behind its mutex.
pub mod Total
pub mod Frames
pub mod Poison
pub mod Clients
pub mod Interleaving
pub mod Transport
pub mod Simulation
pub mod Plain
pub mod Refined
use ssh_keys.Base.{
  ℕ, zero, suc, ◌-◌, ◌%◌, ◌^◌, Bytes, Option, some, none, List, [], ◌∷◌, ◌++◌, Bool, true, false,
  length, take, ltb, leb, ◌==◌, if◌then◌else◌,
}
use ssh_keys.Outcome.{IoKind, unexpected_eof, broken_pipe, Outcome, ok, err, panic, Error, io}
use ssh_keys.Packages.{ByteOrder, Openssl}
use ssh_keys.Reader.{Input, read_exact}
use ssh_keys.Wire.{read_u32}
use ssh_keys.Exec.{Exec, and_then, ◌>>=◌, ◌>>◌, pure}
use ssh_keys.Config.{Toml}
use ssh_keys.Agent.{Agent, User, RequestInfo, handle_request}

-- The side that is written to. With a limit it takes so many bytes more, and then fails.
pub record Output : Type 0 where
  pub sent : Bytes
  pub limit : Option (ℕ × IoKind)

-- A `Mutex` is poisoned when its holder panicked; `lock().unwrap()` panics then.
pub record Session (ssl : Openssl) : Type 0 where
  pub input : Input
  pub output : Output
  pub agent : Agent ssl
  pub poisoned : Bool

abbrev pub sent_within : Output → Bytes → Option (ℕ × IoKind) → Outcome (Unit {0}) × Output
sent_within o bs none = (ok tt, record o { sent = o.sent ++ bs })
sent_within o bs (some (n, k)) =
    if leb (length bs) n
    then (ok tt, record { sent = o.sent ++ bs; limit = some (n - length bs, k) })
    else (err (io k), record { sent = o.sent ++ take n bs; limit = some (0, k) })

abbrev pub is_closed : Error → Bool
is_closed (io unexpected_eof) = true
is_closed (io broken_pipe) = true
is_closed _ = false

module _ {ssl : Openssl} where
  -- `write_all` on the connection.
  unfoldable pub send_all : Bytes → Exec (Session ssl) (Unit {0})
  send_all bs s =
      let (r, o) = sent_within s.output bs s.output.limit in (r, record s { output = o })

  -- `write_string` on the connection: two writes.
  unfoldable pub send_string : ByteOrder → Bytes → Exec (Session ssl) (Unit {0})
  unfolding send_all
  send_string bo content = do send_all (bo.u32_to_be (length content % 2 ^ 32)); send_all content

  -- A read from the connection.
  abbrev pub received {ℓ} : {A : Type ℓ} → Outcome (A × Input) → Exec (Session ssl) A
  received (ok (a, i)) s = (ok a, record s { input = i })
  received (err e) s = (err e, s)
  received panic s = (panic, s)

  -- The length of the next request; `none` where the loop returns.
  abbrev pub length_or_end : Outcome (ℕ × Input) → Exec (Session ssl) (Option ℕ)
  length_or_end (ok (len, i)) s = (ok (if len == 0 then none else some len), record s { input = i })
  length_or_end (err e) s = (if is_closed e then ok none else err e, s)
  length_or_end panic s = (panic, s)

  unfoldable pub receive : ℕ → Exec (Session ssl) Bytes
  receive len s = received (read_exact len s.input) s

  -- The mutex after a call: a panic poisons it.
  abbrev pub unlocked : Outcome Bytes → Agent ssl → Session ssl → Outcome Bytes × Session ssl
  unlocked (ok resp) a s = (ok resp, record s { agent = a })
  unlocked (err e) a s = (err e, record s { agent = a })
  unlocked panic a s = (panic, record s { agent = a; poisoned = true })

-- What the end of a round says of the loop: its result, and whether there is another round.
abbrev pub finished : Outcome Bool → Outcome (Unit {0})
finished (ok b) = ok tt
finished (err e) = err e
finished panic = panic

abbrev pub goes_on : Outcome Bool → Bool
goes_on (ok b) = b
goes_on (err e) = false
goes_on panic = false

module _ (bo : ByteOrder) (toml : Toml) {ssl : Openssl} (user : User ssl) (info : RequestInfo) where
  abbrev pub locked : Bool → Bytes → Exec (Session ssl) Bytes
  locked true buf s = (panic, s)
  locked false buf s = let (r, a) = handle_request bo toml user buf info s.agent in unlocked r a s

  -- `agent.lock().unwrap()` and `handle_request`, with the lock dropped after it.
  unfoldable pub locked_request : Bytes → Exec (Session ssl) Bytes
  locked_request buf s = locked s.poisoned buf s

  -- A request that has been read is handled, and its reply is sent.
  unfoldable pub answer_request : Bytes → Exec (Session ssl) (Unit {0})
  answer_request buf = do resp ← locked_request buf; send_string bo resp

  -- The request of the length that was read.
  unfoldable pub serve_request : ℕ → Exec (Session ssl) (Unit {0})
  serve_request len = do buf ← receive len; answer_request buf

  -- One round of the loop: `false` where it returns.
  abbrev pub round_of : Option ℕ → Exec (Session ssl) Bool
  round_of none = pure false
  round_of (some len) = do serve_request len; pure true

  abbrev pub round_after : Outcome (ℕ × Input) → Exec (Session ssl) Bool
  round_after r = do next ← length_or_end r; round_of next

  unfoldable pub round : Exec (Session ssl) Bool
  round s = round_after (read_u32 bo s.input) s

  -- connection_handler, on fuel; `none` if it runs out.
  unfoldable pub serve : ℕ → Session ssl → Option (Outcome (Unit {0}) × Session ssl)
  serve zero s = none
  serve (suc fuel) s =
      let (r, s') = round s in
      elim (goes_on r) [ true ↦ serve fuel s' | false ↦ some (finished r, s') ]

  -- A round that goes on has taken four bytes at least.
  unfoldable pub connection_handler : Session ssl → Option (Outcome (Unit {0}) × Session ssl)
  connection_handler s = serve (suc (length s.input.bytes)) s
