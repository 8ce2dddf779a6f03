-- ===== src/Connection/Transport.antt =====
-- src/utils.rs: `connection_handler` over any transport, as the source has it for every `ReadWrite`.
use ssh_keys.Base.{
  ℕ, zero, suc, ◌%◌, ◌^◌, Bytes, Option, some, none, Bool, true, false, length, ◌==◌, if◌then◌else◌,
}
use ssh_keys.Outcome.{Outcome, ok, err, panic}
use ssh_keys.Packages.{ByteOrder, Openssl}
use ssh_keys.Exec.{Exec, ◌>>=◌, ◌>>◌, pure}
use ssh_keys.Config.{Toml}
use ssh_keys.Agent.{Agent, User, RequestInfo, handle_request}
use ssh_keys.Connection.{is_closed, goes_on, finished}

-- What the loop calls of a transport: `read_exact` and `write_all`.
pub record ReadWrite (S : Type 0) : Type 0 where
  pub read_exact : ℕ → Exec S Bytes
  pub write_all : Bytes → Exec S (Unit {0})

-- A transport with the agent behind its mutex.
pub record Served (S : Type 0) (ssl : Openssl) : Type 0 where
  pub transport : S
  pub agent : Agent ssl
  pub poisoned : Bool

module _ {S : Type 0} {ssl : Openssl} where
  abbrev pub on_transport : {A : Type 0} → Exec S A → Exec (Served S ssl) A
  on_transport m s = ((m s.transport).0, record s { transport = (m s.transport).1 })

  abbrev pub released : Outcome Bytes → Agent ssl → Served S ssl → Outcome Bytes × Served S ssl
  released (ok resp) a s = (ok resp, record s { agent = a })
  released (err e) a s = (err e, record s { agent = a })
  released panic a s = (panic, record s { agent = a; poisoned = true })

-- The `match` on the length that was read: `none` where the loop returns.
abbrev pub nonzero : ℕ → Option ℕ
nonzero len = if len == 0 then none else some len

abbrev pub next_length : ByteOrder → Outcome Bytes → Outcome (Option ℕ)
next_length bo (ok bytes) = ok (nonzero (bo.u32_from_be bytes))
next_length bo (err e) = if is_closed e then ok none else err e
next_length bo panic = panic

module _ {S : Type 0} (rw_ : ReadWrite S) (bo : ByteOrder) (toml : Toml) {ssl : Openssl}
    (user : User ssl) (info : RequestInfo) where
  abbrev pub fetch_length : Exec (Served S ssl) (Option ℕ)
  fetch_length s = let (r, t) = on_transport (rw_.read_exact 4) s in (next_length bo r, t)

  abbrev pub locked_on : Bool → Bytes → Exec (Served S ssl) Bytes
  locked_on true buf s = (panic, s)
  locked_on false buf s =
      let (r, a) = handle_request bo toml user buf info s.agent in released r a s

  abbrev pub request_on : Bytes → Exec (Served S ssl) Bytes
  request_on buf s = locked_on s.poisoned buf s

  abbrev pub send_on : Bytes → Exec (Served S ssl) (Unit {0})
  send_on content = do
    on_transport (rw_.write_all (bo.u32_to_be (length content % 2 ^ 32)))
    on_transport (rw_.write_all content)

  abbrev pub serve_request_on : ℕ → Exec (Served S ssl) (Unit {0})
  serve_request_on len = do
    buf ← on_transport (rw_.read_exact len)
    resp ← request_on buf
    send_on resp

  abbrev pub round_of_on : Option ℕ → Exec (Served S ssl) Bool
  round_of_on none = pure false
  round_of_on (some len) = do serve_request_on len; pure true

  unfoldable pub round_on : Exec (Served S ssl) Bool
  round_on = do next ← fetch_length; round_of_on next

  -- connection_handler, on fuel; `none` if it runs out.
  unfoldable pub serve_on : ℕ → Served S ssl → Option (Outcome (Unit {0}) × Served S ssl)
  serve_on zero s = none
  serve_on (suc fuel) s =
      let (r, s') = round_on s in
      elim (goes_on r) [ true ↦ serve_on fuel s' | false ↦ some (finished r, s') ]
