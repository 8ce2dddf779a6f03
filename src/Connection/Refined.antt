-- ===== src/Connection/Refined.antt =====
-- src/utils.rs: a transport that does what the bytes that are to come do, and the loop on it.
use ssh_keys.Base.{suc, ◌≡◌, ap, ◌∙◌, Option, some, length}
use mathlib.Core.Path.{subst}
use ssh_keys.Outcome.{Outcome}
use ssh_keys.Packages.{ByteOrder, Openssl}
use ssh_keys.Reader.{Input}
use ssh_keys.Config.{Toml}
use ssh_keys.Agent.{User, RequestInfo}
use ssh_keys.Connection.{Session, Output, connection_handler}
use ssh_keys.Connection.Transport.{ReadWrite, Served, serve_on}
use ssh_keys.Connection.Simulation.{Simulation, Alike, SameEnd, same_end, serve_on-SameEnd}
use ssh_keys.Connection.Plain.{plain, served, end_served, serve_on-served}
use ssh_keys.Connection.Total.{connection_handler_total}

module _ {S : Type 0} (R : S → Input × Output → Type 0) (v : ReadWrite S) (bo : ByteOrder)
    (toml : Toml) {ssl : Openssl} (user : User ssl) (info : RequestInfo) where
  -- The loop on a transport ends, and as the loop on a session does.
  abbrev pub SameLoop : Served S ssl → Session ssl → Type 0
  SameLoop p x =
      (r : Outcome (Unit {0})) × (s : Served S ssl) × (t : Session ssl) × (serve_on v bo toml user
          info (suc (length x.input.bytes)) p
        ≡ some (r, s))
      × (connection_handler bo toml user info x ≡ some (r, t))
      × Alike R s (served t)

module _ {S : Type 0} {R : S → Input × Output → Type 0} {ssl : Openssl} where
  end-Alike :
      (x : Option (Outcome (Unit {0}) × Served S ssl)) (r : Outcome (Unit {0})) (t : Session ssl)
      → SameEnd R x (some (r, served t))
      → (s : Served S ssl) × (x ≡ some (r, s)) × Alike R s (served t)
  end-Alike x r t (same_end {s = s} e l) = (s, ap (λ q. some (q, s)) e, l)

  -- The loop on a transport that does what a session's bytes do is the session's loop.
  pub serve_on-SameLoop :
      {v : ReadWrite S} (sim : Simulation R v plain) (bo : ByteOrder) (toml : Toml)
      (user : User ssl) (info : RequestInfo) (p : Served S ssl) (x : Session ssl)
      → Alike R p (served x)
      → SameLoop R v bo toml user info p x
  unfolding connection_handler
  serve_on-SameLoop {v = v} sim bo toml user info p x alike =
      let fuel = suc (length x.input.bytes) in
      let (r, t, e) = connection_handler_total bo toml user info x in
      let plain_end : serve_on plain bo toml user info fuel (served x) ≡ some (r, served t) =
        serve_on-served bo toml user info fuel x ∙ ap end_served e in
      let (s, h, l) = end-Alike (serve_on v bo toml user info fuel p) r t (
        subst (SameEnd R (serve_on v bo toml user info fuel p)) plain_end
          (serve_on-SameEnd sim bo toml user info fuel p (served x) alike)) in
      (r, s, t, h, e, l)
