-- ===== src/Connection/Simulation.antt =====
-- src/utils.rs: two transports that do the same give `connection_handler` the same.
use ssh_keys.Base.{
  ℕ, zero, suc, ◌%◌, ◌^◌, ◌≡◌, refl, sym, ap, Bytes, Option, some, none, Bool, true, false, length,
}
use ssh_keys.Outcome.{Outcome, ok, err, panic}
use ssh_keys.Packages.{ByteOrder, Openssl}
use ssh_keys.Exec.{Exec, and_then, ◌>>=◌, pure}
use ssh_keys.Config.{Toml}
use ssh_keys.Agent.{Agent, User, RequestInfo, handle_request}
use ssh_keys.Connection.{goes_on, finished}
use ssh_keys.Connection.Transport.{
  ReadWrite, Served, on_transport, released, next_length, fetch_length, locked_on, request_on,
  send_on, serve_request_on, round_of_on, round_on, serve_on,
}

-- From related states two actions have the same outcome, and lead to related states.
module _ {S T : Type 0} (R : S → T → Type 0) where
  abbrev pub Simulates : {A : Type 0} → Exec S A → Exec T A → Type 0
  Simulates m n = (s : S) (t : T) → R s t → ((m s).0 ≡ (n t).0) × R (m s).1 (n t).1

module _ {S T : Type 0} {R : S → T → Type 0} {A B : Type 0} where
  Simulates-and_then :
      (f : A → Exec S B) (g : A → Exec T B)
      → ((a : A) → Simulates R (f a) (g a))
      → (r q : Outcome A) (s : S) (t : T) → r ≡ q
      → R s t
      → ((and_then r s f).0 ≡ (and_then q t g).0) × R (and_then r s f).1 (and_then q t g).1
  Simulates-and_then f g k (ok a) q s t e h = rw (sym e) (k a s t h)
  Simulates-and_then f g k (err x) q s t e h = rw (sym e) (refl, h)
  Simulates-and_then f g k panic q s t e h = rw (sym e) (refl, h)

  pub Simulates-bind :
      (m : Exec S A) (n : Exec T A) (f : A → Exec S B) (g : A → Exec T B)
      → Simulates R m n
      → ((a : A) → Simulates R (f a) (g a))
      → Simulates R (m >>= f) (n >>= g)
  Simulates-bind m n f g first k s t h =
      let (e, later) = first s t h in
      Simulates-and_then f g k (m s).0 (n t).0 (m s).1 (n t).1 e later

-- A transport does what another one does.
pub record Simulation {S T : Type 0} (R : S → T → Type 0) (v : ReadWrite S) (w : ReadWrite T)
    : Type 0 where
  pub reads : (n : ℕ) → Simulates R (v.read_exact n) (w.read_exact n)
  pub writes : (bs : Bytes) → Simulates R (v.write_all bs) (w.write_all bs)

-- The transports are related, and the agents are the same.
pub record Alike {S T : Type 0} (R : S → T → Type 0) {ssl : Openssl} (s : Served S ssl)
    (t : Served T ssl) : Type 0 where
  pub transports : R s.transport t.transport
  pub agents : s.agent ≡ t.agent
  pub poisons : s.poisoned ≡ t.poisoned

module _ {S T : Type 0} {R : S → T → Type 0} {ssl : Openssl} where
  Simulates-on_transport :
      {A : Type 0} (m : Exec S A) (n : Exec T A)
      → Simulates R m n
      → Simulates (Alike R {ssl = ssl}) (on_transport m) (on_transport n)
  Simulates-on_transport m n h s t l =
      let (e, later) = h s.transport t.transport l.transports in
      (e, record { transports = later; agents = l.agents; poisons = l.poisons })

  released-Alike :
      (x y : Outcome Bytes × Agent ssl) (s : Served S ssl) (t : Served T ssl)
      → x ≡ y
      → Alike R s t
      → ((released x.0 x.1 s).0 ≡ (released y.0 y.1 t).0)
        × Alike R (released x.0 x.1 s).1 (released y.0 y.1 t).1
  released-Alike (ok resp, a) y s t e l =
      rw (sym e) (refl, record { transports = l.transports; agents = refl; poisons = l.poisons })
  released-Alike (err x, a) y s t e l =
      rw (sym e) (refl, record { transports = l.transports; agents = refl; poisons = l.poisons })
  released-Alike (panic, a) y s t e l =
      rw (sym e) (refl, record { transports = l.transports; agents = refl; poisons = refl })

-- The results of two loops: the outcome is the same, and the states are alike, or both run out of fuel.
pub data SameEnd {S T : Type 0} (R : S → T → Type 0) {ssl : Openssl}
    : Option (Outcome (Unit {0}) × Served S ssl)
      → Option (Outcome (Unit {0}) × Served T ssl)
      → Type 0 where
  no_end : SameEnd R none none
  same_end :
      {r q : Outcome (Unit {0})} {s : Served S ssl} {t : Served T ssl}
      → r ≡ q
      → Alike R s t
      → SameEnd R (some (r, s)) (some (q, t))

module _ {S T : Type 0} {R : S → T → Type 0} {v : ReadWrite S} {w : ReadWrite T}
    (sim : Simulation R v w) (bo : ByteOrder) (toml : Toml) {ssl : Openssl} (user : User ssl)
    (info : RequestInfo) where
  fetch_length-Simulates :
      Simulates (Alike R) (fetch_length v bo toml user info) (fetch_length w bo toml user info)
  fetch_length-Simulates s t l =
      let (e, later) =
        Simulates-on_transport (v.read_exact 4) (w.read_exact 4) (sim.reads 4) s t l in
      (ap (next_length bo) e, later)

  locked_on-Simulates :
      (b c : Bool) (buf : Bytes)
      → b ≡ c
      → Simulates
          (Alike R)
          (locked_on v bo toml user info b buf)
          (locked_on w bo toml user info c buf)
  locked_on-Simulates true c buf e s t l = rw (sym e) (refl, l)
  locked_on-Simulates false c buf e s t l = rw (sym e) (
      released-Alike (handle_request bo toml user buf info s.agent)
        (handle_request bo toml user buf info t.agent) s t
        (ap (handle_request bo toml user buf info) l.agents) l)

  request_on-Simulates :
      (buf : Bytes)
      → Simulates
          (Alike R)
          (request_on v bo toml user info buf)
          (request_on w bo toml user info buf)
  request_on-Simulates buf s t l = locked_on-Simulates s.poisoned t.poisoned buf l.poisons s t l

  send_on-Simulates :
      (content : Bytes)
      → Simulates
          (Alike R)
          (send_on v bo toml user info content)
          (send_on w bo toml user info content)
  send_on-Simulates content =
      let head = bo.u32_to_be (length content % 2 ^ 32) in
      Simulates-bind (on_transport (v.write_all head)) (on_transport (w.write_all head))
        (λ _. on_transport (v.write_all content)) (λ _. on_transport (w.write_all content))
        (Simulates-on_transport (v.write_all head) (w.write_all head) (sim.writes head))
        (λ _.
          Simulates-on_transport (v.write_all content) (w.write_all content) (sim.writes content))

  serve_request_on-Simulates :
      (len : ℕ)
      → Simulates
          (Alike R)
          (serve_request_on v bo toml user info len)
          (serve_request_on w bo toml user info len)
  serve_request_on-Simulates len =
      Simulates-bind (on_transport (v.read_exact len)) (on_transport (w.read_exact len)) _ _
        (Simulates-on_transport (v.read_exact len) (w.read_exact len) (sim.reads len))
        (λ buf.
          Simulates-bind (request_on v bo toml user info buf) (request_on w bo toml user info buf) _
            _ (request_on-Simulates buf) send_on-Simulates)

  round_of_on-Simulates :
      (next : Option ℕ)
      → Simulates
          (Alike R)
          (round_of_on v bo toml user info next)
          (round_of_on w bo toml user info next)
  round_of_on-Simulates none s t l = (refl, l)
  round_of_on-Simulates (some len) s t l =
      Simulates-bind (serve_request_on v bo toml user info len)
        (serve_request_on w bo toml user info len) (λ _. pure true) (λ _. pure true)
        (serve_request_on-Simulates len) (λ _ s t l. (refl, l)) s t l

  round_on-Simulates :
      Simulates (Alike R) (round_on v bo toml user info) (round_on w bo toml user info)
  unfolding round_on
  round_on-Simulates =
      Simulates-bind (fetch_length v bo toml user info) (fetch_length w bo toml user info) _ _
        fetch_length-Simulates round_of_on-Simulates

  serve_on_next :
      (fuel : ℕ) (x : Outcome Bool × Served S ssl) (y : Outcome Bool × Served T ssl)
      → x.0 ≡ y.0
      → SameEnd R (serve_on v bo toml user info fuel x.1) (serve_on w bo toml user info fuel y.1)
      → Alike R x.1 y.1
      → SameEnd R
          (elim (goes_on x.0) [
            | true ↦ serve_on v bo toml user info fuel x.1
            | false ↦ some (finished x.0, x.1)
          ])
          (elim (goes_on y.0) [
            | true ↦ serve_on w bo toml user info fuel y.1
            | false ↦ some (finished y.0, y.1)
          ])
  serve_on_next fuel (ok true, s) (q, t) e more l = rw (sym e) more
  serve_on_next fuel (ok false, s) (q, t) e more l = rw (sym e) (same_end (ap finished e) l)
  serve_on_next fuel (err x, s) (q, t) e more l = rw (sym e) (same_end (ap finished e) l)
  serve_on_next fuel (panic, s) (q, t) e more l = rw (sym e) (same_end (ap finished e) l)

  -- Over related transports, with the same agent and the same fuel, the loop ends with the same outcome,
  -- the same agent and related transports, or in both cases it does not end.
  pub serve_on-SameEnd :
      (fuel : ℕ) (s : Served S ssl) (t : Served T ssl)
      → Alike R s t
      → SameEnd R (serve_on v bo toml user info fuel s) (serve_on w bo toml user info fuel t)
  unfolding serve_on
  serve_on-SameEnd zero s t l = no_end
  serve_on-SameEnd (suc fuel) s t l =
      let (e, later) = round_on-Simulates s t l in
      serve_on_next fuel (round_on v bo toml user info s) (round_on w bo toml user info t) e
        (serve_on-SameEnd fuel (round_on v bo toml user info s).1 (round_on w bo toml user info t).1
          later)
        later
