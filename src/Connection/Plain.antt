-- ===== src/Connection/Plain.antt =====
-- src/utils.rs: `connection_handler` over the bytes that are to come, as one of the transports.
use ssh_keys.Base.{
  ℕ, zero, suc, ◌%◌, ◌^◌, ◌≡◌, refl, sym, Bytes, Option, some, none, Bool, true, false, inl, inr,
  length,
}
use ssh_keys.Outcome.{Outcome, ok, err, panic, Outcome-cases}
use ssh_keys.Packages.{ByteOrder, Openssl}
use ssh_keys.Reader.{Input, read_exact}
use ssh_keys.Wire.{read_u32}
use ssh_keys.Exec.{Exec, ◌>>=◌, pure}
use ssh_keys.Config.{Toml}
use ssh_keys.Agent.{Agent, User, RequestInfo, handle_request}
use ssh_keys.Connection.{
  Session, Output, sent_within, goes_on, finished, length_or_end, receive, unlocked, locked,
  locked_request, send_all, send_string, answer_request, serve_request, round_of, round, serve,
}
use ssh_keys.Connection.Transport.{
  ReadWrite, Served, on_transport, released, fetch_length, locked_on, request_on, send_on,
  serve_request_on, round_of_on, round_on, serve_on,
}
use ssh_keys.Connection.Simulation.{Simulates, Simulates-bind}

abbrev pub read_plain : Outcome (Bytes × Input) → Input → Output → Outcome Bytes × (Input × Output)
read_plain (ok (bytes, rest)) i o = (ok bytes, (rest, o))
read_plain (err e) i o = (err e, (i, o))
read_plain panic i o = (panic, (i, o))

-- A reader of the bytes that are to come, beside a writer.
abbrev pub plain : ReadWrite (Input × Output)
plain = record {
  read_exact = λ n io. read_plain (read_exact n io.0) io.0 io.1;
  write_all =
      λ bs io. ((sent_within io.1 bs io.1.limit).0, (io.0, (sent_within io.1 bs io.1.limit).1));
}

abbrev pub served : {ssl : Openssl} → Session ssl → Served (Input × Output) ssl
served s = record { transport = (s.input, s.output); agent = s.agent; poisoned = s.poisoned }

-- The end of a loop, over the plain transport.
abbrev pub end_served :
    {ssl : Openssl}
    → Option (Outcome (Unit {0}) × Session ssl)
    → Option (Outcome (Unit {0}) × Served (Input × Output) ssl)
end_served none = none
end_served (some (r, s)) = some (r, served s)

abbrev IsServed : {ssl : Openssl} → Session ssl → Served (Input × Output) ssl → Type 0
IsServed s t = served s ≡ t

module _ {ssl : Openssl} {A : Type 0} where
  Simulates-IsServed :
      (m : Exec (Session ssl) A) (n : Exec (Served (Input × Output) ssl) A)
      → ((s : Session ssl) → ((m s).0 ≡ (n (served s)).0) × (served (m s).1 ≡ (n (served s)).1))
      → Simulates IsServed m n
  Simulates-IsServed m n h s t e = rw (sym e) (h s)

module _ (bo : ByteOrder) (toml : Toml) {ssl : Openssl} (user : User ssl) (info : RequestInfo) where
  fetch_length-IsServed :
      Simulates
        (IsServed {ssl = ssl})
        (λ s. length_or_end (read_u32 bo s.input) s)
        (fetch_length plain bo toml user info)
  unfolding read_u32
  fetch_length-IsServed = Simulates-IsServed _ _ (λ s. elim (Outcome-cases (read_exact 4 s.input)) [
    | inl ((bytes, rest), e) ↦ rw e (refl, refl)
    | inr (inl (x, e)) ↦ rw e (refl, refl)
    | inr (inr e) ↦ rw e (refl, refl)
  ])

  receive-IsServed :
      (len : ℕ)
      → Simulates (IsServed {ssl = ssl}) (receive len) (on_transport (plain.read_exact len))
  unfolding receive
  receive-IsServed len = Simulates-IsServed _ _ (λ s.
      elim (Outcome-cases (read_exact len s.input)) [
        | inl ((bytes, rest), e) ↦ rw e (refl, refl)
        | inr (inl (x, e)) ↦ rw e (refl, refl)
        | inr (inr e) ↦ rw e (refl, refl)
      ])

  send_all-IsServed :
      (bs : Bytes)
      → Simulates (IsServed {ssl = ssl}) (send_all bs) (on_transport (plain.write_all bs))
  unfolding send_all
  send_all-IsServed bs = Simulates-IsServed _ _ (λ s. (refl, refl))

  unlocked-served :
      (r : Outcome Bytes) (a : Agent ssl) (s : Session ssl)
      → ((unlocked r a s).0 ≡ (released r a (served s)).0)
        × (served (unlocked r a s).1 ≡ (released r a (served s)).1)
  unlocked-served (ok resp) a s = (refl, refl)
  unlocked-served (err e) a s = (refl, refl)
  unlocked-served panic a s = (refl, refl)

  locked-served :
      (poisoned : Bool) (buf : Bytes) (s : Session ssl)
      → ((locked bo toml user info poisoned buf s).0
          ≡ (locked_on plain bo toml user info poisoned buf (served s)).0)
        × (served (locked bo toml user info poisoned buf s).1
            ≡ (locked_on plain bo toml user info poisoned buf (served s)).1)
  locked-served true buf s = (refl, refl)
  locked-served false buf s =
      let (r, a) = handle_request bo toml user buf info s.agent in unlocked-served r a s

  locked_request-IsServed :
      (buf : Bytes)
      → Simulates IsServed
          (locked_request bo toml user info buf)
          (request_on plain bo toml user info buf)
  unfolding locked_request
  locked_request-IsServed buf = Simulates-IsServed _ _ (λ s. locked-served s.poisoned buf s)

  send_string-IsServed :
      (content : Bytes)
      → Simulates
          (IsServed {ssl = ssl})
          (send_string bo content)
          (send_on plain bo toml user info content)
  unfolding send_string
  send_string-IsServed content =
      let head = bo.u32_to_be (length content % 2 ^ 32) in
      Simulates-bind (send_all head) (on_transport (plain.write_all head)) (λ _. send_all content)
        (λ _. on_transport (plain.write_all content)) (send_all-IsServed head)
        (λ _. send_all-IsServed content)

  answer_request-IsServed :
      (buf : Bytes)
      → Simulates
          (IsServed {ssl = ssl})
          (answer_request bo toml user info buf)
          (request_on plain bo toml user info buf >>= send_on plain bo toml user info)
  unfolding answer_request
  answer_request-IsServed buf =
      Simulates-bind (locked_request bo toml user info buf) (request_on plain bo toml user info buf)
        (send_string bo) (send_on plain bo toml user info) (locked_request-IsServed buf)
        send_string-IsServed

  serve_request-IsServed :
      (len : ℕ)
      → Simulates
          (IsServed {ssl = ssl})
          (serve_request bo toml user info len)
          (serve_request_on plain bo toml user info len)
  unfolding serve_request
  serve_request-IsServed len =
      Simulates-bind (receive len) (on_transport (plain.read_exact len)) _ _ (receive-IsServed len)
        answer_request-IsServed

  round_of-IsServed :
      (next : Option ℕ)
      → Simulates
          (IsServed {ssl = ssl})
          (round_of bo toml user info next)
          (round_of_on plain bo toml user info next)
  round_of-IsServed none s t e = (refl, e)
  round_of-IsServed (some len) s t e =
      Simulates-bind (serve_request bo toml user info len)
        (serve_request_on plain bo toml user info len) (λ _. pure true) (λ _. pure true)
        (serve_request-IsServed len) (λ _ s t e. (refl, e)) s t e

  round-IsServed :
      Simulates (IsServed {ssl = ssl}) (round bo toml user info) (round_on plain bo toml user info)
  unfolding round round_on
  round-IsServed =
      Simulates-bind (λ s. length_or_end (read_u32 bo s.input) s)
        (fetch_length plain bo toml user info) (round_of bo toml user info)
        (round_of_on plain bo toml user info) fetch_length-IsServed round_of-IsServed

  serve_on_next :
      (fuel : ℕ) (x : Outcome Bool × Session ssl) (q : Outcome Bool)
      (t : Served (Input × Output) ssl)
      → x.0 ≡ q
      → served x.1 ≡ t
      → serve_on plain bo toml user info fuel (served x.1)
        ≡ end_served (serve bo toml user info fuel x.1)
      → elim (goes_on q) [
        | true ↦ serve_on plain bo toml user info fuel t
        | false ↦ some (finished q, t)
      ]
        ≡ end_served (elim (goes_on x.0) [
          | true ↦ serve bo toml user info fuel x.1
          | false ↦ some (finished x.0, x.1)
        ])
  serve_on_next fuel (ok true, s) q t e same ih = rw (sym e, sym same) ih
  serve_on_next fuel (ok false, s) q t e same ih =
      rw (sym e) (λ i. some (finished (sym e i), sym same i))
  serve_on_next fuel (err x, s) q t e same ih =
      rw (sym e) (λ i. some (finished (sym e i), sym same i))
  serve_on_next fuel (panic, s) q t e same ih =
      rw (sym e) (λ i. some (finished (sym e i), sym same i))

  -- Over the plain transport, `connection_handler` is the loop on sessions.
  pub serve_on-served :
      (fuel : ℕ) (s : Session ssl)
      → serve_on plain bo toml user info fuel (served s)
        ≡ end_served (serve bo toml user info fuel s)
  unfolding serve_on serve
  serve_on-served zero s = refl
  serve_on-served (suc fuel) s =
      let (e, same) = round-IsServed s (served s) refl in
      serve_on_next fuel (round bo toml user info s) (round_on plain bo toml user info (served s)).0
        (round_on plain bo toml user info (served s)).1 e same
        (serve_on-served fuel (round bo toml user info s).1)
