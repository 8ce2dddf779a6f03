-- ===== src/Connection/Total.antt =====
-- src/utils.rs: the rounds of the loop of `connection_handler` and their number.
use ssh_keys.Base.{
  ℕ, zero, suc, ◌+◌, ◌%◌, ◌^◌, ◌<◌, ◌≤◌, ◌≡◌, refl, ap, ◌∙◌, Bytes, some, Bool, true, false, length,
  length-append, arith, Bool-cases, inl, inr, ◌==◌,
}
use ssh_keys.Outcome.{Outcome, ok, err, panic}
use ssh_keys.Packages.{ByteOrder, Openssl}
use ssh_keys.Reader.{Input, read_exact, read_exact_inv, run_next-eq-ok}
use ssh_keys.Wire.{read_u32}
use ssh_keys.Exec.{and_then, and_then-keeps, pure}
use ssh_keys.Config.{Toml}
use ssh_keys.Agent.{Agent, User, RequestInfo, handle_request}
use ssh_keys.Connection.{
  Session, locked, answer_request, send_all, send_string, received, receive, is_closed, round_after,
  unlocked, locked_request, serve_request, round, goes_on, finished, serve, connection_handler,
}

-- The bytes that are still to be read.
abbrev pub left : {ssl : Openssl} → Session ssl → ℕ
left s = length s.input.bytes

module _ {ssl : Openssl} where
  left-send_string :
      (bo : ByteOrder) (content : Bytes) (s : Session ssl)
      → left (send_string bo content s).1 ≡ left s
  unfolding send_string send_all
  left-send_string bo content s =
      let head = send_all (bo.u32_to_be (length content % 2 ^ 32)) s in
      and_then-keeps (λ t. left t ≡ left s) head.0 head.1 (λ _. send_all content) refl (λ _ _. refl)

  left-receive : (len : ℕ) (s : Session ssl) → left (receive len s).1 ≤ left s
  unfolding receive
  left-receive len s = go (read_exact len s.input) refl
    where
      go :
          (r : Outcome (Bytes × Input))
          → read_exact len s.input ≡ r
          → left (received r s).1 ≤ left s
      go (ok (bs, i)) e =
          let (split, _, _) = read_exact_inv len s.input bs i e in
          omega (arith, ap (λ (t : Bytes). length t) split, length-append bs i.bytes)
      go (err x) e = omega arith
      go panic e = omega arith

module _ (bo : ByteOrder) (toml : Toml) {ssl : Openssl} (user : User ssl) (info : RequestInfo) where
  left-unlocked :
      (r : Outcome Bytes) (a : Agent ssl) (s : Session ssl) → left (unlocked r a s).1 ≡ left s
  left-unlocked (ok resp) a s = refl
  left-unlocked (err e) a s = refl
  left-unlocked panic a s = refl

  left-locked :
      (poisoned : Bool) (buf : Bytes) (s : Session ssl)
      → left (locked bo toml user info poisoned buf s).1 ≡ left s
  left-locked true buf s = refl
  left-locked false buf s =
      let (r, a) = handle_request bo toml user buf info s.agent in left-unlocked r a s

  left-answer_request :
      (buf : Bytes) (s : Session ssl) → left (answer_request bo toml user info buf s).1 ≡ left s
  unfolding answer_request locked_request
  left-answer_request buf s =
      let (r, t) = locked_request bo toml user info buf s in
      let e : left t ≡ left s = left-locked s.poisoned buf s in
      and_then-keeps (λ u. left u ≡ left s) r t (send_string bo) e
        (λ resp _. left-send_string bo resp t ∙ e)

  left-serve_request :
      (len : ℕ) (s : Session ssl) → left (serve_request bo toml user info len s).1 ≤ left s
  unfolding serve_request
  left-serve_request len s =
      let (r, t) = receive len s in
      let e : left t ≤ left s = left-receive len s in
      and_then-keeps (λ u. left u ≤ left s) r t (answer_request bo toml user info) e
        (λ buf _. omega (arith, left-answer_request buf t))

  left-round_after :
      (r : Outcome (ℕ × Input)) (s : Session ssl)
      → ((len : ℕ) (i : Input) → r ≡ ok (len, i) → length i.bytes + 4 ≤ left s)
      → goes_on (round_after bo toml user info r s).0 ≡ true
      → left (round_after bo toml user info r s).1 + 4 ≤ left s
  left-round_after (ok (len, i)) s short h = elim (Bool-cases (len == 0)) [
    | inl zero_len ↦ cc (rw zero_len at h)
    | inr more ↦
        let t = record s { input = i } in
        let (r, u) = serve_request bo toml user info len t in
        let e : left u ≤ length i.bytes = left-serve_request len t in
        let keeps : left (and_then r u (λ _. pure true)).1 ≤ length i.bytes =
          and_then-keeps (λ v. left v ≤ length i.bytes) r u (λ _. pure true) e (λ _ _. e) in
        rw more (omega (arith, short len i refl))
  ]
  left-round_after (err x) s short h = elim (Bool-cases (is_closed x)) [
    | inl closed ↦ cc (rw closed at h)
    | inr open_still ↦ cc (rw open_still at h)
  ]
  left-round_after panic s short h = cc

  -- A round that goes on has read four bytes at least.
  left-round :
      (s : Session ssl)
      → goes_on (round bo toml user info s).0 ≡ true
      → left (round bo toml user info s).1 + 4 ≤ left s
  unfolding round read_u32
  left-round s h =
      left-round_after (read_u32 bo s.input) s
        (λ len i e.
          let (bs, j, exact, last) = run_next-eq-ok (read_exact 4 s.input) _ e in
          let (split, four, _) = read_exact_inv 4 s.input bs j exact in
          let same : j ≡ i = ground arith in
          rw (← same) (omega (arith, ap (λ (t : Bytes). length t) split, length-append bs j.bytes)))
        h

  serve_total :
      (fuel : ℕ) (s : Session ssl)
      → left s < fuel
      → (r : Outcome (Unit {0})) × (t : Session ssl) × (serve bo toml user info fuel s
          ≡ some (r, t))
  unfolding serve
  serve_total zero s h = absurd (omega arith)
  serve_total (suc fuel) s h = elim (Bool-cases (goes_on (round bo toml user info s).0)) [
    | inl more ↦
        let (r, t, e) =
          serve_total fuel (round bo toml user info s).1 (omega (arith, left-round s more)) in
        (r, t, ground (arith, more, e))
    | inr done ↦ (
      finished (round bo toml user info s).0,
      (round bo toml user info s).1,
      ground (arith, done),
    )
  ]

  -- Every session ends: on any input, whatever the replies, the loop of `connection_handler` returns,
  -- fails or panics, and never runs out of the fuel that it is given.
  pub connection_handler_total :
      (s : Session ssl)
      → (r : Outcome (Unit {0})) × (t : Session ssl) × (connection_handler bo toml user info s
          ≡ some (r, t))
  unfolding connection_handler
  connection_handler_total s = serve_total (suc (left s)) s (omega arith)
