-- ===== src/Connection/Interleaving.antt =====
-- src/utils.rs: what the threads of several clients share, under every schedule.
use ssh_keys.Base.{
  ℕ, zero, suc, ◌%◌, ◌^◌, ◌≡◌, refl, ap, ◌∙◌, Bytes, some, List, [], ◌∷◌, true, false, length, ◌==◌,
  Bool-cases, inl, inr,
}
use ssh_keys.Outcome.{Outcome, ok, err, panic, Outcome-cases}
use ssh_keys.Packages.{ByteOrder, Openssl, BigNumLaws}
use ssh_keys.Reader.{Input, read_exact}
use ssh_keys.Wire.{read_u32}
use ssh_keys.Exec.{◌>>=◌, and_then-keeps}
use ssh_keys.Config.{Toml}
use ssh_keys.Agent.{User, RequestInfo, handle_request}
use ssh_keys.Agent.Effects.{Effect, handle_request-Effect}
use ssh_keys.Agent.Invariant.{IsSound, Effect-IsSound}
use ssh_keys.Connection.{
  Session, is_closed, length_or_end, receive, locked_request, send_string, send_all,
}
use ssh_keys.Connection.Clients.{
  Client, Phase, reading, requested, replying, left, Shared, session, fetch_request, fetch,
  client_step, step_in, step_at, run_clients,
}

-- What one step does to what the threads share: nothing, or one request with the mutex sound.
data SharedEffect {ssl : Openssl} (sh sh' : Shared ssl) : Type 0 where
  kept : sh' ≡ sh → SharedEffect sh sh'
  handled : sh.poisoned ≡ false → Effect sh.agent sh'.agent → SharedEffect sh sh'

abbrev shared : {ssl : Openssl} → Session ssl → Shared ssl
shared s = record { agent = s.agent; poisoned = s.poisoned }

module _ (bo : ByteOrder) {ssl : Openssl} where
  receive-keeps : (len : ℕ) (s : Session ssl) → shared (receive len s).1 ≡ shared s
  unfolding receive
  receive-keeps len s = elim (Outcome-cases (read_exact len s.input)) [
    | inl ((a, i), e) ↦ rw e refl
    | inr (inl (x, e)) ↦ rw e refl
    | inr (inr e) ↦ rw e refl
  ]

  send_all-keeps : (bs : Bytes) (s : Session ssl) → shared (send_all bs s).1 ≡ shared s
  unfolding send_all
  send_all-keeps bs s = refl

  send_string-keeps : (resp : Bytes) (s : Session ssl) → shared (send_string bo resp s).1 ≡ shared s
  unfolding send_string
  send_string-keeps resp s =
      let prefix = bo.u32_to_be (length resp % 2 ^ 32) in
      and_then-keeps (λ t. shared t ≡ shared s) (send_all prefix s).0 (send_all prefix s).1
        (λ x. send_all resp) (send_all-keeps prefix s)
        (λ x e. send_all-keeps resp (send_all prefix s).1 ∙ send_all-keeps prefix s)

  fetch_after-keeps :
      (r : Outcome (ℕ × Input)) (s : Session ssl)
      → shared ((length_or_end r >>= fetch_request {ssl = ssl}) s).1 ≡ shared s
  fetch_after-keeps (ok (len, i)) s = elim (Bool-cases (len == 0)) [
    | inl e ↦ rw e refl
    | inr n ↦ rw n (
        and_then-keeps (λ t. shared t ≡ shared s) (receive len (record s { input = i })).0
          (receive len (record s { input = i })).1 (λ buf t. (ok (some buf), t))
          (receive-keeps len _) (λ buf e. receive-keeps len _))
  ]
  fetch_after-keeps (err e) s = elim (Bool-cases (is_closed e)) [
    | inl c ↦ rw c refl
    | inr n ↦ rw n refl
  ]
  fetch_after-keeps panic s = refl

module _ (bo : ByteOrder) (toml : Toml) {ssl : Openssl} (user : User ssl) where
  locked_request-SharedEffect :
      (info : RequestInfo) (buf : Bytes) (s : Session ssl)
      → SharedEffect (shared s) (shared (locked_request bo toml user info buf s).1)
  unfolding locked_request
  locked_request-SharedEffect info buf s =
      let effect = handle_request-Effect bo toml user buf info s.agent in
      elim (Bool-cases s.poisoned) [
        | inl p ↦ rw p (kept refl)
        | inr clean ↦ elim (Outcome-cases (handle_request bo toml user buf info s.agent).0) [
          | inl (resp, e) ↦ rw (clean, e) (handled refl effect)
          | inr (inl (x, e)) ↦ rw (clean, e) (handled refl effect)
          | inr (inr e) ↦ rw (clean, e) (handled refl effect)
        ]
      ]

  step_in-SharedEffect :
      (phase : Phase) (c : Client) (sh : Shared ssl)
      → SharedEffect sh (step_in bo toml user phase c sh).1
  unfolding fetch
  step_in-SharedEffect reading c sh =
      kept (fetch_after-keeps bo (read_u32 bo c.input) (session c sh))
  step_in-SharedEffect (requested buf) c sh = locked_request-SharedEffect c.info buf (session c sh)
  step_in-SharedEffect (replying resp) c sh = kept (send_string-keeps bo resp (session c sh))
  step_in-SharedEffect (left r) c sh = kept refl

  step_at-SharedEffect :
      (place : ℕ) (cs : List Client) (sh : Shared ssl)
      → SharedEffect sh (step_at bo toml user place cs sh).1
  unfolding step_at client_step
  step_at-SharedEffect place [] sh = kept refl
  step_at-SharedEffect zero (c ∷ cs) sh = step_in-SharedEffect c.phase c sh
  step_at-SharedEffect (suc place) (c ∷ cs) sh = step_at-SharedEffect place cs sh

  -- Under every schedule of the threads of any clients, whatever they send, the agent stays sound.
  pub run_clients-IsSound :
      (laws : BigNumLaws ssl) (places : List ℕ) (cs : List Client) (sh : Shared ssl)
      → IsSound sh.agent
      → IsSound (run_clients bo toml user places cs sh).1.agent
  unfolding run_clients
  run_clients-IsSound laws [] cs sh s = s
  run_clients-IsSound laws (place ∷ places) cs sh s =
      run_clients-IsSound laws places _ _ (after (step_at-SharedEffect place cs sh))
    where
      after : {sh' : Shared ssl} → SharedEffect sh sh' → IsSound sh'.agent
      after (kept e) = rw e s
      after (handled clean f) = Effect-IsSound laws f s

  -- Once a thread has panicked with the mutex locked, under every schedule no thread of any client
  -- changes the agent, its keys, its file or its prompts, any more.
  pub run_clients-poisoned :
      (places : List ℕ) (cs : List Client) (sh : Shared ssl)
      → sh.poisoned ≡ true
      → (run_clients bo toml user places cs sh).1 ≡ sh
  unfolding run_clients
  run_clients-poisoned [] cs sh p = refl
  run_clients-poisoned (place ∷ places) cs sh p = elim (step_at-SharedEffect place cs sh) [
    | kept e ↦ run_clients-poisoned places _ _ (ap (λ t. t.poisoned) e ∙ p) ∙ e
    | handled clean f ↦ cc
  ]
