-- ===== src/Gui/Signing.antt =====
-- src/agent/mod.rs over platform/win/confirmation.rs: signatures, and the clicks of the user.
use ssh_keys.Base.{◌≡◌, Bytes, true, none, List, [], ◌∷◌}
use ssh_keys.Outcome.{ok}
use ssh_keys.Packages.{ByteOrder, Openssl}
use ssh_keys.Config.{Toml}
use ssh_keys.Agent.{Agent, User, Prompt, RequestInfo, handle_request}
use ssh_keys.Agent.Codes
use ssh_keys.Agent.Consent.{Consented, handle_request-Consented}
use ssh_keys.Gui.Desktop.{Desktop, Event, run_events}
use ssh_keys.Gui.Stages.{IsCoherent}
use ssh_keys.Gui.Changes.{HasAnswer}
use ssh_keys.Gui.Consent.{Clicked, ask_confirmation-Clicked}

-- Where the prompts shown are these: a yes of the user to the last one is an answer of
-- `ask_confirmation` on the desktop `s`.
abbrev pub AnswersOf : {ssl : Openssl} → Desktop ssl → User ssl → List (Prompt ssl) → Type 0
AnswersOf {ssl} s user shown =
    (p : Prompt ssl) (ps : List (Prompt ssl))
    → shown ≡ p ∷ ps
    → user (p ∷ ps) ≡ true
    → HasAnswer p true s.answers

module _ (bo : ByteOrder) (toml : Toml) {ssl : Openssl} (user : User ssl) where
  -- On a coherent desktop where nobody asks at first, and nothing was answered: if the reply to a request is a
  -- signature, and the user's yes to the last prompt that the agent then has shown is an answer that
  -- `ask_confirmation` has given after the events, then the request was a sign request whose reply is
  -- the signature by the first key pair with its key, and the user has clicked OK while the dialog
  -- with this key pair and this client was open.
  pub handle_request-Clicked :
      (es : List (Event ssl)) (s : Desktop ssl)
      → IsCoherent s
      → s.asking ≡ none
      → s.answers ≡ []
      → (buf : Bytes) (info : RequestInfo) (a : Agent ssl) (reply : Bytes)
      → (handle_request bo toml user buf info a).0 ≡ ok (Codes.sign_response ∷ reply)
      → AnswersOf (run_events toml es s) user (handle_request bo toml user buf info a).1.prompts
      → (c : Consented bo user buf info a (handle_request bo toml user buf info a).1 reply)
        × Clicked toml (record { key_pair = c.key_pair; info = info }) s es
  handle_request-Clicked es s st idle fresh buf info a reply h answers =
      let c = handle_request-Consented bo toml user buf info a reply h in
      let p : Prompt ssl = record { key_pair = c.key_pair; info = info } in
      (
        c,
        ask_confirmation-Clicked toml p es s st idle (rw fresh (λ never. never))
            (answers p a.prompts c.shown (rw c.shown at c.agreed)),
      )
