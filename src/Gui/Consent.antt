-- ===== src/Gui/Consent.antt =====
-- The answers of `ask_confirmation`, and the clicks of the user.
use ssh_keys.Base.{
  ℕ, ◌≡◌, sym, ap, ◌∙◌, Bool, true, Option, some, none, List, [], ◌∷◌, ◌⊎◌, inl, inr,
}
use ssh_keys.Packages.{Openssl}
use ssh_keys.Config.{Toml}
use ssh_keys.Agent.{Prompt}
use ssh_keys.Gui.Desktop.{Desktop, Event, commanded, dlg_command, step, run_events}
use ssh_keys.Gui.Stages.{Stage, quiet, queued, shown, answered, lost, IsCoherent, step-Stage}
use ssh_keys.Gui.Changes.{
  IsOk, dlg_command-IsOk, HasAnswer, Change, kept, began, sent, received, step-Change,
}

some-injective : {A : Type 0} {a b : A} → some a ≡ some b → a ≡ b
some-injective h = cc

module _ {ssl : Openssl} where
  dialog-asking :
      {asking : Option (Prompt ssl)} {channel : Option Bool} {posted : List (Prompt ssl)}
      {dialog : Option (Prompt ssl)} {p : Prompt ssl}
      → Stage asking channel posted dialog
      → dialog ≡ some p
      → asking ≡ some p
  dialog-asking quiet h = cc
  dialog-asking (queued q) h = cc
  dialog-asking (shown q) h = h
  dialog-asking (answered q b) h = cc
  dialog-asking (lost q) h = cc

  channel-asking :
      {asking : Option (Prompt ssl)} {channel : Option Bool} {posted : List (Prompt ssl)}
      {dialog : Option (Prompt ssl)} {b : Bool}
      → Stage asking channel posted dialog
      → asking ≡ none
      → channel ≡ some b
      → ⊥
  channel-asking quiet a c = cc
  channel-asking (queued q) a c = cc
  channel-asking (shown q) a c = cc
  channel-asking (answered q b) a c = cc
  channel-asking (lost q) a c = cc

module _ (toml : Toml) {ssl : Openssl} (p : Prompt ssl) where
  -- Among the events, from a state on, is a click of OK while the prompt's dialog is open.
  pub data Clicked : Desktop ssl → List (Event ssl) → Type 0 where
    now :
        (s : Desktop ssl) (w : ℕ) (es : List (Event ssl))
        → s.dialog ≡ some p
        → IsOk w
        → Clicked s (commanded w ∷ es)
    later :
        (s : Desktop ssl) (e : Event ssl) (es : List (Event ssl))
        → Clicked (step toml e s) es
        → Clicked s (e ∷ es)

  -- Why the prompt has the answer yes in the end.
  abbrev Granted : Desktop ssl → List (Event ssl) → Type 0
  Granted s es =
      HasAnswer p true s.answers ⊎ ((s.asking ≡ some p) × (s.channel ≡ some true)) ⊎ Clicked s es

  -- An answer that is there after an event was there, or received.
  step-HasAnswer :
      {e : Event ssl} {s t : Desktop ssl} (es : List (Event ssl))
      → Change e s t
      → HasAnswer p true t.answers
      → Granted s es
  step-HasAnswer es (kept a c l) h = inl (rw l at h)
  step-HasAnswer es (began a c l) h = inl (rw l at h)
  step-HasAnswer es (sent w q b e d k a c l) h = inl (rw l at h)
  step-HasAnswer {s} es (received q b a c n l) h = elim (rw l at h) [
    | inl (same, yes_) ↦ inr (inl (a ∙ ap some same, c ∙ ap some yes_))
    | inr old ↦ inl old
  ]

  -- A yes that is in the channel after an event was in it, or sent by a click.
  step-channel :
      (e : Event ssl) (s : Desktop ssl) (es : List (Event ssl))
      → IsCoherent s
      → {t : Desktop ssl} → Change e s t
      → t.asking ≡ some p
      → t.channel ≡ some true
      → Granted s (e ∷ es)
  step-channel e s es st (kept a c l) ha hc = inr (inl (sym a ∙ ha, sym c ∙ hc))
  step-channel e s es st (began a c l) ha hc = absurd (channel-asking st a (sym c ∙ hc))
  step-channel e s es st (sent w q b is_e d k a c l) ha hc =
      let same : q ≡ p = some-injective (sym (dialog-asking st d) ∙ sym a ∙ ha) in
      let agreed : dlg_command w ≡ some true = k ∙ sym c ∙ hc in
      inr (inr (rw is_e (now s w es (d ∙ ap some same) (dlg_command-IsOk w agreed))))
  step-channel e s es st (received q b a c n l) ha hc = cc

  granted :
      (es : List (Event ssl)) (s : Desktop ssl)
      → IsCoherent s
      → HasAnswer p true (run_events toml es s).answers
      → Granted s es
  unfolding run_events
  granted [] s st h = inl h
  granted (e ∷ es) s st h = elim (granted es (step toml e s) (step-Stage toml e s st) h) [
    | inl answered_ ↦ step-HasAnswer (e ∷ es) (step-Change toml e s) answered_
    | inr (inl (ha, hc)) ↦ step-channel e s es st (step-Change toml e s) ha hc
    | inr (inr clicked) ↦ inr (inr (later s e es clicked))
  ]

  -- If the desktop is coherent and nobody asks at first, and in the end `ask_confirmation` has answered yes for a prompt, though it
  -- had not at first, the user has clicked OK while the dialog of that prompt was open.
  pub ask_confirmation-Clicked :
      (es : List (Event ssl)) (s : Desktop ssl)
      → IsCoherent s
      → s.asking ≡ none
      → ¬ HasAnswer p true s.answers
      → HasAnswer p true (run_events toml es s).answers
      → Clicked s es
  ask_confirmation-Clicked es s st idle fresh h = elim (granted es s st h) [
    | inl old ↦ absurd (fresh old)
    | inr (inl (ha, hc)) ↦ cc
    | inr (inr clicked) ↦ clicked
  ]
