-- ===== src/Examples/Desktops.antt =====
-- Orders of events on a desktop.
use ssh_keys.Base.{◌≡◌, refl, sym, ◌∙◌, true, false, some, none, List, [], ◌∷◌, inl, ◌^◌}
use ssh_keys.Agent.{Prompt}
use ssh_keys.Config.Model.{toml}
use ssh_keys.Gui.Desktop.{
  in_loop, in_lock, Desktop, Event, asks, receives, loop_takes, modal_takes, commanded, notified,
  picked, wm_contextmenu, dlg_command, step, run_events,
}
use ssh_keys.Gui.Stages.{quiet, IsCoherent, run_events-IsCoherent}
use ssh_keys.Gui.Changes.{HasAnswer}
use ssh_keys.Gui.Consent.{Clicked, ask_confirmation-Clicked}
use ssh_keys.Gui.Blocked.{idle, reload_config-Stuck, lose_message-Lost}
use ssh_keys.Gui.Signing.{AnswersOf, handle_request-Clicked}
use ssh_keys.Agent.{handle_request}
use ssh_keys.Agent.Consent.{Consented}
use ssh_keys.Examples.Values.{bo, ssl, user, agent, sign_request, key_pair, info}
use ssh_keys.Examples.Requests.{signature_reply, signs}
use ssh_keys.Examples.Run.{run}

abbrev prompt : Prompt ssl
prompt = record { key_pair = key_pair; info = info }

abbrev desktop : Desktop ssl
desktop = record {
  config = record { keys = key_pair ∷ [] };
  disk = record { contents = none; faults = [] };
  poisoned = false;
  asking = none;
  channel = none;
  posted = [];
  dialog = none;
  quit = false;
  main = in_loop;
  answers = [];
}

-- The prompt is shown, a click elsewhere does nothing, and OK is clicked.
abbrev events : List (Event ssl)
events = asks prompt ∷ loop_takes ∷ commanded (2 ^ 16) ∷ commanded 1 ∷ receives ∷ []

run_events-IsCoherent_example : IsCoherent (run_events toml events desktop)
run_events-IsCoherent_example = run_events-IsCoherent toml {ssl = ssl} events desktop quiet

granted_ : HasAnswer prompt true (run_events toml events desktop).answers
unfolding run_events step dlg_command
granted_ = inl (refl, refl)

ask_confirmation-Clicked_example : Clicked toml prompt desktop events
ask_confirmation-Clicked_example =
    ask_confirmation-Clicked toml {ssl = ssl} prompt events desktop quiet refl (λ h. h) granted_

reload_config-Stuck_example :
    let t =
      run_events toml
        (asks prompt ∷ loop_takes ∷ notified wm_contextmenu ∷ picked 2 ∷ events)
        desktop in
    (t.main ≡ in_lock) × (t.asking ≡ some prompt) × (t.answers ≡ [])
reload_config-Stuck_example =
    reload_config-Stuck toml {ssl = ssl} prompt events desktop (idle _ _ _ _)

lose_message-Lost_example :
    let t =
      run_events toml (notified wm_contextmenu ∷ asks prompt ∷ modal_takes ∷ events) desktop in
    (t.asking ≡ some prompt) × (t.answers ≡ [])
lose_message-Lost_example = lose_message-Lost toml {ssl = ssl} prompt events desktop (idle _ _ _ _)

shows : (handle_request bo toml {ssl = ssl} user sign_request info agent).1.prompts ≡ prompt ∷ []
unfolding run
shows = refl

answers :
    AnswersOf
      (run_events toml events desktop)
      user
      (handle_request bo toml {ssl = ssl} user sign_request info agent).1.prompts
answers p ps e yes_ =
    let same : prompt ∷ [] ≡ p ∷ ps = sym shows ∙ e in
    let head : prompt ≡ p = cc in rw (sym head) granted_

handle_request-Clicked_example :
    (c : Consented bo {ssl = ssl} user sign_request info agent
      (handle_request bo toml {ssl = ssl} user sign_request info agent).1
      signature_reply)
    × Clicked toml (record { key_pair = c.key_pair; info = info }) desktop events
handle_request-Clicked_example =
    handle_request-Clicked bo toml {ssl = ssl} user events desktop quiet refl refl sign_request info
      agent signature_reply signs answers
