-- ===== src/Gui/Stages.antt =====
-- The prompt of the thread that asks, on its way from the main thread's queue to the dialog and the
-- channel, and the answers that it gets.
use ssh_keys.Base.{
  ℕ, ◌%◌, ◌^◌, Bool, true, false, Option, some, none, List, [], ◌∷◌, ◌==◌, inl, inr, Bool-cases,
}
use ssh_keys.Outcome.{Outcome, ok, err, panic}
use ssh_keys.Packages.{Openssl}
use ssh_keys.Disk.{Disk}
use ssh_keys.Config.{Toml, Config, reload}
use ssh_keys.Agent.{Prompt}
use ssh_keys.Gui.Desktop.{
  MainThread, in_loop, in_box_menu, in_own_lock, in_menu, in_box, in_lock, ended, Desktop, Event,
  asks, receives, loop_takes, modal_takes, commanded, notified, picked, box_closes, gets_mutex,
  dlg_command, step, run_events, reload_config, reloaded, reload_locked, begin_ask, end_ask,
  take_message, lose_message, answer_dialog, serves_windows, open_menu, close_box, pick_command,
  take_mutex,
}

module _ {ssl : Openssl} where
  -- Where the prompt is: nobody asks; it is in the queue; it is shown; it is answered; or it is
  -- nowhere, and the thread waits.
  pub data Stage
      : Option (Prompt ssl) → Option Bool → List (Prompt ssl) → Option (Prompt ssl) → Type 0 where
    quiet : Stage none none [] none
    queued : (p : Prompt ssl) → Stage (some p) none (p ∷ []) none
    shown : (p : Prompt ssl) → Stage (some p) none [] (some p)
    answered : (p : Prompt ssl) (b : Bool) → Stage (some p) (some b) [] none
    lost : (p : Prompt ssl) → Stage (some p) none [] none

  abbrev pub IsCoherent : Desktop ssl → Type 0
  IsCoherent s = Stage s.asking s.channel s.posted s.dialog

  -- The desktop with these parts, the rest of `s` kept.
  abbrev with_stage :
      Desktop ssl
      → Option (Prompt ssl)
      → Option Bool
      → List (Prompt ssl)
      → Option (Prompt ssl)
      → Desktop ssl
  with_stage s asking channel posted dialog = record s {
    asking = asking;
    channel = channel;
    posted = posted;
    dialog = dialog;
  }

module _ {ssl : Openssl} where
  begin_ask-Stage :
      {asking : Option (Prompt ssl)} {channel : Option Bool} {posted : List (Prompt ssl)}
      {dialog : Option (Prompt ssl)} (p : Prompt ssl) (main : MainThread) (poisoned : Bool)
      (s : Desktop ssl)
      → Stage asking channel posted dialog
      → IsCoherent (begin_ask poisoned main asking p (with_stage s asking channel posted dialog))
  begin_ask-Stage p ended poisoned s st = st
  begin_ask-Stage p in_box poisoned s st = st
  begin_ask-Stage p in_box_menu poisoned s st = st
  begin_ask-Stage p in_own_lock poisoned s st = st
  begin_ask-Stage p main true s st = st
  begin_ask-Stage p main false s quiet = queued p
  begin_ask-Stage p main false s (queued q) = queued q
  begin_ask-Stage p main false s (shown q) = shown q
  begin_ask-Stage p main false s (answered q b) = answered q b
  begin_ask-Stage p main false s (lost q) = lost q

  end_ask-Stage :
      {asking : Option (Prompt ssl)} {channel : Option Bool} {posted : List (Prompt ssl)}
      {dialog : Option (Prompt ssl)} (main : MainThread) (s : Desktop ssl)
      → Stage asking channel posted dialog
      → IsCoherent (end_ask main asking channel (with_stage s asking channel posted dialog))
  end_ask-Stage ended s st = st
  end_ask-Stage main s (answered q b) = quiet
  end_ask-Stage main s quiet = quiet
  end_ask-Stage main s (queued q) = queued q
  end_ask-Stage main s (shown q) = shown q
  end_ask-Stage main s (lost q) = lost q

  take_message-Stage :
      {asking : Option (Prompt ssl)} {channel : Option Bool} {posted : List (Prompt ssl)}
      {dialog : Option (Prompt ssl)} (main : MainThread) (quit : Bool) (s : Desktop ssl)
      → Stage asking channel posted dialog
      → IsCoherent (take_message main posted quit (with_stage s asking channel posted dialog))
  take_message-Stage in_loop quit s (queued q) = shown q
  take_message-Stage in_loop true s st = st
  take_message-Stage in_loop false s st = st
  take_message-Stage main quit s st = st

  lose_message-Stage :
      {asking : Option (Prompt ssl)} {channel : Option Bool} {posted : List (Prompt ssl)}
      {dialog : Option (Prompt ssl)} (main : MainThread) (s : Desktop ssl)
      → Stage asking channel posted dialog
      → IsCoherent (lose_message main posted (with_stage s asking channel posted dialog))
  lose_message-Stage in_menu s (queued q) = lost q
  lose_message-Stage in_box s (queued q) = lost q
  lose_message-Stage in_menu s st = st
  lose_message-Stage in_box s st = st
  lose_message-Stage in_box_menu s (queued q) = lost q
  lose_message-Stage in_box_menu s st = st
  lose_message-Stage main s st = st

  answer_dialog-Stage :
      {asking : Option (Prompt ssl)} {channel : Option Bool} {posted : List (Prompt ssl)}
      {dialog : Option (Prompt ssl)} (served : Bool) (answer : Option Bool) (s : Desktop ssl)
      → Stage asking channel posted dialog
      → IsCoherent (answer_dialog served dialog answer (with_stage s asking channel posted dialog))
  answer_dialog-Stage true (some b) s (shown q) = answered q b
  answer_dialog-Stage true none s (shown q) = shown q
  answer_dialog-Stage false answer s (shown q) = shown q
  answer_dialog-Stage served answer s st = st

  open_menu-Stage :
      (main : MainThread) (context : Bool) (s : Desktop ssl)
      → IsCoherent s
      → IsCoherent (open_menu main context s)
  open_menu-Stage in_loop true s st = st
  open_menu-Stage in_box true s st = st
  open_menu-Stage main context s st = st

  close_box-Stage :
      (main : MainThread) (s : Desktop ssl) → IsCoherent s → IsCoherent (close_box main s)
  close_box-Stage in_box s st = st
  close_box-Stage main s st = st

module _ (toml : Toml) {ssl : Openssl} where
  reloaded-Stage :
      (r : Outcome (Unit {0}) × (Config ssl × Disk)) (s : Desktop ssl)
      → IsCoherent s
      → IsCoherent (reloaded toml r s)
  reloaded-Stage (ok done, (config, disk)) s st = st
  reloaded-Stage (err e, (config, disk)) s st = st
  reloaded-Stage (panic, (config, disk)) s st = st

  reload_locked-Stage :
      (poisoned : Bool) (holder : Option (Prompt ssl)) (s : Desktop ssl)
      → IsCoherent s
      → IsCoherent (reload_locked toml poisoned holder s)
  reload_locked-Stage poisoned (some holder) s st = st
  reload_locked-Stage true none s st = st
  reload_locked-Stage false none s st = reloaded-Stage (reload toml ssl (s.config, s.disk)) s st

  reload_config-Stage : (s : Desktop ssl) → IsCoherent s → IsCoherent (reload_config toml s)
  unfolding reload_config
  reload_config-Stage s st = reload_locked-Stage s.poisoned s.asking s st

  pick_command-Stage :
      (main : MainThread) (command : ℕ) (s : Desktop ssl)
      → IsCoherent s
      → IsCoherent (pick_command toml main command s)
  pick_command-Stage in_menu command s st = elim (Bool-cases (command == 1)) [
    | inl e ↦ rw e st
    | inr n ↦ elim (Bool-cases (command == 2)) [
      | inl e ↦ rw (n, e) (reload_config-Stage s st)
      | inr m ↦ rw (n, m) st
    ]
  ]
  pick_command-Stage in_box_menu command s st = elim (Bool-cases (command == 1)) [
    | inl e ↦ rw e st
    | inr n ↦ elim (Bool-cases (command == 2)) [ inl e ↦ rw (n, e) st | inr m ↦ rw (n, m) st ]
  ]
  pick_command-Stage main command s st = st

  take_mutex-Stage :
      (main : MainThread) (holder : Option (Prompt ssl)) (s : Desktop ssl)
      → IsCoherent s
      → IsCoherent (take_mutex toml main holder s)
  take_mutex-Stage in_lock none s st = reload_config-Stage s st
  take_mutex-Stage main holder s st = st

  -- Every event keeps the prompt at one place.
  pub step-Stage : (e : Event ssl) (s : Desktop ssl) → IsCoherent s → IsCoherent (step toml e s)
  unfolding step
  step-Stage (asks p) s st = begin_ask-Stage p s.main s.poisoned s st
  step-Stage receives s st = end_ask-Stage s.main s st
  step-Stage loop_takes s st = take_message-Stage s.main s.quit s st
  step-Stage modal_takes s st = lose_message-Stage s.main s st
  step-Stage (commanded w) s st = answer_dialog-Stage (serves_windows s.main) (dlg_command w) s st
  step-Stage (notified l) s st = open_menu-Stage s.main (l % 2 ^ 16 == 0x7b) s st
  step-Stage (picked n) s st = pick_command-Stage s.main n s st
  step-Stage box_closes s st = close_box-Stage s.main s st
  step-Stage gets_mutex s st = take_mutex-Stage s.main s.asking s st

  -- A coherent desktop is coherent after any events: either nobody asks, and there is no prompt or
  -- answer anywhere, or one thread asks, and its prompt, and no other, is at one place: in the main
  -- thread's queue, in the one dialog, answered in the channel, or lost.
  pub run_events-IsCoherent :
      (es : List (Event ssl)) (s : Desktop ssl) → IsCoherent s → IsCoherent (run_events toml es s)
  unfolding run_events
  run_events-IsCoherent [] s st = st
  run_events-IsCoherent (e ∷ es) s st = run_events-IsCoherent es _ (step-Stage e s st)
