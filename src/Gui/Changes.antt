-- ===== src/Gui/Changes.antt =====
-- What each event does to the thread that asks for a confirmation and to its answers.
use ssh_keys.Base.{
  ℕ, ◌/◌, ◌%◌, ◌^◌, ◌≡◌, refl, sym, Bool, true, false, Option, some, none, List, [], ◌∷◌, ◌==◌,
  arith, ◌⊎◌, inl, inr, Bool-cases,
}
use ssh_keys.Outcome.{Outcome, ok, err, panic}
use ssh_keys.Packages.{Openssl}
use ssh_keys.Disk.{Disk}
use ssh_keys.Config.{Toml, Config, reload}
use ssh_keys.Agent.{Prompt}
use ssh_keys.Gui.Desktop.{
  MainThread, in_loop, in_box_menu, in_own_lock, in_menu, in_box, in_lock, ended, Desktop, Event,
  asks, receives, loop_takes, modal_takes, commanded, notified, picked, box_closes, gets_mutex,
  dlg_command, step, reload_config, reloaded, reload_locked, begin_ask, end_ask, take_message,
  lose_message, answer_dialog, serves_windows, open_menu, close_box, pick_command, take_mutex,
}

-- IDOK was clicked: the low word of the `wparam` is 1, and the word above it BN_CLICKED.
abbrev pub IsOk : ℕ → Type 0
IsOk wparam = (wparam % 2 ^ 16 ≡ 1) × (wparam / 2 ^ 16 % 2 ^ 16 ≡ 0)

pub dlg_command-IsOk : (w : ℕ) → dlg_command w ≡ some true → IsOk w
unfolding dlg_command
dlg_command-IsOk w h = ground arith

module _ {ssl : Openssl} where
  -- A prompt was given an answer.
  abbrev pub HasAnswer : Prompt ssl → Bool → List (Prompt ssl × Bool) → Type 0
  HasAnswer p b [] = ⊥
  HasAnswer p b ((q, c) ∷ rest) = ((q ≡ p) × (c ≡ b)) ⊎ HasAnswer p b rest

  -- What one event does to the thread that asks, and to its answers.
  pub data Change (e : Event ssl) (s t : Desktop ssl) : Type 0 where
    kept : t.asking ≡ s.asking → t.channel ≡ s.channel → t.answers ≡ s.answers → Change e s t
    began : s.asking ≡ none → t.channel ≡ s.channel → t.answers ≡ s.answers → Change e s t
    sent :
        (w : ℕ) (p : Prompt ssl) (b : Bool)
        → e ≡ commanded w
        → s.dialog ≡ some p
        → dlg_command w ≡ some b
        → t.asking ≡ s.asking
        → t.channel ≡ some b
        → t.answers ≡ s.answers
        → Change e s t
    received :
        (p : Prompt ssl) (b : Bool)
        → s.asking ≡ some p
        → s.channel ≡ some b
        → t.channel ≡ none
        → t.answers ≡ (p, b) ∷ s.answers
        → Change e s t

  -- Nothing of the thread that asks changes.
  abbrev pub Same : Desktop ssl → Desktop ssl → Type 0
  Same s t = (t.asking ≡ s.asking) × (t.channel ≡ s.channel) × (t.answers ≡ s.answers)

  Same-Change : {e : Event ssl} {s t : Desktop ssl} → Same s t → Change e s t
  Same-Change (a, c, l) = kept a c l

  begin_ask-Change :
      (p : Prompt ssl) (main : MainThread) (poisoned : Bool) (holder : Option (Prompt ssl))
      (s : Desktop ssl)
      → holder ≡ s.asking
      → Change (asks p) s (begin_ask poisoned main holder p s)
  begin_ask-Change p ended poisoned holder s h = kept refl refl refl
  begin_ask-Change p in_box poisoned holder s h = kept refl refl refl
  begin_ask-Change p in_box_menu poisoned holder s h = kept refl refl refl
  begin_ask-Change p in_own_lock poisoned holder s h = kept refl refl refl
  begin_ask-Change p main true holder s h = kept refl refl refl
  begin_ask-Change p main false (some q) s h = kept refl refl refl
  begin_ask-Change p main false none s h = began (sym h) refl refl

  end_ask-Change :
      (main : MainThread) (holder : Option (Prompt ssl)) (answer : Option Bool) (s : Desktop ssl)
      → holder ≡ s.asking
      → answer ≡ s.channel
      → Change receives s (end_ask main holder answer s)
  end_ask-Change ended holder answer s h a = kept refl refl refl
  end_ask-Change main none answer s h a = kept refl refl refl
  end_ask-Change main (some p) none s h a = kept refl refl refl
  end_ask-Change main (some p) (some b) s h a = received p b (sym h) (sym a) refl refl

  answer_dialog-Change :
      (w : ℕ) (served : Bool) (dialog : Option (Prompt ssl)) (answer : Option Bool)
      (s : Desktop ssl)
      → dialog ≡ s.dialog
      → answer ≡ dlg_command w
      → Change (commanded w) s (answer_dialog served dialog answer s)
  answer_dialog-Change w true (some p) (some b) s d a =
      sent w p b refl (sym d) (sym a) refl refl refl
  answer_dialog-Change w served dialog answer s d a = kept refl refl refl

  take_message-Same :
      (main : MainThread) (posted : List (Prompt ssl)) (quit : Bool) (s : Desktop ssl)
      → Same s (take_message main posted quit s)
  take_message-Same in_loop (p ∷ ps) quit s = (refl, refl, refl)
  take_message-Same in_loop [] true s = (refl, refl, refl)
  take_message-Same main posted quit s = (refl, refl, refl)

  lose_message-Same :
      (main : MainThread) (posted : List (Prompt ssl)) (s : Desktop ssl)
      → Same s (lose_message main posted s)
  lose_message-Same in_menu (p ∷ ps) s = (refl, refl, refl)
  lose_message-Same in_box (p ∷ ps) s = (refl, refl, refl)
  lose_message-Same in_box_menu (p ∷ ps) s = (refl, refl, refl)
  lose_message-Same main posted s = (refl, refl, refl)

  open_menu-Same :
      (main : MainThread) (context : Bool) (s : Desktop ssl) → Same s (open_menu main context s)
  open_menu-Same in_loop true s = (refl, refl, refl)
  open_menu-Same in_box true s = (refl, refl, refl)
  open_menu-Same main context s = (refl, refl, refl)

  close_box-Same : (main : MainThread) (s : Desktop ssl) → Same s (close_box main s)
  close_box-Same in_box s = (refl, refl, refl)
  close_box-Same main s = (refl, refl, refl)

module _ (toml : Toml) {ssl : Openssl} where
  reloaded-Same :
      (r : Outcome (Unit {0}) × (Config ssl × Disk)) (s : Desktop ssl) → Same s (reloaded toml r s)
  reloaded-Same (ok done, (config, disk)) s = (refl, refl, refl)
  reloaded-Same (err e, (config, disk)) s = (refl, refl, refl)
  reloaded-Same (panic, (config, disk)) s = (refl, refl, refl)

  reload_locked-Same :
      (poisoned : Bool) (holder : Option (Prompt ssl)) (s : Desktop ssl)
      → Same s (reload_locked toml poisoned holder s)
  reload_locked-Same poisoned (some holder) s = (refl, refl, refl)
  reload_locked-Same true none s = (refl, refl, refl)
  reload_locked-Same false none s = reloaded-Same (reload toml ssl (s.config, s.disk)) s

  reload_config-Same : (s : Desktop ssl) → Same s (reload_config toml s)
  unfolding reload_config
  reload_config-Same s = reload_locked-Same s.poisoned s.asking s

  pick_command-Same :
      (main : MainThread) (command : ℕ) (s : Desktop ssl)
      → Same s (pick_command toml main command s)
  pick_command-Same in_menu command s = elim (Bool-cases (command == 1)) [
    | inl e ↦ rw e (refl, refl, refl)
    | inr n ↦ elim (Bool-cases (command == 2)) [
      | inl e ↦ rw (n, e) (reload_config-Same s)
      | inr m ↦ rw (n, m) (refl, refl, refl)
    ]
  ]
  pick_command-Same in_box_menu command s = elim (Bool-cases (command == 1)) [
    | inl e ↦ rw e (refl, refl, refl)
    | inr n ↦ elim (Bool-cases (command == 2)) [
      | inl e ↦ rw (n, e) (refl, refl, refl)
      | inr m ↦ rw (n, m) (refl, refl, refl)
    ]
  ]
  pick_command-Same main command s = (refl, refl, refl)

  take_mutex-Same :
      (main : MainThread) (holder : Option (Prompt ssl)) (s : Desktop ssl)
      → Same s (take_mutex toml main holder s)
  take_mutex-Same in_lock none s = reload_config-Same s
  take_mutex-Same main holder s = (refl, refl, refl)

  pub step-Change : (e : Event ssl) (s : Desktop ssl) → Change e s (step toml e s)
  unfolding step
  step-Change (asks p) s = begin_ask-Change p s.main s.poisoned s.asking s refl
  step-Change receives s = end_ask-Change s.main s.asking s.channel s refl refl
  step-Change loop_takes s = Same-Change (take_message-Same s.main s.posted s.quit s)
  step-Change modal_takes s = Same-Change (lose_message-Same s.main s.posted s)
  step-Change (commanded w) s =
      answer_dialog-Change w (serves_windows s.main) s.dialog (dlg_command w) s refl refl
  step-Change (notified l) s = Same-Change (open_menu-Same s.main (l % 2 ^ 16 == 0x7b) s)
  step-Change (picked n) s = Same-Change (pick_command-Same s.main n s)
  step-Change box_closes s = Same-Change (close_box-Same s.main s)
  step-Change gets_mutex s = Same-Change (take_mutex-Same s.main s.asking s)
