-- ===== src/Gui/Blocked.antt =====
-- Two orders of the desktop's events after which `ask_confirmation` does not return.
use ssh_keys.Base.{
  ℕ, ◌%◌, ◌^◌, ◌≡◌, refl, ap, Bool, true, false, Option, some, none, List, [], ◌∷◌, ◌==◌, inl, inr,
  Bool-cases,
}
use ssh_keys.Packages.{Openssl}
use ssh_keys.Config.{Toml, Config}
use ssh_keys.Disk.{Disk}
use ssh_keys.Agent.{Prompt}
use ssh_keys.Gui.Desktop.{
  MainThread, in_loop, in_box_menu, in_own_lock, in_menu, in_box, in_lock, ended, Desktop, Event,
  asks, receives, loop_takes, modal_takes, commanded, notified, picked, box_closes, gets_mutex,
  step, run_events, reload_config, wm_contextmenu, open_menu, pick_command,
}

module _ {ssl : Openssl} where
  -- The thread that asks has the mutex and no answer, and the main thread waits for the mutex.
  data Stuck (p : Prompt ssl) : Desktop ssl → Type 0 where
    stuck :
        (config : Config ssl) (disk : Disk) (poisoned : Bool) (posted : List (Prompt ssl))
        (dialog : Option (Prompt ssl)) (quit : Bool) (answers : List (Prompt ssl × Bool))
        → Stuck p record {
          config = config;
          disk = disk;
          poisoned = poisoned;
          asking = some p;
          channel = none;
          posted = posted;
          dialog = dialog;
          quit = quit;
          main = in_lock;
          answers = answers;
        }

module _ (toml : Toml) {ssl : Openssl} {p : Prompt ssl} where
  step-Stuck : (e : Event ssl) {s : Desktop ssl} → Stuck p s → step toml e s ≡ s
  unfolding step
  step-Stuck (asks q) (stuck c d true po di q' a) = refl
  step-Stuck (asks q) (stuck c d false po di q' a) = refl
  step-Stuck receives (stuck c d b po di q a) = refl
  step-Stuck loop_takes (stuck c d b po di q a) = refl
  step-Stuck modal_takes (stuck c d b po di q a) = refl
  step-Stuck (commanded w) (stuck c d b po di q a) = refl
  step-Stuck (notified l) (stuck c d b po di q a) = refl
  step-Stuck (picked n) (stuck c d b po di q a) = refl
  step-Stuck box_closes (stuck c d b po di q a) = refl
  step-Stuck gets_mutex (stuck c d b po di q a) = refl

  run_events-Stuck :
      (es : List (Event ssl)) {s : Desktop ssl} → Stuck p s → run_events toml es s ≡ s
  unfolding run_events
  run_events-Stuck [] h = refl
  run_events-Stuck (e ∷ es) h = rw (step-Stuck e h) (run_events-Stuck es h)

module _ {ssl : Openssl} where
  abbrev lost_at :
      Prompt ssl
      → List (Prompt ssl × Bool)
      → Config ssl
      → Disk
      → Bool
      → Bool
      → MainThread
      → Desktop ssl
  lost_at p answers config disk poisoned quit main = record {
    config = config;
    disk = disk;
    poisoned = poisoned;
    asking = some p;
    channel = none;
    posted = [];
    dialog = none;
    quit = quit;
    main = main;
    answers = answers;
  }

  -- The thread that asks has no answer, and its prompt is neither in the queue nor in a dialog.
  data Lost (p : Prompt ssl) (answers : List (Prompt ssl × Bool)) : Desktop ssl → Type 0 where
    lost :
        (config : Config ssl) (disk : Disk) (poisoned quit : Bool) (main : MainThread)
        → Lost p answers (lost_at p answers config disk poisoned quit main)

module _ (toml : Toml) {ssl : Openssl} {p : Prompt ssl} {a : List (Prompt ssl × Bool)} where
  open_menu-Lost :
      (m : MainThread) (context : Bool) (c : Config ssl) (d : Disk) (b qu : Bool)
      → Lost p a (open_menu m context (lost_at p a c d b qu m))
  open_menu-Lost in_loop true c d b qu = lost c d b qu in_menu
  open_menu-Lost in_loop false c d b qu = lost c d b qu in_loop
  open_menu-Lost in_box true c d b qu = lost c d b qu in_box_menu
  open_menu-Lost in_box false c d b qu = lost c d b qu in_box
  open_menu-Lost m context c d b qu = lost c d b qu m

  pick_command-Lost :
      (m : MainThread) (command : ℕ) (c : Config ssl) (d : Disk) (b qu : Bool)
      → Lost p a (pick_command toml m command (lost_at p a c d b qu m))
  unfolding reload_config
  pick_command-Lost in_menu command c d b qu = elim (Bool-cases (command == 1)) [
    | inl e ↦ rw e (lost c d b true in_loop)
    | inr n ↦ elim (Bool-cases (command == 2)) [
      | inl e ↦ rw (n, e) (lost c d b qu in_lock)
      | inr m ↦ rw (n, m) (lost c d b qu in_loop)
    ]
  ]
  pick_command-Lost in_box_menu command c d b qu = elim (Bool-cases (command == 1)) [
    | inl e ↦ rw e (lost c d b true in_box)
    | inr n ↦ elim (Bool-cases (command == 2)) [
      | inl e ↦ rw (n, e) (lost c d b qu in_own_lock)
      | inr m ↦ rw (n, m) (lost c d b qu in_box)
    ]
  ]
  pick_command-Lost m command c d b qu = lost c d b qu m

  step-Lost : (e : Event ssl) {s : Desktop ssl} → Lost p a s → Lost p a (step toml e s)
  unfolding step
  step-Lost (asks q) (lost c d b qu ended) = lost c d b qu ended
  step-Lost (asks q) (lost c d b qu in_box) = lost c d b qu in_box
  step-Lost (asks q) (lost c d b qu in_box_menu) = lost c d b qu in_box_menu
  step-Lost (asks q) (lost c d b qu in_own_lock) = lost c d b qu in_own_lock
  step-Lost (asks q) (lost c d true qu m) = lost c d true qu m
  step-Lost (asks q) (lost c d false qu m) = lost c d false qu m
  step-Lost receives (lost c d b qu ended) = lost c d b qu ended
  step-Lost receives (lost c d b qu m) = lost c d b qu m
  step-Lost loop_takes (lost c d b true in_loop) = lost c d b true ended
  step-Lost loop_takes (lost c d b false in_loop) = lost c d b false in_loop
  step-Lost loop_takes (lost c d b qu m) = lost c d b qu m
  step-Lost modal_takes (lost c d b qu in_menu) = lost c d b qu in_menu
  step-Lost modal_takes (lost c d b qu m) = lost c d b qu m
  step-Lost (commanded w) (lost c d b qu in_loop) = lost c d b qu in_loop
  step-Lost (commanded w) (lost c d b qu m) = lost c d b qu m
  step-Lost (notified l) (lost c d b qu m) = open_menu-Lost m (l % 2 ^ 16 == 0x7b) c d b qu
  step-Lost (picked n) (lost c d b qu m) = pick_command-Lost m n c d b qu
  step-Lost box_closes (lost c d b qu in_box) = lost c d b qu in_loop
  step-Lost box_closes (lost c d b qu m) = lost c d b qu m
  step-Lost gets_mutex (lost c d b qu in_lock) = lost c d b qu in_lock
  step-Lost gets_mutex (lost c d b qu m) = lost c d b qu m

  run_events-Lost :
      (es : List (Event ssl)) {s : Desktop ssl} → Lost p a s → Lost p a (run_events toml es s)
  unfolding run_events
  run_events-Lost [] h = h
  run_events-Lost (e ∷ es) h = run_events-Lost es (step-Lost e h)

module _ {ssl : Openssl} where
  -- Nobody asks, nothing is in the queue, no dialog is open, the mutex is not poisoned, and the main
  -- thread is in its loop.
  pub data Idle : Desktop ssl → Type 0 where
    idle :
        (config : Config ssl) (disk : Disk) (quit : Bool) (answers : List (Prompt ssl × Bool))
        → Idle record {
          config = config;
          disk = disk;
          poisoned = false;
          asking = none;
          channel = none;
          posted = [];
          dialog = none;
          quit = quit;
          main = in_loop;
          answers = answers;
        }

  Lost-waits :
      {p : Prompt ssl} {a : List (Prompt ssl × Bool)} {s : Desktop ssl}
      → Lost p a s
      → (s.asking ≡ some p) × (s.answers ≡ a)
  Lost-waits (lost c d b qu m) = (refl, refl)

module _ (toml : Toml) {ssl : Openssl} (p : Prompt ssl) where
  -- From an idle desktop: if a thread asks, its prompt is shown, and the user picks the command 2, which
  -- reloads the configuration, from the icon's menu before an answer, then whatever happens next, the
  -- main thread waits for the mutex for ever, and the prompt gets no answer.
  pub reload_config-Stuck :
      (es : List (Event ssl)) (s : Desktop ssl)
      → Idle s
      → let t = run_events toml (asks p ∷ loop_takes ∷ notified wm_contextmenu ∷ picked 2 ∷ es) s in
        (t.main ≡ in_lock) × (t.asking ≡ some p) × (t.answers ≡ s.answers)
  unfolding run_events step reload_config
  reload_config-Stuck es s (idle c d q a) =
      let same = run_events-Stuck toml {p = p} es (stuck c d false [] (some p) q a) in
      (ap (λ t. t.main) same, ap (λ t. t.asking) same, ap (λ t. t.answers) same)

  -- From an idle desktop: if a thread asks while the icon's menu is open, and the loop of the menu takes
  -- its message, then whatever happens next, its prompt gets no answer.
  pub lose_message-Lost :
      (es : List (Event ssl)) (s : Desktop ssl)
      → Idle s
      → let t = run_events toml (notified wm_contextmenu ∷ asks p ∷ modal_takes ∷ es) s in
        (t.asking ≡ some p) × (t.answers ≡ s.answers)
  unfolding run_events step
  lose_message-Lost es s (idle c d q a) =
      Lost-waits (run_events-Lost toml es (lost c d false q in_menu))
