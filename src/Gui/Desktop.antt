-- ===== src/Gui/Desktop.antt =====
-- src/platform/win/mod.rs (`serve`), confirmation.rs (`ask_confirmation`, WM_COMMAND of `dlg_proc`)
-- and taskbar.rs (`wnd_proc`): the main thread, the dialog that it shows, the menu of the taskbar's
-- icon, and the thread that waits for an answer with the agent's mutex locked.
use ssh_keys.Base.{
  ℕ, ◌/◌, ◌%◌, ◌^◌, Bool, true, false, Option, some, none, List, [], ◌∷◌, ◌++◌, ◌==◌, if◌then◌else◌,
}
use ssh_keys.Outcome.{Outcome, ok, err, panic}
use ssh_keys.Packages.{Openssl}
use ssh_keys.Disk.{Disk}
use ssh_keys.Config.{Toml, Config, reload}
use ssh_keys.Agent.{Prompt}

-- Where the main thread is: in the loop of `serve`; in TrackPopupMenuEx or MessageBoxA, which run a
-- loop of their own; in the menu that the loop of a box opened; in `agent.lock()`, of a mutex that
-- another thread has, or that it has itself; or the process has ended.
pub data MainThread : Type 0 where
  in_loop in_menu in_box in_box_menu in_lock in_own_lock ended : MainThread

-- `asking` is the prompt of the thread that is in `ask_confirmation`, and has the mutex; `channel`
-- is the answer that was sent to it; `posted` are the prompts of the messages WM_SHOW_CONFIRMATION
-- in the main thread's queue; `dialog` is the prompt of the open dialog; `quit` is whether
-- PostQuitMessage was called. `answers` are the results of `ask_confirmation`, the last one first.
pub record Desktop (ssl : Openssl) : Type 0 where
  pub config : Config ssl
  pub disk : Disk
  pub poisoned : Bool
  pub asking : Option (Prompt ssl)
  pub channel : Option Bool
  pub posted : List (Prompt ssl)
  pub dialog : Option (Prompt ssl)
  pub quit : Bool
  pub main : MainThread
  pub answers : List (Prompt ssl × Bool)

-- What can happen next: a thread calls `ask_confirmation`; it receives the answer; the loop of
-- `serve`, or that of a menu or a box, takes a message of the thread; the dialog gets WM_COMMAND with
-- a `wparam`; the taskbar's icon notifies with an `lparam`; the menu returns a command; the box is
-- closed; the main thread gets the mutex that it waits for.
pub data Event (ssl : Openssl) : Type 0 where
  asks : Prompt ssl → Event ssl
  receives : Event ssl
  loop_takes modal_takes : Event ssl
  commanded : ℕ → Event ssl
  notified : ℕ → Event ssl
  picked : ℕ → Event ssl
  box_closes : Event ssl
  gets_mutex : Event ssl

-- WM_COMMAND: the answer that is sent, if the notification is BN_CLICKED; IDOK is 1.
unfoldable pub dlg_command : ℕ → Option Bool
dlg_command wparam =
    let n_code = wparam / 2 ^ 16 % 2 ^ 16 in
    let btn_id = wparam % 2 ^ 16 in if n_code == 0 then some (btn_id == 1) else none

abbrev pub wm_contextmenu : ℕ
wm_contextmenu = 0x7b

-- Whether windows get their messages: not while the main thread waits for the mutex.
abbrev pub serves_windows : MainThread → Bool
serves_windows in_loop = true
serves_windows in_menu = true
serves_windows in_box = true
serves_windows in_box_menu = true
serves_windows in_lock = false
serves_windows in_own_lock = false
serves_windows ended = false

module _ {ssl : Openssl} where
  -- ask_confirmation, up to `recv`; its thread has the mutex, which the main thread keeps while the
  -- box with an error of `reload` is open.
  abbrev pub begin_ask :
      Bool → MainThread → Option (Prompt ssl) → Prompt ssl → Desktop ssl → Desktop ssl
  begin_ask poisoned ended holder p s = s
  begin_ask poisoned in_box holder p s = s
  begin_ask poisoned in_box_menu holder p s = s
  begin_ask poisoned in_own_lock holder p s = s
  begin_ask true main holder p s = s
  begin_ask false main (some q) p s = s
  begin_ask false main none p s = record s { asking = some p; posted = s.posted ++ (p ∷ []) }

  abbrev pub end_ask : MainThread → Option (Prompt ssl) → Option Bool → Desktop ssl → Desktop ssl
  end_ask ended holder answer s = s
  end_ask main none answer s = s
  end_ask main (some p) none s = s
  end_ask main (some p) (some b) s = record s {
    asking = none;
    channel = none;
    answers = (p, b) ∷ s.answers;
  }

  -- The loop of `serve`: a prompt is shown, and WM_QUIT comes after all messages.
  abbrev pub take_message : MainThread → List (Prompt ssl) → Bool → Desktop ssl → Desktop ssl
  take_message in_loop (p ∷ ps) quit s = record s { posted = ps; dialog = some p }
  take_message in_loop [] true s = record s { main = ended }
  take_message main posted quit s = s

  -- A message that belongs to no window is dispatched to none by the loop of a menu or a box.
  abbrev pub lose_message : MainThread → List (Prompt ssl) → Desktop ssl → Desktop ssl
  lose_message in_menu (p ∷ ps) s = record s { posted = ps }
  lose_message in_box (p ∷ ps) s = record s { posted = ps }
  lose_message in_box_menu (p ∷ ps) s = record s { posted = ps }
  lose_message main posted s = s

  -- dlg_proc on WM_COMMAND
  abbrev pub answer_dialog : Bool → Option (Prompt ssl) → Option Bool → Desktop ssl → Desktop ssl
  answer_dialog true (some p) (some b) s = record s { channel = some b; dialog = none }
  answer_dialog served dialog answer s = s

  -- wnd_proc of the taskbar on WM_NOTIFICATION_MSG, up to the menu
  abbrev pub open_menu : MainThread → Bool → Desktop ssl → Desktop ssl
  open_menu in_loop true s = record s { main = in_menu }
  open_menu in_box true s = record s { main = in_box_menu }
  open_menu main context s = s

  abbrev pub close_box : MainThread → Desktop ssl → Desktop ssl
  close_box in_box s = record s { main = in_loop }
  close_box main s = s

module _ (toml : Toml) {ssl : Openssl} where
  abbrev pub reloaded : Outcome (Unit {0}) × (Config ssl × Disk) → Desktop ssl → Desktop ssl
  reloaded (ok done, (config, disk)) s = record s { config = config; disk = disk; main = in_loop }
  reloaded (err e, (config, disk)) s = record s { config = config; disk = disk; main = in_box }
  reloaded (panic, (config, disk)) s = record s {
    config = config;
    disk = disk;
    poisoned = true;
    main = ended;
  }

  -- `lock().unwrap()` and the reload: a panic leaves the window's procedure, and ends the process.
  abbrev pub reload_locked : Bool → Option (Prompt ssl) → Desktop ssl → Desktop ssl
  reload_locked poisoned (some holder) s = record s { main = in_lock }
  reload_locked true none s = record s { main = ended }
  reload_locked false none s = reloaded (reload toml ssl (s.config, s.disk)) s

  unfoldable pub reload_config : Desktop ssl → Desktop ssl
  reload_config s = reload_locked s.poisoned s.asking s

  -- The commands of the menu.
  abbrev pub menu_command : ℕ → Desktop ssl → Desktop ssl
  menu_command command s =
      if command == 1
      then record s { main = in_loop; quit = true }
      else if command == 2
      then reload_config s
      else record s { main = in_loop }

  -- The same over a box, where the main thread has the mutex already.
  abbrev pub box_menu_command : ℕ → Desktop ssl → Desktop ssl
  box_menu_command command s =
      if command == 1
      then record s { main = in_box; quit = true }
      else if command == 2
      then record s { main = in_own_lock }
      else record s { main = in_box }

  abbrev pub pick_command : MainThread → ℕ → Desktop ssl → Desktop ssl
  pick_command in_menu command s = menu_command command s
  pick_command in_box_menu command s = box_menu_command command s
  pick_command main command s = s

  abbrev pub take_mutex : MainThread → Option (Prompt ssl) → Desktop ssl → Desktop ssl
  take_mutex in_lock none s = reload_config s
  take_mutex main holder s = s

  unfoldable pub step : Event ssl → Desktop ssl → Desktop ssl
  unfolding dlg_command
  step (asks p) s = begin_ask s.poisoned s.main s.asking p s
  step receives s = end_ask s.main s.asking s.channel s
  step loop_takes s = take_message s.main s.posted s.quit s
  step modal_takes s = lose_message s.main s.posted s
  step (commanded wparam) s = answer_dialog (serves_windows s.main) s.dialog (dlg_command wparam) s
  step (notified lparam) s = open_menu s.main (lparam % 2 ^ 16 == wm_contextmenu) s
  step (picked command) s = pick_command s.main command s
  step box_closes s = close_box s.main s
  step gets_mutex s = take_mutex s.main s.asking s

  -- Events one after another.
  unfoldable pub run_events : List (Event ssl) → Desktop ssl → Desktop ssl
  run_events [] s = s
  run_events (e ∷ es) s = run_events es (step e s)
