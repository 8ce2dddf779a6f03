-- ===== src/Gui/Memory/Stages.antt =====
-- src/platform/win/confirmation.rs: the calls of `dlg_proc` before the answer is sent, and after it.
pub mod Kept
use ssh_keys.Base.{◌≡◌, ◌≢◌, refl, sym, Bool, true, false, ◌||◌, Option, some, none, List, [], ◌∷◌}
use mathlib.Core.Path.{subst}
use ssh_keys.Gui.Memory.{
  Message, init_dialog, clicked, destroy, other, Frame, entered, relays, handles, sets_up, sends,
  destroys, Window, absent, shown, destroyed, Asker, waits, answered, cleared, returned, Dialog,
  is_freed, main_step, deliver, asker_step, Event, delivers, main_runs, asker_runs, step,
  run_events, start,
}

-- The messages that another call sends.
pub data Sent : Message → Type 0 where
  sent_destroy : Sent destroy
  sent_other : Sent other

pub data Nested : Frame → Type 0 where
  in_entry : {m : Message} → Sent m → Nested (entered m)
  in_relay : {m : Message} (p : Bool) → Sent m → Nested (relays m p)
  in_match : {m : Message} → Sent m → Nested (handles m)

pub data SettingUp : Frame → Type 0 where
  init_entry : (d : Bool) → SettingUp (entered (init_dialog d))
  init_relay : (d p : Bool) → SettingUp (relays (init_dialog d) p)
  init_match : (d : Bool) → SettingUp (handles (init_dialog d))
  init_rest : (d : Bool) → SettingUp (sets_up d)

pub data Clicking : Frame → Type 0 where
  click_entry : (b : Bool) → Clicking (entered (clicked b))
  click_relay : (b p : Bool) → Clicking (relays (clicked b) p)
  click_match : (b : Bool) → Clicking (handles (clicked b))
  click_sends : (b : Bool) → Clicking (sends b true)

-- The calls before the answer is sent; DWLP_USER is set where a click is handled.
pub data Calm (user : Bool) : List Frame → Type 0 where
  calm : Calm user []
  calm_nested : {f : Frame} {fs : List Frame} → Nested f → Calm user fs → Calm user (f ∷ fs)
  calm_init : {f : Frame} → SettingUp f → Calm user (f ∷ [])
  calm_click : {f : Frame} → Clicking f → user ≡ true → Calm user (f ∷ [])

-- The calls from `DestroyWindow` in WM_COMMAND on.
pub data Closing : List Frame → Type 0 where
  closing : Closing (destroys ∷ [])
  closing_nested : {f : Frame} {fs : List Frame} → Nested f → Closing fs → Closing (f ∷ fs)

pub data Stage (s : Dialog) : Type 0 where
  before :
      s.asker ≡ waits
      → s.channel ≡ none
      → s.window ≢ destroyed
      → (s.window ≡ shown → s.user ≡ true)
      → Calm s.user s.calls
      → Stage s
  after : Closing s.calls → Stage s
  done : s.calls ≡ [] → s.window ≡ destroyed → Stage s
