-- ===== src/Gui/Memory.antt =====
-- src/platform/win/confirmation.rs and src/utils.rs (Finally): the confirmation, which is a local
-- variable of the thread that asks, the address of it that the dialog holds, and the reads of it by
-- the main thread in `dlg_proc`.
pub mod Stages
pub mod Reads
pub mod Freed
use ssh_keys.Base.{Bool, true, false, ◌||◌, Option, some, none, List, [], ◌∷◌}
use ssh_keys.Outcome.{Outcome, ok, err, panic}
use ssh_keys.Finally.{new_finally, drop_finally}

-- The messages of the dialog: WM_INITDIALOG, with a description of the client or without one, a
-- WM_COMMAND with BN_CLICKED from OK or from another button, WM_DESTROY, and the others.
pub data Message : Type 0 where
  init_dialog : Bool → Message
  clicked : Bool → Message
  destroy : Message
  other : Message

-- A call of `dlg_proc`: before line 65; with the pointer of line 65, which is null or not; before the
-- `match`; in WM_INITDIALOG after line 89; in WM_COMMAND with the pointer of line 229; and in
-- `DestroyWindow`.
pub data Frame : Type 0 where
  entered : Message → Frame
  relays : Message → Bool → Frame
  handles : Message → Frame
  sets_up : Bool → Frame
  sends : Bool → Bool → Frame
  destroys : Frame

pub data Window : Type 0 where
  absent : Window
  shown : Window
  destroyed : Window

-- The thread in `ask_confirmation`: in `recv`; with the answer; after `_set_null` is dropped; and
-- after `confirmation` is dropped.
pub data Asker : Type 0 where
  waits : Asker
  answered : Bool → Asker
  cleared : Bool → Asker
  returned : Bool → Asker

-- The calls of `dlg_proc`, the innermost first; the window; whether DWLP_USER is the confirmation's
-- address; confirmation.dlg and confirmation.tooltip; and whether the confirmation was read after it
-- was freed, and through a null pointer.
pub record Dialog : Type 0 where
  pub calls : List Frame
  pub window : Window
  pub user : Bool
  pub dlg : Bool
  pub tooltip : Bool
  pub channel : Option Bool
  pub asker : Asker
  pub read_freed : Bool
  pub read_null : Bool

abbrev pub is_freed : Asker → Bool
is_freed (returned b) = true
is_freed asker = false

abbrev pub reads : Dialog → Bool
reads s = s.read_freed || is_freed s.asker

-- One step of the innermost call.
unfoldable pub main_step : List Frame → Dialog → Dialog
main_step [] s = s
main_step (entered m ∷ fs) s = record s { calls = relays m s.user ∷ fs }
main_step (relays m false ∷ fs) s = record s { calls = handles m ∷ fs }
main_step (relays m true ∷ fs) s = record s { calls = handles m ∷ fs; read_freed = reads s }
main_step (handles (init_dialog described) ∷ fs) s = record s {
  calls = sets_up described ∷ fs;
  window = shown;
  user = true;
  dlg = true;
  read_freed = reads s;
}
main_step (handles (clicked is_ok) ∷ fs) s = record s { calls = sends is_ok s.user ∷ fs }
main_step (handles destroy ∷ fs) s = record s { calls = fs }
main_step (handles other ∷ fs) s = record s { calls = fs }
main_step (sets_up false ∷ fs) s = record s { calls = fs }
main_step (sets_up true ∷ fs) s = record s { calls = fs; tooltip = true; read_freed = reads s }
main_step (sends is_ok false ∷ fs) s = record s { calls = fs; read_null = true }
main_step (sends is_ok true ∷ fs) s = record s {
  calls = destroys ∷ fs;
  channel = some is_ok;
  read_freed = reads s;
}
main_step (destroys ∷ fs) s = record s { calls = fs; window = destroyed }

-- A message comes: the first one and clicks where no call runs, WM_DESTROY from `DestroyWindow`, and
-- the others at any time, since what `dlg_proc` calls sends messages too.
unfoldable pub deliver : Message → List Frame → Window → Dialog → Dialog
deliver (init_dialog described) [] absent s = record s {
  calls = entered (init_dialog described) ∷ [];
}
deliver (clicked is_ok) [] shown s = record s { calls = entered (clicked is_ok) ∷ [] }
deliver destroy (destroys ∷ fs) window s = record s { calls = entered destroy ∷ destroys ∷ fs }
deliver other [] destroyed s = s
deliver other calls window s = record s { calls = entered other ∷ calls }
deliver m calls window s = s

-- The closure of `_set_null`, on DWLP_USER.
abbrev pub set_null : Bool → Bool → Bool
set_null true user = false
set_null false user = user

-- `_set_null` is dropped.
abbrev pub nulled : Bool → Outcome Bool → Dialog → Dialog
nulled b (ok user) s = record s { asker = cleared b; user = user }
nulled b (err e) s = s
nulled b panic s = s

-- One step of the thread that asks. Local variables are dropped in the reverse order: `_set_null`
-- before `confirmation`.
unfoldable pub asker_step : Asker → Option Bool → Dialog → Dialog
asker_step waits (some b) s = record s { asker = answered b; channel = none }
asker_step (answered b) channel s = nulled b (drop_finally (new_finally (set_null s.dlg)) s.user) s
asker_step (cleared b) channel s = record s { asker = returned b }
asker_step asker channel s = s

pub data Event : Type 0 where
  delivers : Message → Event
  main_runs : Event
  asker_runs : Event

unfoldable pub step : Event → Dialog → Dialog
step (delivers m) s = deliver m s.calls s.window s
step main_runs s = main_step s.calls s
step asker_runs s = asker_step s.asker s.channel s

unfoldable pub run_events : List Event → Dialog → Dialog
run_events [] s = s
run_events (e ∷ es) s = run_events es (step e s)

-- The prompt is posted.
abbrev pub start : Dialog
start = record {
  calls = [];
  window = absent;
  user = false;
  dlg = false;
  tooltip = false;
  channel = none;
  asker = waits;
  read_freed = false;
  read_null = false;
}
