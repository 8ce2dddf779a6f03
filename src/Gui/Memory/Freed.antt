-- ===== src/Gui/Memory/Freed.antt =====
-- src/platform/win/confirmation.rs: an order of events in which the main thread reads the
-- confirmation after the thread that asked has freed it.
use ssh_keys.Base.{◌≡◌, refl, Bool, true, false, List, [], ◌∷◌}
use ssh_keys.Gui.Memory.{
  Message, init_dialog, clicked, destroy, other, Event, delivers, main_runs, asker_runs, main_step,
  deliver, asker_step, step, run_events, start,
}
use ssh_keys.Gui.Memory.Stages.{Sent, sent_destroy, sent_other}

-- The dialog opens; a button is clicked, and handled up to `DestroyWindow`; its message `m` is relayed
-- when `ask_confirmation` returns.
abbrev pub too_late : Bool → Bool → Message → List Event
too_late described is_ok m =
    delivers (init_dialog described)
    ∷ main_runs
    ∷ main_runs
    ∷ main_runs
    ∷ main_runs
    ∷ delivers (clicked is_ok)
    ∷ main_runs
    ∷ main_runs
    ∷ main_runs
    ∷ main_runs
    ∷ delivers m
    ∷ main_runs
    ∷ asker_runs
    ∷ asker_runs
    ∷ asker_runs
    ∷ main_runs
    ∷ []

-- Whether the client is described or not, whatever button is clicked, and for every kind of message that
-- `DestroyWindow` sends, there is an order of events in which the main thread reads the confirmation
-- after it was freed.
pub run_events_too_late :
    (described is_ok : Bool) (m : Message)
    → Sent m
    → (es : List Event) × ((run_events es start).read_freed ≡ true)
unfolding run_events step main_step deliver asker_step
run_events_too_late true is_ok m sent_destroy = (too_late true is_ok destroy, refl)
run_events_too_late true is_ok m sent_other = (too_late true is_ok other, refl)
run_events_too_late false is_ok m sent_destroy = (too_late false is_ok destroy, refl)
run_events_too_late false is_ok m sent_other = (too_late false is_ok other, refl)
