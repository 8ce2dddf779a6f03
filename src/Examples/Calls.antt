-- ===== src/Examples/Calls.antt =====
-- Calls of `dlg_proc`.
use ssh_keys.Base.{◌≡◌, refl, true, List, [], ◌∷◌}
use ssh_keys.Gui.Memory.{
  init_dialog, clicked, destroy, waits, Event, delivers, main_runs, asker_runs, main_step, deliver,
  asker_step, step, run_events, start,
}
use ssh_keys.Gui.Memory.Reads.{Race, run_events-waits, run_events-Race}

-- The dialog opens, and OK is clicked, up to line 230.
abbrev until_send : List Event
until_send =
    delivers (init_dialog true)
    ∷ main_runs
    ∷ main_runs
    ∷ main_runs
    ∷ main_runs
    ∷ delivers (clicked true)
    ∷ main_runs
    ∷ main_runs
    ∷ main_runs
    ∷ []

run_events-waits_example : (true ≡ true) × ((run_events until_send start).asker ≡ waits)
unfolding run_events step main_step deliver asker_step
run_events-waits_example = run_events-waits until_send true true [] refl

-- On, up to the read that comes too late.
abbrev until_read : List Event
until_read =
    delivers (init_dialog true)
    ∷ main_runs
    ∷ main_runs
    ∷ main_runs
    ∷ main_runs
    ∷ delivers (clicked true)
    ∷ main_runs
    ∷ main_runs
    ∷ main_runs
    ∷ main_runs
    ∷ delivers destroy
    ∷ main_runs
    ∷ asker_runs
    ∷ asker_runs
    ∷ asker_runs
    ∷ []

run_events-Race_example : Race (run_events until_read start)
unfolding run_events step main_step deliver asker_step
run_events-Race_example = run_events-Race until_read refl refl
