-- ===== src/Gui/Memory/Reads.antt =====
-- src/platform/win/confirmation.rs: the reads of the confirmation, and when one can come too late.
use ssh_keys.Base.{◌≡◌, ◌≢◌, refl, Bool, true, false, ◌||◌, List, [], ◌∷◌}
use mathlib.Core.Path.{subst}
use ssh_keys.Gui.Memory.{
  Message, init_dialog, clicked, destroy, other, Frame, entered, relays, handles, sets_up, sends,
  destroys, Asker, waits, answered, cleared, returned, Dialog, is_freed, main_step, Event,
  main_runs, step, run_events, start,
}
use ssh_keys.Gui.Memory.Stages.{
  Sent, sent_destroy, sent_other, in_entry, in_relay, in_match, Clicking, click_sends, Calm,
  calm_nested, calm_init, calm_click, Closing, closing, closing_nested, Stage, before, after, done,
}
use ssh_keys.Gui.Memory.Stages.Kept.{start-Stage, run_events-Stage}

Clicking-sends : {b p : Bool} → Clicking (sends b p) → p ≡ true
Clicking-sends (click_sends b) = refl

Calm-sends : {user b p : Bool} {fs : List Frame} → Calm user (sends b p ∷ fs) → p ≡ true
Calm-sends (calm_nested n later) = elim n [ ]
Calm-sends (calm_init n) = elim n [ ]
Calm-sends (calm_click n e) = Clicking-sends n

Closing-sends : {b p : Bool} {fs : List Frame} → ¬ Closing (sends b p ∷ fs)
Closing-sends (closing_nested n later) = elim n [ ]

sends-waits :
    (s : Dialog) (b p : Bool) (fs : List Frame)
    → Stage s
    → s.calls ≡ sends b p ∷ fs
    → (p ≡ true) × (s.asker ≡ waits)
sends-waits s b p fs (before a c w u k) h = (Calm-sends (subst (Calm s.user) h k), a)
sends-waits s b p fs (after k) h = absurd (Closing-sends (subst Closing h k))
sends-waits s b p fs (done e w) h = cc

-- After the prompt is posted, and whatever happened, when WM_COMMAND is about to send the answer, its
-- pointer is not null, and the thread that asks still waits in `recv`: the confirmation is there.
pub run_events-waits :
    (es : List Event) (b p : Bool) (fs : List Frame)
    → (run_events es start).calls ≡ sends b p ∷ fs
    → (p ≡ true) × ((run_events es start).asker ≡ waits)
run_events-waits es b p fs h =
    sends-waits (run_events es start) b p fs (run_events-Stage es start start-Stage) h

-- The call that comes too late: it has loaded the pointer in lines 65 and 66, it was made from
-- `DestroyWindow` in WM_COMMAND, and ask_confirmation has returned.
pub data Race (s : Dialog) : Type 0 where
  race :
      (m : Message) (fs : List Frame) (b : Bool)
      → Sent m
      → s.calls ≡ relays m true ∷ fs
      → Closing fs
      → s.asker ≡ returned b
      → Race s

still_waiting :
    (read : Bool) (asker : Asker) → asker ≡ waits → read ≡ false → (read || is_freed asker) ≢ true
still_waiting true asker a r e = cc
still_waiting false waits a r e = cc
still_waiting false (answered b) a r e = cc
still_waiting false (cleared b) a r e = cc
still_waiting false (returned b) a r e = cc

freed_by : (asker : Asker) → is_freed asker ≡ true → (b : Bool) × (asker ≡ returned b)
freed_by (returned b) e = (b, refl)
freed_by waits e = cc
freed_by (answered b) e = cc
freed_by (cleared b) e = cc

main-read-before :
    (calls : List Frame) (s : Dialog)
    → s.asker ≡ waits
    → s.read_freed ≡ false
    → (main_step calls s).read_freed ≢ true
unfolding main_step
main-read-before [] s a r e = cc
main-read-before (entered m ∷ fs) s a r e = cc
main-read-before (relays m false ∷ fs) s a r e = cc
main-read-before (relays m true ∷ fs) s a r e = still_waiting s.read_freed s.asker a r e
main-read-before (handles (init_dialog d) ∷ fs) s a r e = still_waiting s.read_freed s.asker a r e
main-read-before (handles (clicked b) ∷ fs) s a r e = cc
main-read-before (handles destroy ∷ fs) s a r e = cc
main-read-before (handles other ∷ fs) s a r e = cc
main-read-before (sets_up false ∷ fs) s a r e = cc
main-read-before (sets_up true ∷ fs) s a r e = still_waiting s.read_freed s.asker a r e
main-read-before (sends b false ∷ fs) s a r e = cc
main-read-before (sends b true ∷ fs) s a r e = still_waiting s.read_freed s.asker a r e
main-read-before (destroys ∷ fs) s a r e = cc

main-read-after :
    (calls : List Frame) (s : Dialog)
    → s.calls ≡ calls
    → Closing calls
    → s.read_freed ≡ false
    → (main_step calls s).read_freed ≡ true
    → Race s
unfolding main_step
main-read-after [] s h k r e = elim k [ ]
main-read-after (f ∷ fs) s h closing r e = cc
main-read-after (f ∷ fs) s h (closing_nested (in_entry m) k) r e = cc
main-read-after (f ∷ fs) s h (closing_nested (in_relay false m) k) r e = cc
main-read-after (f ∷ fs) s h (closing_nested (in_relay {m = m} true sent) k) r e =
    let (b, same) = freed_by s.asker (rw r at e) in race m fs b sent h k same
main-read-after (f ∷ fs) s h (closing_nested (in_match sent_destroy) k) r e = cc
main-read-after (f ∷ fs) s h (closing_nested (in_match sent_other) k) r e = cc

nothing_read : (s : Dialog) → (main_step [] s).read_freed ≡ true → s.read_freed ≢ false
unfolding main_step
nothing_read s e r = cc

main-read :
    (s : Dialog) → Stage s → s.read_freed ≡ false → (main_step s.calls s).read_freed ≡ true → Race s
main-read s (before a c w u k) r e = absurd (main-read-before s.calls s a r e)
main-read s (after k) r e = main-read-after s.calls s refl k r e
main-read s (done h w) r e =
    absurd (nothing_read s (subst (λ calls. (main_step calls s).read_freed ≡ true) h e) r)

-- After the prompt is posted, and whatever happened: if the next step of the main thread is the first to
-- read the confirmation after it was freed, the step is that of a call that `DestroyWindow` in
-- WM_COMMAND has made, which loaded the pointer before, and ask_confirmation has returned.
pub run_events-Race :
    (es : List Event)
    → (run_events es start).read_freed ≡ false
    → (step main_runs (run_events es start)).read_freed ≡ true
    → Race (run_events es start)
unfolding step
run_events-Race es r e = main-read (run_events es start) (run_events-Stage es start start-Stage) r e
