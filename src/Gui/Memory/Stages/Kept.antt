-- ===== src/Gui/Memory/Stages/Kept.antt =====
-- src/platform/win/confirmation.rs: every step keeps the order of the calls of `dlg_proc`.
use ssh_keys.Base.{◌≡◌, ◌≢◌, refl, sym, Bool, true, false, Option, some, none, List, [], ◌∷◌}
use mathlib.Core.Path.{subst}
use ssh_keys.Gui.Memory.{
  Message, init_dialog, clicked, destroy, other, Frame, entered, relays, handles, sets_up, sends,
  destroys, Window, absent, shown, destroyed, Asker, waits, answered, cleared, returned, Dialog,
  main_step, deliver, asker_step, Event, delivers, main_runs, asker_runs, step, run_events, start,
}
use ssh_keys.Gui.Memory.Stages.{
  sent_destroy, sent_other, in_entry, in_relay, in_match, init_entry, init_relay, init_match,
  init_rest, Clicking, click_entry, click_relay, click_match, click_sends, Calm, calm, calm_nested,
  calm_init, calm_click, Closing, closing, closing_nested, Stage, before, after, done,
}

shown_apart : shown ≢ destroyed
shown_apart e = cc

pub start-Stage : Stage start
start-Stage = before refl refl (λ e. cc) (λ e. cc) calm

Calm-destroys : {user : Bool} {fs : List Frame} → ¬ Calm user (destroys ∷ fs)
Calm-destroys (calm_nested n k) = elim n [ ]
Calm-destroys (calm_init n) = elim n [ ]
Calm-destroys (calm_click n e) = elim n [ ]

unchanged :
    {calls : List Frame} (s : Dialog)
    → s.asker ≡ waits
    → s.channel ≡ none
    → s.window ≢ destroyed
    → (s.window ≡ shown → s.user ≡ true)
    → s.calls ≡ calls
    → Calm s.user calls
    → Stage s
unchanged s a c w u h k = before a c w u (subst (Calm s.user) (sym h) k)

deliver-before :
    (m : Message) (calls : List Frame) (window : Window) (s : Dialog)
    → s.asker ≡ waits
    → s.channel ≡ none
    → s.window ≢ destroyed
    → (s.window ≡ shown → s.user ≡ true)
    → s.window ≡ window
    → s.calls ≡ calls
    → Calm s.user calls
    → Stage (deliver m calls window s)
unfolding deliver
deliver-before (init_dialog d) [] absent s a c w u e h k = before a c w u (calm_init (init_entry d))
deliver-before (init_dialog d) [] shown s a c w u e h k = unchanged s a c w u h k
deliver-before (init_dialog d) [] destroyed s a c w u e h k = absurd (w e)
deliver-before (init_dialog d) (f ∷ fs) window s a c w u e h k = unchanged s a c w u h k
deliver-before (clicked b) [] absent s a c w u e h k = unchanged s a c w u h k
deliver-before (clicked b) [] shown s a c w u e h k =
    before a c w u (calm_click (click_entry b) (u e))
deliver-before (clicked b) [] destroyed s a c w u e h k = absurd (w e)
deliver-before (clicked b) (f ∷ fs) window s a c w u e h k = unchanged s a c w u h k
deliver-before destroy [] window s a c w u e h k = unchanged s a c w u h k
deliver-before destroy (destroys ∷ fs) window s a c w u e h k = absurd (Calm-destroys k)
deliver-before destroy (entered m ∷ fs) window s a c w u e h k = unchanged s a c w u h k
deliver-before destroy (relays m p ∷ fs) window s a c w u e h k = unchanged s a c w u h k
deliver-before destroy (handles m ∷ fs) window s a c w u e h k = unchanged s a c w u h k
deliver-before destroy (sets_up d ∷ fs) window s a c w u e h k = unchanged s a c w u h k
deliver-before destroy (sends b p ∷ fs) window s a c w u e h k = unchanged s a c w u h k
deliver-before other [] absent s a c w u e h k =
    before a c w u (calm_nested (in_entry sent_other) k)
deliver-before other [] shown s a c w u e h k = before a c w u (calm_nested (in_entry sent_other) k)
deliver-before other [] destroyed s a c w u e h k = absurd (w e)
deliver-before other (f ∷ fs) window s a c w u e h k =
    before a c w u (calm_nested (in_entry sent_other) k)

deliver-after :
    (m : Message) (calls : List Frame) (s : Dialog) (window : Window)
    → s.calls ≡ calls
    → Closing calls
    → Stage (deliver m calls window s)
unfolding deliver
deliver-after (init_dialog d) [] s window h k = elim k [ ]
deliver-after (init_dialog d) (f ∷ fs) s window h k = after (subst Closing (sym h) k)
deliver-after (clicked b) [] s window h k = elim k [ ]
deliver-after (clicked b) (f ∷ fs) s window h k = after (subst Closing (sym h) k)
deliver-after destroy [] s window h k = elim k [ ]
deliver-after destroy (destroys ∷ fs) s window h k =
    after (closing_nested (in_entry sent_destroy) k)
deliver-after destroy (entered m ∷ fs) s window h k = after (subst Closing (sym h) k)
deliver-after destroy (relays m p ∷ fs) s window h k = after (subst Closing (sym h) k)
deliver-after destroy (handles m ∷ fs) s window h k = after (subst Closing (sym h) k)
deliver-after destroy (sets_up d ∷ fs) s window h k = after (subst Closing (sym h) k)
deliver-after destroy (sends b p ∷ fs) s window h k = after (subst Closing (sym h) k)
deliver-after other [] s window h k = elim k [ ]
deliver-after other (f ∷ fs) s window h k = after (closing_nested (in_entry sent_other) k)

deliver-done :
    (m : Message) (s : Dialog)
    → s.calls ≡ []
    → s.window ≡ destroyed
    → Stage (deliver m [] destroyed s)
unfolding deliver
deliver-done (init_dialog d) s h w = done h w
deliver-done (clicked b) s h w = done h w
deliver-done destroy s h w = done h w
deliver-done other s h w = done h w

main-before :
    (calls : List Frame) (s : Dialog)
    → s.asker ≡ waits
    → s.channel ≡ none
    → s.window ≢ destroyed
    → (s.window ≡ shown → s.user ≡ true)
    → s.calls ≡ calls
    → Calm s.user calls
    → Stage (main_step calls s)
unfolding main_step
main-before [] s a c w u h k = unchanged s a c w u h k
main-before (f ∷ fs) s a c w u h (calm_nested (in_entry m) k) =
    before a c w u (calm_nested (in_relay s.user m) k)
main-before (f ∷ fs) s a c w u h (calm_nested (in_relay true m) k) =
    before a c w u (calm_nested (in_match m) k)
main-before (f ∷ fs) s a c w u h (calm_nested (in_relay false m) k) =
    before a c w u (calm_nested (in_match m) k)
main-before (f ∷ fs) s a c w u h (calm_nested (in_match sent_destroy) k) = before a c w u k
main-before (f ∷ fs) s a c w u h (calm_nested (in_match sent_other) k) = before a c w u k
main-before (f ∷ []) s a c w u h (calm_init (init_entry d)) =
    before a c w u (calm_init (init_relay d s.user))
main-before (f ∷ []) s a c w u h (calm_init (init_relay d true)) =
    before a c w u (calm_init (init_match d))
main-before (f ∷ []) s a c w u h (calm_init (init_relay d false)) =
    before a c w u (calm_init (init_match d))
main-before (f ∷ []) s a c w u h (calm_init (init_match d)) =
    before a c shown_apart (λ e. refl) (calm_init (init_rest d))
main-before (f ∷ []) s a c w u h (calm_init (init_rest true)) = before a c w u calm
main-before (f ∷ []) s a c w u h (calm_init (init_rest false)) = before a c w u calm
main-before (f ∷ []) s a c w u h (calm_click (click_entry b) e) =
    before a c w u (calm_click (click_relay b s.user) e)
main-before (f ∷ []) s a c w u h (calm_click (click_relay b true) e) =
    before a c w u (calm_click (click_match b) e)
main-before (f ∷ []) s a c w u h (calm_click (click_relay b false) e) =
    before a c w u (calm_click (click_match b) e)
main-before (f ∷ []) s a c w u h (calm_click (click_match b) e) =
    before a c w u (calm_click (subst (λ p. Clicking (sends b p)) (sym e) (click_sends b)) e)
main-before (f ∷ []) s a c w u h (calm_click (click_sends b) e) = after closing

main-after : (calls : List Frame) (s : Dialog) → Closing calls → Stage (main_step calls s)
unfolding main_step
main-after [] s k = elim k [ ]
main-after (f ∷ fs) s closing = done refl refl
main-after (f ∷ fs) s (closing_nested (in_entry m) k) = after (closing_nested (in_relay s.user m) k)
main-after (f ∷ fs) s (closing_nested (in_relay true m) k) = after (closing_nested (in_match m) k)
main-after (f ∷ fs) s (closing_nested (in_relay false m) k) = after (closing_nested (in_match m) k)
main-after (f ∷ fs) s (closing_nested (in_match sent_destroy) k) = after k
main-after (f ∷ fs) s (closing_nested (in_match sent_other) k) = after k

asker-after :
    (asker : Asker) (channel : Option Bool) (s : Dialog)
    → Closing s.calls
    → Stage (asker_step asker channel s)
unfolding asker_step
asker-after waits none s k = after k
asker-after waits (some b) s k = after k
asker-after (answered b) channel s k = after k
asker-after (cleared b) channel s k = after k
asker-after (returned b) channel s k = after k

asker-done :
    (asker : Asker) (channel : Option Bool) (s : Dialog)
    → s.calls ≡ []
    → s.window ≡ destroyed
    → Stage (asker_step asker channel s)
unfolding asker_step
asker-done waits none s h w = done h w
asker-done waits (some b) s h w = done h w
asker-done (answered b) channel s h w = done h w
asker-done (cleared b) channel s h w = done h w
asker-done (returned b) channel s h w = done h w

step-Stage : (e : Event) (s : Dialog) → Stage s → Stage (step e s)
unfolding step
step-Stage (delivers m) s (before a c w u k) =
    deliver-before m s.calls s.window s a c w u refl refl k
step-Stage (delivers m) s (after k) = deliver-after m s.calls s s.window refl k
step-Stage (delivers m) s (done h w) =
    subst Stage (λ i. deliver m (sym h i) (sym w i) s) (deliver-done m s h w)
step-Stage main_runs s (before a c w u k) = main-before s.calls s a c w u refl k
step-Stage main_runs s (after k) = main-after s.calls s k
step-Stage main_runs s (done h w) =
    subst Stage (λ i. main_step (sym h i) s) (unfold main_step in done h w)
step-Stage asker_runs s (before a c w u k) =
    subst Stage (λ i. asker_step (sym a i) (sym c i) s) (unfold asker_step in before a c w u k)
step-Stage asker_runs s (after k) = asker-after s.asker s.channel s k
step-Stage asker_runs s (done h w) = asker-done s.asker s.channel s h w

pub run_events-Stage : (es : List Event) (s : Dialog) → Stage s → Stage (run_events es s)
unfolding run_events
run_events-Stage [] s st = st
run_events-Stage (e ∷ es) s st = run_events-Stage es (step e s) (step-Stage e s st)
