-- ===== src/Requester/Window.antt =====
-- src/platform/win/utils.rs: the choice of a process's window, and of the process that stands for a
-- requester.
use ssh_keys.Base.{
  refl, ℕ, ◌==◌, ◌&&◌, ◌≡◌, Bool, true, false, Option, some, none, List, [], ◌∷◌, ◌++◌, All, arith,
  Bool-cases, Option-cases, inl, inr,
}
use ssh_keys.Requester.{Windows}
use ssh_keys.Requester.Stack.{
  find, first, windows_of, find_primary_window, Process, shows_window, has_window, main_process,
}

-- The first element with a property: it stands behind elements without it.
pub record FirstWith {A : Type 0} (p : A → Bool) (xs : List A) (x : A) : Type 0 where
  pub before : List A
  pub after : List A
  pub split : xs ≡ before ++ (x ∷ after)
  pub holds : p x ≡ true
  pub others : All (λ y. p y ≡ false) before

module _ {A : Type 0} (p : A → Bool) where
  pub find-some : (xs : List A) (x : A) → find p xs ≡ some x → FirstWith p xs x
  find-some [] x h = cc
  find-some (y ∷ ys) x h = elim (Bool-cases (p y)) [
    | inl e ↦
        let same : y ≡ x = ground (arith, rw e at h) in
        record { before = []; after = ys; split = rw same; holds = rw (← same) e; others = tt }
    | inr n ↦
        let r = find-some ys x (rw n at h) in
        record {
          before = y ∷ r.before;
          after = r.after;
          split = rw r.split;
          holds = r.holds;
          others = (n, r.others);
        }
  ]

  pub find-none : (xs : List A) → find p xs ≡ none → All (λ y. p y ≡ false) xs
  find-none [] h = tt
  find-none (y ∷ ys) h = elim (Bool-cases (p y)) [
    | inl e ↦ cc (rw e at h)
    | inr n ↦ (n, find-none ys (rw n at h))
  ]

-- The process that stands for a requester, among the requester and its ancestors: the first that
-- shows a window; if none does, the first that has one; if none has, the requester.
pub data IsMain (w : Windows) (stack : List (Process w)) : Option (Process w) → Type 0 where
  shown : (m : Process w) → FirstWith (shows_window w) stack m → IsMain w stack (some m)
  hidden :
      (m : Process w)
      → All (λ q. shows_window w q ≡ false) stack
      → FirstWith (has_window w) stack m
      → IsMain w stack (some m)
  windowless : All (λ q. has_window w q ≡ false) stack → IsMain w stack (first stack)

module _ (w : Windows) where
  -- The process that stands for a requester is the first one that shows a window; where none does,
  -- the first that has a window; and where none has, the requester itself.
  pub main_process-IsMain : (stack : List (Process w)) → IsMain w stack (main_process w stack)
  unfolding main_process
  main_process-IsMain stack = elim (Option-cases (find (shows_window w) stack)) [
    | inr (m, e) ↦ rw e (shown m (find-some _ stack m e))
    | inl n ↦ elim (Option-cases (find (has_window w) stack)) [
      | inr (m, e) ↦ rw (n, e) (hidden m (find-none _ stack n) (find-some _ stack m e))
      | inl none_has ↦ rw (n, none_has) (windowless (find-none _ stack none_has))
    ]
  ]

-- The window that stands for a process: the first of its windows that is shown; if none is, its
-- first window; if it has none, nothing.
pub data IsPrimary (w : Windows) (pid : ℕ) : Option w.Hwnd → Type 0 where
  shown :
      (hwnd : w.Hwnd)
      → FirstWith (λ h. w.window_process_id h == pid && w.is_visible h) w.windows hwnd
      → IsPrimary w pid (some hwnd)
  hidden :
      (hwnd : w.Hwnd)
      → All (λ h. (w.window_process_id h == pid && w.is_visible h) ≡ false) w.windows
      → FirstWith (λ h. w.window_process_id h == pid) w.windows hwnd
      → IsPrimary w pid (some hwnd)
  no_window : All (λ h. (w.window_process_id h == pid) ≡ false) w.windows → IsPrimary w pid none

module _ (w : Windows) (pid : ℕ) where
  abbrev belongs : w.Hwnd → Bool
  belongs h = w.window_process_id h == pid

  find-windows_of :
      (p : w.Hwnd → Bool) (hs : List w.Hwnd)
      → find p (windows_of w pid hs) ≡ find (λ h. belongs h && p h) hs
  find-windows_of p [] = refl
  find-windows_of p (h ∷ hs) = elim (Bool-cases (belongs h)) [
    | inl e ↦ elim (Bool-cases (p h)) [
      | inl f ↦ rw (e, f) refl
      | inr n ↦ rw (e, n) (find-windows_of p hs)
    ]
    | inr n ↦ rw n (find-windows_of p hs)
  ]

  first-windows_of : (hs : List w.Hwnd) → first (windows_of w pid hs) ≡ find belongs hs
  first-windows_of [] = refl
  first-windows_of (h ∷ hs) = elim (Bool-cases (belongs h)) [
    | inl e ↦ rw e refl
    | inr n ↦ rw n (first-windows_of hs)
  ]

  -- The primary window of a process is the first of its windows that is shown; where none is, its
  -- first window; and it has none only where no window is its.
  pub find_primary_window-IsPrimary : IsPrimary w pid (find_primary_window w pid)
  unfolding find_primary_window
  find_primary_window-IsPrimary =
      let in_all = find-windows_of w.is_visible w.windows in
      elim (Option-cases (find (λ h. belongs h && w.is_visible h) w.windows)) [
        | inr (h, e) ↦ rw (in_all, e) (shown h (find-some _ w.windows h e))
        | inl n ↦ elim (Option-cases (find belongs w.windows)) [
          | inr (h, e) ↦
              rw (in_all, n, first-windows_of w.windows, e)
                (hidden h (find-none _ w.windows n) (find-some _ w.windows h e))
          | inl none_has ↦
              rw (in_all, n, first-windows_of w.windows, none_has)
                (no_window (find-none _ w.windows none_has))
        ]
      ]
