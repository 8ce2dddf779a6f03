-- ===== src/Requester/Summary.antt =====
-- src/platform/win/utils.rs: what `collect_requester_info` says of a process and its ancestors.
use ssh_keys.Base.{
  ℕ, suc, ◌≡◌, refl, ap, Bool, true, false, Bytes, Option, some, none, List, [], ◌∷◌, ◌++◌, All,
  map, length,
}
use ssh_keys.Outcome.{ok, err, Error}
use ssh_keys.Text.{ascii}
use ssh_keys.Requester.{Windows}
use ssh_keys.Requester.Describe.{describe}
use ssh_keys.Requester.Stack.{
  find, Process, with_window, shows_window, has_window, main_process, paragraphs, long_descriptions,
  summary, collect_requester_info,
}
use ssh_keys.Requester.Window.{
  FirstWith, IsMain, shown, hidden, windowless, IsPrimary, find_primary_window-IsPrimary,
}
use ssh_keys.Requester.Walk.{Ancestors, collect_requester_info-summary}

module _ {A : Type 0} (p : A → Bool) where
  find-past :
      (before : List A) (x : A) (after : List A)
      → All (λ y. p y ≡ false) before
      → p x ≡ true
      → find p (before ++ (x ∷ after)) ≡ some x
  find-past [] x after h e = rw e refl
  find-past (y ∷ before) x after (n, h) e = rw n (find-past before x after h e)

  FirstWith-find : (xs : List A) (x : A) → FirstWith p xs x → find p xs ≡ some x
  FirstWith-find xs x f = rw f.split (find-past f.before x f.after f.others f.holds)

  All-find : (xs : List A) → All (λ y. p y ≡ false) xs → find p xs ≡ none
  All-find [] h = refl
  All-find (y ∷ ys) (n, h) = rw n (All-find ys h)

module _ (w : Windows) where
  -- The long descriptions of the processes that can be described, in their order.
  pub data Longs : List (Process w) → List Bytes → Type 0 where
    no_process : Longs [] []
    described :
        {pid : ℕ} {window : Option w.Hwnd} {stack : List (Process w)} {longs : List Bytes}
        (short long : Bytes)
        → describe w pid window ≡ ok (short, long)
        → Longs stack longs
        → Longs ((pid, window) ∷ stack) (long ∷ longs)
    left_out :
        {pid : ℕ} {window : Option w.Hwnd} {stack : List (Process w)} {longs : List Bytes}
        (e : Error)
        → describe w pid window ≡ err e
        → Longs stack longs
        → Longs ((pid, window) ∷ stack) longs

-- Texts in their order, with an empty line between each and the next.
pub data Joined : List Bytes → Bytes → Type 0 where
  nothing : Joined [] []
  alone : (p : Bytes) → Joined (p ∷ []) p
  before_more :
      (p : Bytes) {q text : Bytes} {ps : List Bytes}
      → Joined (q ∷ ps) text
      → Joined (p ∷ q ∷ ps) (p ++ ascii "\n\n" ++ text)

Joined-paragraphs : (ps : List Bytes) (text : Bytes) → Joined ps text → paragraphs ps ≡ text
Joined-paragraphs [] text nothing = refl
Joined-paragraphs (p ∷ []) text (alone r) = refl
Joined-paragraphs (p ∷ q ∷ ps) text (before_more r {text = rest} j) =
    ap (λ t. p ++ ascii "\n\n" ++ t) (Joined-paragraphs (q ∷ ps) rest j)

module _ (w : Windows) where
  has_none-shows_none :
      (stack : List (Process w))
      → All (λ q. has_window w q ≡ false) stack
      → All (λ q. shows_window w q ≡ false) stack
  has_none-shows_none [] h = tt
  has_none-shows_none ((pid, none) ∷ stack) (n, h) = (refl, has_none-shows_none stack h)
  has_none-shows_none ((pid, some window) ∷ stack) (n, h) = cc

  IsMain-main_process :
      (stack : List (Process w)) (m : Option (Process w))
      → IsMain w stack m
      → main_process w stack ≡ m
  unfolding main_process
  IsMain-main_process stack m (shown q f) = rw (FirstWith-find (shows_window w) stack q f) refl
  IsMain-main_process stack m (hidden q h f) =
      rw (All-find (shows_window w) stack h, FirstWith-find (has_window w) stack q f) refl
  IsMain-main_process stack m (windowless h) =
      rw
        (
          All-find (shows_window w) stack (has_none-shows_none stack h),
          All-find (has_window w) stack h,
        )
        refl

  Longs-long_descriptions :
      (stack : List (Process w)) (longs : List Bytes)
      → Longs w stack longs
      → long_descriptions w stack ≡ ok longs
  unfolding long_descriptions
  Longs-long_descriptions [] longs no_process = refl
  Longs-long_descriptions (process ∷ stack) longs (described {longs = later} short long e l) =
      rw (e, Longs-long_descriptions stack later l) refl
  Longs-long_descriptions (process ∷ stack) longs (left_out x e l) =
      rw (e, Longs-long_descriptions stack longs l) refl

  with_window-IsPrimary :
      (pids : List ℕ) → All (λ process. IsPrimary w process.0 process.1) (map (with_window w) pids)
  with_window-IsPrimary [] = tt
  with_window-IsPrimary (pid ∷ pids) =
      (find_primary_window-IsPrimary w pid, with_window-IsPrimary pids)

  -- Where the ancestors of a process end, and every one of them, the process included, can be described
  -- or is left out with an error: the loop ends after as many rounds as there are ancestors, each process
  -- has its primary window, the short description is that of the process that stands for the requester,
  -- where it can be described, and the long one is the long descriptions of those that can be described,
  -- from the process on, in their order, with an empty line between each and the next.
  pub collect_requester_info-Ancestors :
      (pid : ℕ) (pids : List ℕ)
      → Ancestors w pid pids
      → (main : ℕ) (window : Option w.Hwnd) (short long : Bytes)
      → IsMain w (map (with_window w) pids) (some (main, window))
      → describe w main window ≡ ok (short, long)
      → (longs : List Bytes) (text : Bytes) → Longs w (map (with_window w) pids) longs
      → Joined longs text
      → (collect_requester_info w (suc (length pids)) pid
          ≡ some (ok (record { description_short = short; description_long = text })))
        × All (λ process. IsPrimary w process.0 process.1) (map (with_window w) pids)
  unfolding summary
  collect_requester_info-Ancestors pid pids above main window short long is_main e longs text l j =
      (
        rw
            (
              collect_requester_info-summary w pid pids above,
              IsMain-main_process (map (with_window w) pids) (some (main, window)) is_main,
              e,
              Longs-long_descriptions (map (with_window w) pids) longs l,
              Joined-paragraphs longs text j,
            )
            refl,
        with_window-IsPrimary pids,
      )
