-- ===== src/Requester/Stack.antt =====
-- src/platform/win/utils.rs: `collect_requester_info`, the processes that it walks over, and the
-- windows of a process.
use ssh_keys.Base.{
  ℕ, zero, suc, Bool, true, false, Bytes, Option, some, none, List, [], ◌∷◌, ◌++◌, ◌==◌,
  if◌then◌else◌,
}
use ssh_keys.Outcome.{Outcome, ok, err, panic, ◌>>=◌, unwrap}
use ssh_keys.Text.{ascii}
use ssh_keys.Agent.{RequesterInfo}
use ssh_keys.Requester.{Windows}
use ssh_keys.Requester.Describe.{get_parent_pid, describe}

module _ {A : Type 0} where
  abbrev pub find : (A → Bool) → List A → Option A
  find p [] = none
  find p (x ∷ xs) = if p x then some x else find p xs

  abbrev pub first : List A → Option A
  first [] = none
  first (x ∷ xs) = some x

  abbrev pub or_else : Option A → Option A → Option A
  or_else (some a) later = some a
  or_else none later = later

-- `intersperse("\n\n")` and `collect`
abbrev pub paragraphs : List Bytes → Bytes
paragraphs [] = []
paragraphs (p ∷ []) = p
paragraphs (p ∷ q ∷ ps) = p ++ ascii "\n\n" ++ paragraphs (q ∷ ps)

module _ (w : Windows) where
  -- The windows that `window_proc` collects.
  abbrev pub windows_of : ℕ → List w.Hwnd → List w.Hwnd
  windows_of pid [] = []
  windows_of pid (hwnd ∷ hwnds) =
      if w.window_process_id hwnd == pid then hwnd ∷ windows_of pid hwnds else windows_of pid hwnds

  unfoldable pub find_primary_window : ℕ → Option w.Hwnd
  find_primary_window pid =
      let mine = windows_of pid w.windows in or_else (find w.is_visible mine) (first mine)

  abbrev pub Process : Type 0
  Process = ℕ × Option w.Hwnd

  abbrev pub with_window : ℕ → Process
  with_window pid = (pid, find_primary_window pid)

  abbrev on_stack : Process → Option (List Process) → Option (List Process)
  on_stack process none = none
  on_stack process (some rest) = some (process ∷ rest)

  -- The `while` loop, on fuel; `none` if it runs out.
  unfoldable pub process_stack : ℕ → ℕ → Option (List Process)
  process_stack zero pid = none
  process_stack (suc fuel) pid =
      let rest = process_stack fuel (get_parent_pid w pid) in
      if pid == 0 then some [] else on_stack (with_window pid) rest

  abbrev pub shows_window : Process → Bool
  shows_window (pid, none) = false
  shows_window (pid, some window) = w.is_visible window

  abbrev pub has_window : Process → Bool
  has_window (pid, none) = false
  has_window (pid, some window) = true

  unfoldable pub main_process : List Process → Option Process
  main_process stack =
      or_else (find shows_window stack) (or_else (find has_window stack) (first stack))

  abbrev pub kept : Outcome (Bytes × Bytes) → Outcome (List Bytes) → Outcome (List Bytes)
  kept (ok (short, long)) rest = do longs ← rest; ok (long ∷ longs)
  kept (err e) rest = rest
  kept panic rest = panic

  -- `filter_map`: a process that cannot be described is left out.
  unfoldable pub long_descriptions : List Process → Outcome (List Bytes)
  long_descriptions [] = ok []
  long_descriptions ((pid, window) ∷ stack) = kept (describe w pid window) (long_descriptions stack)

  unfoldable pub summary : List Process → Outcome RequesterInfo
  summary stack = do
    (pid, window) ← unwrap (main_process stack)
    (short, _) ← describe w pid window
    longs ← long_descriptions stack
    ok (record { description_short = short; description_long = paragraphs longs })

  abbrev summarized : Option (List Process) → Option (Outcome RequesterInfo)
  summarized none = none
  summarized (some stack) = some (summary stack)

  unfoldable pub collect_requester_info : ℕ → ℕ → Option (Outcome RequesterInfo)
  collect_requester_info fuel pid = summarized (process_stack fuel pid)
