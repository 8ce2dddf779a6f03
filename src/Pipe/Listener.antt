-- ===== src/Pipe/Listener.antt =====
-- src/platform/win/pipe.rs: `listen_named_pipe`, with `check_error` of utils.rs and `listener` of
-- mod.rs, which ends the process.
use ssh_keys.Base.{
  String, ℕ, ◌-◌, ◌≡◌, refl, ap, Bool, true, false, Bytes, Option, some, none, List, [], ◌∷◌, ◌++◌,
  length, take, drop, ltb, leb, ◌==◌, ◌&&◌, ◌||◌, ◌+◌, ◌∙◌, arith, length-append, drop-append,
  if◌then◌else◌,
}
use ssh_keys.Outcome.{Outcome, ok, err, panic, ◌>>◌, Error, error_new, wrapped, text, text_bytes}
use ssh_keys.Text.{ascii, is_utf8}
use ssh_keys.Agent.{RequesterInfo, RequestInfo}
use ssh_keys.Requester.{Windows}
use ssh_keys.Requester.Stack.{collect_requester_info}

-- `str::is_char_boundary`: the end of the text, or a byte that no character goes on with.
abbrev pub begins_char : Bytes → Bool
begins_char [] = true
begins_char (b ∷ bs) = ltb b 128 || leb 192 b

abbrev pub is_char_boundary : ℕ → Bytes → Bool
is_char_boundary n msg = begins_char (drop n msg)

-- format_error, where `format_message` is the text of FormatMessageA. `to_str().unwrap()` panics on a text
-- that is not UTF-8, `msg.len() - 2` on one that is shorter, and the slice within a character.
unfoldable pub format_error : (ℕ → Bytes) → ℕ → Outcome (Unit {0})
format_error format_message code =
    let msg = format_message code in
    if code == 0
    then ok tt
    else if is_utf8 msg && (ltb 1 (length msg) && is_char_boundary (length msg - 2) msg)
    then err (error_new (text_bytes "(win32) {}" (take (length msg - 2) msg)))
    else panic

-- What the calls of one round of the loop answer: whether the pipe was created and a client
-- connected to it, each with the value of GetLastError after it, and the client's process.
pub record Round : Type 0 where
  pub created : Bool
  pub create_error : ℕ
  pub connected : Bool
  pub connect_error : ℕ
  pub client_process_id : Option ℕ

-- The threads that the loop starts, and how it ends, if it does within these rounds.
pub record Listened : Type 0 where
  pub started : List RequestInfo
  pub ended : Option (Outcome (Unit {0}))

abbrev pub starting : RequestInfo → Listened → Listened
starting info l = record { started = info ∷ l.started; ended = l.ended }

-- The value of GetLastError where a client had connected before ConnectNamedPipe was called, which
-- then returns zero although the pipe is connected.
abbrev pub error_pipe_connected : ℕ
error_pipe_connected = 535

module _ (format_message : ℕ → Bytes) (w : Windows) (fuel : ℕ) (poisoned : Bool) where
  -- `if failed { check_error()?; }`
  abbrev checked : Bool → ℕ → Outcome (Unit {0})
  checked true code = ok tt
  checked false code = format_error format_message code

  -- `.ok()` of the description; a panic while the mutex is locked ends the thread.
  abbrev described : Option (Outcome RequesterInfo) → Option (Outcome (Option RequesterInfo))
  described none = none
  described (some (ok requester)) = some (ok (some requester))
  described (some (err e)) = some (ok none)
  described (some panic) = some panic

  abbrev locked_requester : Bool → ℕ → Option (Outcome (Option RequesterInfo))
  locked_requester true pid = some panic
  locked_requester false pid = described (collect_requester_info w fuel pid)

  unfoldable pub client_requester : Option ℕ → Option (Outcome (Option RequesterInfo))
  client_requester none = some (ok none)
  client_requester (some pid) = locked_requester poisoned pid

  abbrev informed : Option (Outcome (Option RequesterInfo)) → Option (Outcome RequestInfo)
  informed none = none
  informed (some (ok requester)) =
      some (ok (record { channel = ascii "Pipe"; requester = requester }))
  informed (some (err e)) = some (err e)
  informed (some panic) = some panic

  abbrev on_checks : Outcome (Unit {0}) → Option ℕ → Option (Outcome RequestInfo)
  on_checks (ok passed) pid = informed (client_requester pid)
  on_checks (err e) pid = some (err e)
  on_checks panic pid = some panic

  -- One round of the loop: what the thread that it starts is given, or how the loop ends; `none`
  -- where the description of the client does not end within the fuel.
  unfoldable pub accept : Round → Option (Outcome RequestInfo)
  accept r =
      on_checks (do checked r.created r.create_error; checked r.connected r.connect_error)
        r.client_process_id

  unfoldable pub listen_named_pipe : List Round → Listened
  listen_named_pipe [] = record { started = []; ended = none }
  listen_named_pipe (r ∷ rs) = elim (accept r) [
    | none ↦ record { started = []; ended = none }
    | some (ok info) ↦ starting info (listen_named_pipe rs)
    | some (err e) ↦ record { started = []; ended = some (err e) }
    | some panic ↦ record { started = []; ended = some panic }
  ]

-- What the end of a listener does to the process.
pub data ProcessEnd : Type 0 where
  goes_on : ProcessEnd
  exit_with_box : Error → ProcessEnd

-- listener: an error is shown in a box, and the process exits. A panic ends the thread only.
abbrev pub after_listener : String → Option (Outcome (Unit {0})) → ProcessEnd
after_listener name none = goes_on
after_listener name (some (ok done)) = goes_on
after_listener name (some (err e)) = exit_with_box (wrapped (text name) e)
after_listener name (some panic) = goes_on

-- A message in UTF-8 that ends with a line break, as the texts of the system do.
pub record IsText (msg : Bytes) : Type 0 where
  pub valid : is_utf8 msg ≡ true
  pub line : Bytes
  pub breaks : msg ≡ line ++ (13 ∷ 10 ∷ [])

IsText-is_char_boundary :
    (msg : Bytes)
    → IsText msg
    → (ltb 1 (length msg) ≡ true) × (is_char_boundary (length msg - 2) msg ≡ true)
IsText-is_char_boundary msg t =
    let count : length msg ≡ length t.line + 2 =
      ap length t.breaks ∙ length-append t.line (13 ∷ 10 ∷ []) in
    let front : length msg - 2 ≡ length t.line = omega arith in
    (ground arith, rw (front, t.breaks, drop-append t.line (13 ∷ 10 ∷ [])) refl)

module _ (format_message : ℕ → Bytes) (w : Windows) (fuel : ℕ) (poisoned : Bool) where
  -- Rounds that each start a thread with a request's information.
  pub data Accepts : List Round → List RequestInfo → Type 0 where
    nobody : Accepts [] []
    client :
        {r : Round} {info : RequestInfo} {rs : List Round} {infos : List RequestInfo}
        → accept format_message w fuel poisoned r ≡ some (ok info)
        → Accepts rs infos
        → Accepts (r ∷ rs) (info ∷ infos)

  accept_early :
      (r : Round)
      → r.created ≡ true
      → r.connected ≡ false
      → r.connect_error ≡ error_pipe_connected
      → IsText (format_message error_pipe_connected)
      → (e : Error) × (accept format_message w fuel poisoned r ≡ some (err e))
  unfolding accept format_error
  accept_early r created failed code message =
      let (long, boundary) =
        IsText-is_char_boundary (format_message error_pipe_connected) message in
      (
        error_new
            (text_bytes "(win32) {}" (take (length (format_message 535) - 2) (format_message 535))),
        rw (created, failed, code, message.valid, long, boundary) refl,
      )

  -- After any rounds that each start a thread, a round in which the pipe is created, and a client
  -- connects to it before ConnectNamedPipe is called, ends the listener with an error, and the whole
  -- process with it, and no later client is accepted, where the system's text for
  -- ERROR_PIPE_CONNECTED is UTF-8 and ends with a carriage return and a line feed.
  pub listen_named_pipe-early :
      (rs : List Round) (infos : List RequestInfo) (r : Round) (later : List Round)
      → Accepts rs infos
      → r.created ≡ true
      → r.connected ≡ false
      → r.connect_error ≡ error_pipe_connected
      → IsText (format_message error_pipe_connected)
      → let l = listen_named_pipe format_message w fuel poisoned (rs ++ (r ∷ later)) in
        (l.started ≡ infos)
        × ((e : Error) × (after_listener "listen_named_pipe" l.ended ≡ exit_with_box e))
  unfolding listen_named_pipe
  listen_named_pipe-early [] infos r later nobody created failed code valid =
      let (e, ended) = accept_early r created failed code valid in
      rw (listen_named_pipe, ended) (refl, (wrapped (text "listen_named_pipe") e, refl))
  listen_named_pipe-early (r0 ∷ rs) [] r later a created failed code valid = elim a [ ]
  listen_named_pipe-early (r0 ∷ rs) (info ∷ infos) r later (client started more) created failed code
        valid =
      let (same, (e, ended)) =
        listen_named_pipe-early rs infos r later more created failed code valid in
      rw (listen_named_pipe, started) (ap (λ t. info ∷ t) same, (e, ended))
