-- ===== src/Serve.antt =====
-- src/platform/win/mod.rs (`serve`), taskbar.rs (`create_taskbar_icon`), pageant/mod.rs
-- (`listen_pageant`) and unix_socket.rs: how an agent begins to serve.
pub mod Instances
use ssh_keys.Base.{
  ℕ, Bool, true, false, Bytes, Option, some, none, List, [], ◌∷◌, ◌==◌, if◌then◌else◌, String,
}
use ssh_keys.Outcome.{
  unwrap, Outcome, ok, err, panic, ◌>>=◌, ◌>>◌, Error, error_new, text, wrap_err, Message,
}
use ssh_keys.Text.{ascii, from_utf16}
use ssh_keys.Text.Utf16.{until_zero}
use ssh_keys.Agent.{RequestInfo}
use ssh_keys.Pipe.Listener.{format_error, Listened, starting}

-- A call of the API that succeeds or not, and the value of GetLastError after it.
pub record Call : Type 0 where
  pub succeeded : Bool
  pub last_error : ℕ

abbrev pub error_already_exists : ℕ
error_already_exists = 183

-- The listeners, each on a thread of its own.
pub data Listening : Type 0 where
  named_pipe pageant unix_socket : Listening

-- The calls of `serve` and `create_taskbar_icon`, up to the message loop.
pub record Startup : Type 0 where
  pub create_mutex : Call
  pub register_class : Call
  pub create_window : Call

-- The calls of `listen_pageant`, up to the message loop.
pub record PageantStartup : Type 0 where
  pub window_exists : Bool
  pub register_class : Call
  pub create_window : Call

module _ (format_message : ℕ → Bytes) where
  -- `if failed { check_error().wrap_err(name)?; }`
  abbrev pub checked_call : String → Call → Outcome (Unit {0})
  checked_call name call =
      if call.succeeded
      then ok tt
      else wrap_err (text name) (format_error format_message call.last_error)

  unfoldable pub create_window_of : Call → Call → Outcome (Unit {0})
  create_window_of register_class create_window = do
    checked_call "RegisterClassA" register_class
    checked_call "CreateWindowExA" create_window

  -- The check that no other agent is running.
  unfoldable pub single_instance : Call → Outcome (Unit {0})
  single_instance call =
      if call.succeeded
      then if call.last_error == error_already_exists
        then err (error_new (text "Agent already running"))
        else ok tt
      else format_error format_message call.last_error

  abbrev pub listening_after : Outcome (Unit {0}) → List Listening
  listening_after (ok done) = named_pipe ∷ pageant ∷ unix_socket ∷ []
  listening_after _ = []

  -- serve, up to the message loop: the listeners that are started, and what is returned if not ok.
  unfoldable pub serve_start : Startup → List Listening × Outcome (Unit {0})
  serve_start s = (
    listening_after (single_instance s.create_mutex),
    do single_instance s.create_mutex; create_window_of s.register_class s.create_window,
  )

  -- listen_pageant, up to the message loop
  unfoldable pub pageant_start : PageantStartup → Outcome (Unit {0})
  pageant_start s =
      if s.window_exists
      then err (error_new (text "Pageant already running"))
      else create_window_of s.register_class s.create_window

abbrev pub unix_info : RequestInfo
unix_info = record { channel = ascii "Unix"; requester = none }

-- The loop of `listen_unix_socket` over the results of `accept`.
unfoldable pub serve_streams : List (Outcome (Unit {0})) → Listened
serve_streams [] = record { started = []; ended = none }
serve_streams (ok stream ∷ streams) = starting unix_info (serve_streams streams)
serve_streams (err e ∷ streams) = record { started = []; ended = some (err e) }
serve_streams (panic ∷ streams) = record { started = []; ended = some panic }

abbrev pub listened_after : Outcome (Unit {0}) → List (Outcome (Unit {0})) → Listened
listened_after (ok bound) streams = serve_streams streams
listened_after (err e) streams = record { started = []; ended = some (err e) }
listened_after panic streams = record { started = []; ended = some panic }

-- get_known_folder, of which the units that SHGetKnownFolderPath points to are given.
unfoldable pub get_known_folder : List ℕ → Outcome Bytes
get_known_folder units = unwrap (from_utf16 (until_zero units))

-- listen_unix_socket, of which the units of the profile's folder and the results of create_dir_all,
-- remove_file, bind and accept are given.
unfoldable pub listen_unix_socket :
    List ℕ
    → Outcome (Unit {0})
    → Outcome (Unit {0})
    → Outcome (Unit {0})
    → List (Outcome (Unit {0}))
    → Listened
listen_unix_socket profile created removed bound streams =
    listened_after (do folder ← get_known_folder profile; created; bound) streams
