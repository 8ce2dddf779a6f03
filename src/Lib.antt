-- ===== src/Lib.antt =====
-- ssh-keys: an SSH agent for Windows (OpenSSH's pipe, a Unix socket, and the Pageant protocol) with
-- permanent key storage. This library models the program's core and proves properties of it.
--
-- The program's parts, and the modules that model them:
--   * src/agent/wire.rs, the integers, strings and multiple precision integers of the protocol:
--     Wire (read_string, read_string_utf8, read_mpint, write_string, write_mpint), over Reader (a
--     `Read` as the bytes that are still to come, and the error at their end) and Text (UTF-8, and
--     Text.Utf16, the strings of the Windows calls).
--   * src/key/mod.rs, keys: Key (types, sign, encode, public_eq), Key.Parse (from_wire, decode).
--   * src/key/ser.rs, key pairs as entries of the configuration's map: KeyStore.
--   * src/config.rs, the configuration's file: Config (save, load_config, reload), over Disk, one
--     file and the faults of the system calls to come, so that a theorem covers every failure.
--   * src/agent/mod.rs, the agent: Agent (get_key, add_key, handle_request and the handlers of the
--     messages), Agent.Replies, Agent.SignRequest, Agent.Codes. The state is the configuration, the
--     disk, and the list of the prompts that the user was shown; the user is a function from these
--     prompts to an answer.
--   * src/utils.rs, the loop that serves a client: Connection (connection_handler as serve on fuel,
--     one round of it, the mutex with its poison), Connection.Clients (client_step, the threads of
--     several clients under a schedule), and Connection.Transport (the loop over any ReadWrite, which
--     Connection.Plain compares with the loop over bytes, and Connection.Simulation with itself over
--     another transport; Connection.Refined puts the two together). Finally is the type of that name.
--   * src/platform/win/utils.rs and process_describers, what the user is told of a requester: Requester
--     (the Windows calls), Requester.Describe (one process), Requester.Stack (collect_requester_info,
--     on fuel for the ancestors), Requester.Window (the process and the window that stand for it), and
--     Requester.Summary (what is said of it).
--   * src/platform/win/pageant, requests in a shared memory mapping: Pageant (wnd_proc,
--     find_memory_map_owner_process), Pageant.Handles (that search with the handles it opens), and
--     Pageant.Buffer (the loop on BufReadWrite).
--   * src/copy_id.rs, the command that adds a key to a host: CopyId.
--   * src/platform/win/pipe.rs, the named pipe: Pipe (read and write, and the standard library's
--     read_exact and write_all over them, on fuel), Pipe.Connected (the loop on a pipe), and
--     Pipe.Listener (listen_named_pipe over the rounds of its loop, format_error of utils.rs, and
--     listener of mod.rs).
--   * src/platform/win/confirmation.rs, the dialog: Gui.Texts and Gui.Layout (the texts and places
--     that WM_INITDIALOG computes), and with mod.rs (serve) and taskbar.rs (wnd_proc) Gui.Desktop: a
--     step function on the events of the main thread, the dialog, the menu and the thread that asks.
--     Gui.Tooltip and Gui.Fonts are the tooltip, and the fonts and device contexts of the controls.
--     Gui.Memory is the pointer to the confirmation that the dialog and that thread share: the nested
--     calls of dlg_proc, and the steps of ask_confirmation up to its return.
--   * the icon in the notification area: Gui.Icon (its data), Gui.Icon.Shell (create_taskbar_icon and the
--     ends of the message loop, over Shell_NotifyIconA).
--   * serve of platform/win/mod.rs up to the message loop, create_taskbar_icon, listen_pageant and
--     listen_unix_socket: Serve, and Serve.Instances for several processes.
--   * src/main.rs: Start (prepare, which loads and saves the configuration, and main_body), and
--     Start.CommandLine (the declarations of the arguments), Start.Main (main around its body).
--
-- How they interact: a listener calls connection_handler with the agent's mutex; each round reads a
-- frame, locks the mutex and calls handle_request, which reads keys and signs by Key, asks the user,
-- and saves by Config. To ask is to post a message to the main thread and to wait, with the mutex
-- locked, for the answer of the dialog.
--
-- Conventions. A `Vec<u8>`, a `&[u8]` and a `String` are lists of numbers (Bytes); a `u32` that is
-- computed is taken modulo 2^32. Fallible code returns an Outcome: a value, an error, or a panic,
-- which `?` and the handlers do not catch. Code with a state is an Exec: the state comes back beside
-- an error and a panic too. A write to a `Vec` never fails; a write to a connection can.
-- The loop of connection_handler takes one more round than there are bytes to read, which is
-- enough, since a round that goes on reads four bytes.
--
-- Third-party packages and the system are the records of Packages, Config.Toml, CopyId.Remote,
-- Requester.Windows and Gui.Icon.Shell, or the results of their calls, given to the models as
-- parameters; their documented behaviour is a record of laws beside them, which a theorem names.
-- Packages.Model and Config.Model are concrete instances with proofs of the laws, and Examples applies
-- the theorems to them.
--
-- The loop of collect_requester_info has no bound in the source; its fuel is a parameter, and one more
-- than the count of a process's ancestors is enough.
--
-- The fuel of read_exact and write_all over a pipe is the number of bytes, since each call that goes
-- on moves one at least.
--
-- Not modelled: what only moves the focus in the user interface, what clap does beyond the arguments
-- that it accepts, memory limits, and platform/unix, which does not compile against the current agent.
pub mod Base
pub mod Outcome
pub mod Packages
pub mod Text
pub mod Reader
pub mod Wire
pub mod Key
pub mod KeyStore
pub mod Exec
pub mod Disk
pub mod Config
pub mod Agent
pub mod Connection
pub mod Requester
pub mod CopyId
pub mod Pageant
pub mod Pipe
pub mod Finally
pub mod Gui
pub mod Serve
pub mod Start
mod Examples
