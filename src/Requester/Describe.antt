-- ===== src/Requester/Describe.antt =====
-- src/platform/win/utils.rs and process_describers: the texts that describe one process.
use ssh_keys.Base.{ℕ, ◌/◌, ◌%◌, ◌^◌, Bytes, Option, some, none, List, [], ◌∷◌, ◌++◌}
use ssh_keys.Outcome.{
  Outcome, ok, err, panic, ◌>>=◌, Error, error_new, text, text_number, wrap_err, unwrap,
}
use ssh_keys.Text.Utf16.{until_zero}
use ssh_keys.Text.{ascii, from_utf16, decimal, hex4}
use ssh_keys.Requester.{Windows}

-- The error `()`.
abbrev nothing : Error
nothing = error_new (text "")

abbrev or_nothing {ℓ} : {A : Type ℓ} → Option A → Outcome A
or_nothing (some a) = ok a
or_nothing none = err nothing

-- `String::from_utf16(..).unwrap()`
abbrev utf16_unwrap : List ℕ → Outcome Bytes
utf16_unwrap units = unwrap (from_utf16 units)

-- `if let Ok(text) = .. { name.push_str(&format!(" - {}", text)) }`
abbrev with_part : Bytes → Outcome Bytes → Outcome Bytes
with_part name (ok part) = ok (name ++ ascii " - " ++ part)
with_part name (err e) = ok name
with_part name panic = panic

-- `.unwrap_or(default)`
abbrev unwrap_or : Outcome Bytes → Bytes → Outcome Bytes
unwrap_or (ok s) default = ok s
unwrap_or (err e) default = ok default
unwrap_or panic default = panic

module _ (w : Windows) where
  abbrev named : List ℕ → Outcome Bytes
  named [] = err (error_new (text "GetModuleFileNameExW"))
  named (u ∷ us) = utf16_unwrap (u ∷ us)

  abbrev executable_of : Option w.Handle → Outcome Bytes
  executable_of none = err (error_new (text "OpenProcess"))
  executable_of (some process) = named (w.module_file_name process)

  unfoldable pub get_executable_from_pid : ℕ → Outcome Bytes
  get_executable_from_pid pid = executable_of (w.open_process pid)

  -- The name of the text that describes a file, in the language and code page of a translation.
  abbrev pub description_query : ℕ → Bytes
  description_query language =
      ascii "\\StringFileInfo\\"
      ++ hex4 (language % 2 ^ 16)
      ++ hex4 (language / 2 ^ 16 % 2 ^ 16)
      ++ ascii "\\FileDescription"

  unfoldable pub get_executable_description : Bytes → Outcome Bytes
  get_executable_description exe = do
    data_ ← or_nothing (w.version_info exe)
    language ← or_nothing (w.translation data_)
    units ← or_nothing (w.query_value data_ (description_query language))
    utf16_unwrap (until_zero units)

  abbrev title_of : List ℕ → Outcome Bytes
  title_of [] = err nothing
  title_of (u ∷ us) = utf16_unwrap (u ∷ us)

  unfoldable pub get_window_text : w.Hwnd → Outcome Bytes
  get_window_text win = title_of (w.window_text win)

  abbrev parent_in : Option w.Handle → ℕ
  parent_in none = 0
  parent_in (some process) = elim (w.inherited_from process) [
    | none ↦ 0
    | some parent ↦ parent % 2 ^ 32
  ]

  unfoldable pub get_parent_pid : ℕ → ℕ
  get_parent_pid pid = parent_in (w.open_process pid)

  unfoldable pub get_process_command_line : ℕ → Outcome Bytes
  get_process_command_line pid = do
    process ← or_nothing (w.open_process_vm_read pid)
    peb_base_address ← or_nothing (w.peb_base_address process)
    process_parameters ← or_nothing (w.read_peb process peb_base_address)
    (buffer, length) ← or_nothing (w.read_parameters process process_parameters)
    units ← or_nothing (w.read_units process buffer (length / 2))
    utf16_unwrap units

  abbrev titled : Bytes → Option w.Hwnd → Outcome Bytes
  titled name none = with_part name (err nothing)
  titled name (some hwnd) = with_part name (get_window_text hwnd)

  -- process_describers::default::describe
  unfoldable pub describe_default : ℕ → Option w.Hwnd → Outcome (Bytes × Bytes)
  describe_default pid window = do
    exe ← wrap_err (text_number "get_executable_from_pid pid={}" pid) (get_executable_from_pid pid)
    name ← unwrap (w.file_name exe)
    described ← with_part name (get_executable_description exe)
    process_name ← titled described window
    long ← unwrap_or (get_process_command_line pid) exe
    ok (process_name, process_name ++ ascii " : " ++ long)

  -- process_describers::describe
  unfoldable pub describe : ℕ → Option w.Hwnd → Outcome (Bytes × Bytes)
  describe pid window = do
    exe ← get_executable_from_pid pid
    name ← unwrap (w.file_name exe)
    (short, long) ← describe_default pid window
    ok (short, decimal pid ++ ascii " : " ++ long)
