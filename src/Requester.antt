-- ===== src/Requester.antt =====
-- src/platform/win: what a requester is described by, over the calls of the Windows API.
pub mod Describe
pub mod Stack
pub mod Walk
pub mod Window
pub mod Summary
use ssh_keys.Base.{ℕ, Bool, Bytes, Option, List}

-- The API as it answers during one description. Text is a list of UTF-16 units, without the zero at
-- its end.
pub record Windows : Type 1 where
  pub Hwnd : Type 0
  pub Handle : Type 0
  pub VersionInfo : Type 0
  -- EnumWindows, GetWindowThreadProcessId, IsWindowVisible, GetWindowTextW
  pub windows : List Hwnd
  pub window_process_id : Hwnd → ℕ
  pub is_visible : Hwnd → Bool
  pub window_text : Hwnd → List ℕ
  -- OpenProcess for limited information, and to read the memory too
  pub open_process : ℕ → Option Handle
  pub open_process_vm_read : ℕ → Option Handle
  -- NtQueryInformationProcess: `InheritedFromUniqueProcessId` and `PebBaseAddress`
  pub inherited_from : Handle → Option ℕ
  pub peb_base_address : Handle → Option ℕ
  -- ReadProcessMemory: `ProcessParameters`, the address and length of `CommandLine`, and units
  pub read_peb : Handle → ℕ → Option ℕ
  pub read_parameters : Handle → ℕ → Option (ℕ × ℕ)
  pub read_units : Handle → ℕ → ℕ → Option (List ℕ)
  -- GetModuleFileNameExW, which fails with a length of zero
  pub module_file_name : Handle → List ℕ
  -- GetFileVersionInfoW of a path; VerQueryValueW of the translation, and of a text by its name,
  -- with what the memory has behind it
  pub version_info : Bytes → Option VersionInfo
  pub translation : VersionInfo → Option ℕ
  pub query_value : VersionInfo → Bytes → Option (List ℕ)
  -- `Path::file_name` on Windows
  pub file_name : Bytes → Option Bytes
