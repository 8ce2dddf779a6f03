-- ===== src/Examples/Processes.antt =====
-- Processes that send requests, and the mapping of one.
use ssh_keys.Base.{
  ℕ, ◌≡◌, refl, false, Bytes, Option, some, none, [], ◌∷◌, ◌++◌, inl, inr, ◌⊎◌, arith, ◌==◌, All,
  if◌then◌else◌, map,
}
use ssh_keys.Outcome.{ok}
use ssh_keys.Text.{ascii, from_utf16}
use ssh_keys.Packages.Model.{byteorder-laws}
use ssh_keys.Config.Model.{toml}
use ssh_keys.Wire.{write_string}
use ssh_keys.Agent.{handle_request}
use ssh_keys.Requester.{Windows}
use ssh_keys.Requester.Describe.{
  get_parent_pid, describe, describe_default, get_executable_from_pid, get_executable_description,
  get_window_text, get_process_command_line,
}
use ssh_keys.Requester.Stack.{with_window, find_primary_window, collect_requester_info}
use ssh_keys.Requester.Window.{IsMain, shown, IsPrimary}
use ssh_keys.Requester.Summary.{
  Longs, no_process, described, before_more, alone, collect_requester_info-Ancestors,
}
use ssh_keys.Requester.Walk.{Ancestors, ended, parent, IsCyclic, collect_requester_info-IsCyclic}
use ssh_keys.Pageant.{answer_mapping, Answered}
use ssh_keys.Pageant.Mapping.{Copied, answer_mapping-reply}
use ssh_keys.Examples.Values.{bo, ssl, user, agent, list_request}
use ssh_keys.Examples.Sessions.{listed}
use ssh_keys.Examples.Run.{run}

-- Process 7 is the child of 3, which has no parent; 20 and 21 are each other's parent. The windows
-- are the processes' numbers, and that of 3 is shown.
abbrev pub parent_of : ℕ → Option ℕ
parent_of pid =
    if pid == 7 then some 3 else if pid == 20 then some 21 else if pid == 21 then some 20 else none

abbrev pub windows : Windows
windows = record {
  Hwnd = ℕ;
  Handle = ℕ;
  VersionInfo = Unit {0};
  windows = 7 ∷ 3 ∷ [];
  window_process_id = λ hwnd. hwnd;
  is_visible = λ hwnd. hwnd == 3;
  window_text = λ hwnd. 87 ∷ [];
  open_process = λ pid. some pid;
  open_process_vm_read = λ pid. none;
  inherited_from = parent_of;
  peb_base_address = λ process. none;
  read_peb = λ process at_address. none;
  read_parameters = λ process at_address. none;
  read_units = λ process at_address count. none;
  module_file_name = λ process. 101 ∷ [];
  version_info = λ path. none;
  translation = λ info. none;
  query_value = λ info name. none;
  file_name = λ path. some path;
}

ancestors : Ancestors windows 7 (7 ∷ 3 ∷ [])
unfolding get_parent_pid
ancestors = parent (omega arith) (parent (omega arith) ended)

-- What is said of a process: the name of its program, and its window's title W.
abbrev long_of : ℕ → Bytes
long_of digit = digit ∷ ascii " : e - W : e"

describes_7 : describe windows 7 (some 7) ≡ ok (ascii "e - W", long_of 55)
unfolding describe describe_default get_executable_from_pid get_executable_description
    get_window_text get_process_command_line from_utf16
describes_7 = refl

describes_3 : describe windows 3 (some 3) ≡ ok (ascii "e - W", long_of 51)
unfolding describe describe_default get_executable_from_pid get_executable_description
    get_window_text get_process_command_line from_utf16
describes_3 = refl

shows_3 : IsMain windows (map (with_window windows) (7 ∷ 3 ∷ [])) (some (3, some 3))
unfolding find_primary_window
shows_3 =
    shown (3, some 3)
      (record {
        before = (7, some 7) ∷ [];
        after = [];
        split = refl;
        holds = refl;
        others = (refl, tt);
      })

both : Longs windows (map (with_window windows) (7 ∷ 3 ∷ [])) (long_of 55 ∷ long_of 51 ∷ [])
unfolding find_primary_window
both =
    described (ascii "e - W") (long_of 55) describes_7
      (described (ascii "e - W") (long_of 51) describes_3 no_process)

collect_requester_info-Ancestors_example :
    (collect_requester_info windows 3 7
      ≡ some (
          ok (record {
            description_short = ascii "e - W";
            description_long = long_of 55 ++ ascii "\n\n" ++ long_of 51;
          })))
    × All
        (λ process. IsPrimary windows process.0 process.1)
        (map (with_window windows) (7 ∷ 3 ∷ []))
collect_requester_info-Ancestors_example =
    collect_requester_info-Ancestors windows 7 (7 ∷ 3 ∷ []) ancestors 3 (some 3) (ascii "e - W")
      (long_of 51) shows_3 describes_3 (long_of 55 ∷ long_of 51 ∷ [])
      (long_of 55 ++ ascii "\n\n" ++ long_of 51) both
      (before_more (long_of 55) (alone (long_of 51)))

abbrev InCycle : ℕ → Type 0
InCycle pid = (pid ≡ 20) ⊎ (pid ≡ 21)

in_cycle : IsCyclic windows InCycle
unfolding get_parent_pid
in_cycle = record {
  nonzero = λ pid p e. elim p [ inl h ↦ omega arith | inr h ↦ omega arith ];
  has_parent = λ pid p. elim p [ inl h ↦ inr (rw h refl) | inr h ↦ inl (rw h refl) ];
}

collect_requester_info-IsCyclic_example : collect_requester_info windows 1000 20 ≡ none
collect_requester_info-IsCyclic_example =
    collect_requester_info-IsCyclic windows InCycle 1000 20 in_cycle (inl refl)

abbrev zeros : Bytes
zeros =
    0 ∷ 0 ∷ 0 ∷ 0 ∷ 0 ∷ 0 ∷ 0 ∷ 0 ∷ 0 ∷ 0 ∷ 0 ∷ 0 ∷ 0 ∷ 0 ∷ 0 ∷ 0 ∷ 0 ∷ 0 ∷ 0 ∷ 0 ∷ 0 ∷ 0 ∷ 0 ∷ 0
    ∷ 0 ∷ 0 ∷ 0 ∷ 0 ∷ 0 ∷ 0 ∷ 0 ∷ 0 ∷ 0 ∷ 0 ∷ 0 ∷ 0 ∷ 0 ∷ 0 ∷ 0 ∷ 0 ∷ []

abbrev mapping : Bytes
mapping = write_string bo [] list_request ++ (bo.u32_to_be 0 ++ zeros)

lists :
    handle_request bo toml {ssl = ssl} user list_request
      (record { channel = 80 ∷ 97 ∷ 103 ∷ 101 ∷ 97 ∷ 110 ∷ 116 ∷ []; requester = none })
      agent
    ≡ (ok listed, agent)
unfolding run
lists = refl

answer_mapping-reply_example :
    (s : Answered ssl) × (answer_mapping bo toml user none mapping agent false ≡ some (ok tt, s))
    × Copied (write_string bo [] listed) mapping s.mapping
    × (s.agent ≡ agent)
answer_mapping-reply_example =
    answer_mapping-reply byteorder-laws toml user none list_request listed zeros agent agent
      (omega arith) lists
