-- ===== src/Examples/Icons.antt =====
-- An icon in a notification area that is a function from GUIDs to icons.
use ssh_keys.Base.{
  ℕ, ◌≡◌, ◌≢◌, refl, Bool, true, false, Bool-cases, inl, inr, Bytes, Option, some, none, List, [],
  ◌∷◌, if◌then◌else◌, bytes_eq, bytes_eq→eq, bytes_eq_refl,
}
use ssh_keys.Outcome.{ok}
use ssh_keys.Text.{from_utf16}
use ssh_keys.Serve.{Call, create_window_of}
use ssh_keys.Gui.Icon.{IconData, icon_guid}
use ssh_keys.Gui.Icon.Shell.{
  Operation, nim_add, nim_delete, nim_setversion, Icon, Shell, ShellLaws, icon_for, agent_icon,
  Shows, create_taskbar_icon, leave_loop, wm_quit, get_message_error, Succeeds,
  create_taskbar_icon-Shows,
}

abbrev Area : Type 0
Area = Bytes → Option Icon

-- Whether an operation succeeds, and the icon of the data's GUID after it. There is no second icon of a
-- GUID.
abbrev changed : Operation → IconData → Option Icon → Bool × Option Icon
changed nim_add d none = (true, some (icon_for d))
changed nim_add d (some i) = (false, some i)
changed nim_delete d none = (false, none)
changed nim_delete d (some i) = (true, none)
changed nim_setversion d none = (false, none)
changed nim_setversion d (some i) = (true, some (record i { version = d.version }))

abbrev shell : Shell Area
shell = record {
  notify_icon = λ op d area. (
    (changed op d (area d.guid)).0,
    λ guid. if bytes_eq guid d.guid then (changed op d (area d.guid)).1 else area guid,
  );
  icon_of = λ area guid. area guid;
}

shell_others :
    (op : Operation) (d : IconData) (area : Area) (guid : Bytes)
    → guid ≢ d.guid
    → (shell.notify_icon op d area).1 guid ≡ area guid
shell_others op d area guid apart = elim (Bool-cases (bytes_eq guid d.guid)) [
  | inl e ↦ absurd (apart (bytes_eq→eq guid d.guid e))
  | inr n ↦ rw n refl
]

changed_failed :
    (op : Operation) (d : IconData) (i : Option Icon)
    → (changed op d i).0 ≡ false
    → (changed op d i).1 ≡ i
changed_failed nim_add d none e = cc
changed_failed nim_add d (some i) e = refl
changed_failed nim_delete d none e = refl
changed_failed nim_delete d (some i) e = cc
changed_failed nim_setversion d none e = refl
changed_failed nim_setversion d (some i) e = cc

changed_delete : (d : IconData) (i : Option Icon) → (changed nim_delete d i).1 ≡ none
changed_delete d none = refl
changed_delete d (some i) = refl

changed_add :
    (d : IconData) (i : Option Icon)
    → (changed nim_add d i).0 ≡ true
    → (changed nim_add d i).1 ≡ some (icon_for d)
changed_add d none e = refl
changed_add d (some i) e = cc

shell-laws : ShellLaws shell 528
shell-laws = record {
  others = λ op d area guid sized flag apart. shell_others op d area guid apart;
  failed = λ op d area e. rw (bytes_eq_refl d.guid) (changed_failed op d (area d.guid) e);
  delete = λ d area sized flag e. rw (bytes_eq_refl d.guid) (changed_delete d (area d.guid));
  add = λ d area sized flags e. rw (bytes_eq_refl d.guid) (changed_add d (area d.guid) e);
  set_version = λ d area i sized flag e done. rw (bytes_eq_refl d.guid, e) refl;
}

shell-Succeeds : Succeeds shell
shell-Succeeds = record {
  deletes = λ d area i e. rw e refl;
  adds = λ d area e. rw e refl;
  sets_version = λ d area i e. rw e refl;
}

-- A digest of one byte, and an icon that another run has left.
abbrev md5 : Bytes → Option Bytes
md5 bs = some (7 ∷ [])

abbrev exe : Option (List ℕ)
exe = some (97 ∷ 46 ∷ 101 ∷ [])

abbrev stale : Area
stale guid = some (agent_icon 3 4)

abbrev made : Call
made = record { succeeded = true; last_error = 0 }

named : icon_guid md5 exe ≡ ok (7 ∷ [])
unfolding icon_guid from_utf16
named = refl

window_made : create_window_of (λ code. []) made made ≡ ok tt
unfolding create_window_of
window_made = refl

create_taskbar_icon-Shows_example :
    let after =
      create_taskbar_icon shell 528 (icon_guid md5 exe) (λ code. []) made made 5 6 stale in
    let quit = leave_loop shell 528 (icon_guid md5 exe) wm_quit stale in
    let failed = leave_loop shell 528 (icon_guid md5 exe) get_message_error stale in
    (after.0 ≡ ok tt)
    × Shows shell after.1 (7 ∷ []) (some (agent_icon 5 6)) (8 ∷ []) (some (agent_icon 3 4))
    × (quit.0 ≡ ok tt)
    × Shows shell quit.1 (7 ∷ []) none (8 ∷ []) (some (agent_icon 3 4))
    × (failed ≡ (ok tt, stale))
create_taskbar_icon-Shows_example =
    create_taskbar_icon-Shows shell-laws shell-Succeeds md5 exe (7 ∷ []) (8 ∷ []) named (λ e. cc)
      (λ code. []) made made 5 6 window_made stale stale
