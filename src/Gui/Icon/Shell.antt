-- ===== src/Gui/Icon/Shell.antt =====
-- src/platform/win/taskbar.rs (create_taskbar_icon) and mod.rs (serve): the icon in the notification area.
use Prim.Native.Nat.{bit_and, bit_or}
use ssh_keys.Base.{Bool, true, false, ℕ, ◌≡◌, ◌≢◌, refl, ◌∙◌, Bytes, Option, some, none, List}
use ssh_keys.Outcome.{Outcome, ok}
use ssh_keys.Exec.{Exec, pure, lift, ◌>>=◌, ◌>>◌}
use ssh_keys.Text.{ascii}
use ssh_keys.Text.Utf16.{until_zero}
use ssh_keys.Serve.{Call, create_window_of}
use ssh_keys.Gui.Icon.{
  no_tip, icon_guid, IconData, nif_message, nif_icon, nif_tip, nif_guid, nif_showtip,
  wm_notification_msg, base_icon_data, icon_data,
}

pub data Operation : Type 0 where
  nim_add nim_delete nim_setversion : Operation

-- An icon as it is shown.
pub record Icon : Type 0 where
  pub window : ℕ
  pub callback_message : ℕ
  pub icon : ℕ
  pub tip : List ℕ
  pub version : ℕ

-- The notification area: Shell_NotifyIconA with its result, which the program does not read, and the icon
-- of a GUID.
pub record Shell (Area : Type 0) : Type 0 where
  pub notify_icon : Operation → IconData → Area → Bool × Area
  pub icon_of : Area → Bytes → Option Icon

abbrev pub HasFlag : ℕ → IconData → Type 0
HasFlag flag d = bit_and d.flags flag ≡ flag

abbrev pub all_flags : ℕ
all_flags = bit_or nif_guid (bit_or (bit_or (bit_or nif_tip nif_showtip) nif_message) nif_icon)

abbrev pub icon_for : IconData → Icon
icon_for d = record {
  window = d.window;
  callback_message = d.callback_message;
  icon = d.icon;
  tip = until_zero d.tip;
  version = 0;
}

-- What is documented of Shell_NotifyIconA with data of this size that have a GUID: only the icon of
-- the GUID changes, and none where the call fails; after NIM_DELETE there is none; after NIM_ADD it is
-- the one of the data, if the flags say that all its members are set; and NIM_SETVERSION sets its version.
pub record ShellLaws {Area : Type 0} (shell : Shell Area) (size : ℕ) : Type 0 where
  pub others :
      (op : Operation) (d : IconData) (area : Area) (guid : Bytes)
      → d.cb_size ≡ size
      → HasFlag nif_guid d
      → guid ≢ d.guid
      → shell.icon_of (shell.notify_icon op d area).1 guid ≡ shell.icon_of area guid
  pub failed :
      (op : Operation) (d : IconData) (area : Area)
      → (shell.notify_icon op d area).0 ≡ false
      → shell.icon_of (shell.notify_icon op d area).1 d.guid ≡ shell.icon_of area d.guid
  pub delete :
      (d : IconData) (area : Area)
      → d.cb_size ≡ size
      → HasFlag nif_guid d
      → (shell.notify_icon nim_delete d area).0 ≡ true
      → shell.icon_of (shell.notify_icon nim_delete d area).1 d.guid ≡ none
  pub add :
      (d : IconData) (area : Area)
      → d.cb_size ≡ size
      → HasFlag all_flags d
      → (shell.notify_icon nim_add d area).0 ≡ true
      → shell.icon_of (shell.notify_icon nim_add d area).1 d.guid ≡ some (icon_for d)
  pub set_version :
      (d : IconData) (area : Area) (i : Icon)
      → d.cb_size ≡ size
      → HasFlag nif_guid d
      → shell.icon_of area d.guid ≡ some i
      → (shell.notify_icon nim_setversion d area).0 ≡ true
      → shell.icon_of (shell.notify_icon nim_setversion d area).1 d.guid
        ≡ some (record i { version = d.version })

-- Where the shell runs and has room: what does not contradict the icons that are there succeeds.
pub record Succeeds {Area : Type 0} (shell : Shell Area) : Type 0 where
  pub deletes :
      (d : IconData) (area : Area) (i : Icon)
      → shell.icon_of area d.guid ≡ some i
      → (shell.notify_icon nim_delete d area).0 ≡ true
  pub adds :
      (d : IconData) (area : Area)
      → shell.icon_of area d.guid ≡ none
      → (shell.notify_icon nim_add d area).0 ≡ true
  pub sets_version :
      (d : IconData) (area : Area) (i : Icon)
      → shell.icon_of area d.guid ≡ some i
      → (shell.notify_icon nim_setversion d area).0 ≡ true

-- How GetMessageA ends the loop: with WM_QUIT, or with an error, -1.
pub data LoopEnd : Type 0 where
  wm_quit get_message_error : LoopEnd

module _ {Area : Type 0} (shell : Shell Area) (size : ℕ) (guid : Outcome Bytes) where
  abbrev pub notify : Operation → IconData → Exec Area (Unit {0})
  notify op d area = (ok tt, (shell.notify_icon op d area).1)

  -- create_taskbar_icon, given the results of its calls: the window and the icon that is loaded.
  unfoldable pub create_taskbar_icon : (ℕ → Bytes) → Call → Call → ℕ → ℕ → Exec Area (Unit {0})
  create_taskbar_icon format_message register_class create_window window icon = do
    lift (create_window_of format_message register_class create_window)
    data_ ← lift (base_icon_data size guid)
    notify nim_delete (icon_data window icon data_)
    notify nim_add (icon_data window icon data_)
    notify nim_setversion (icon_data window icon data_)

  unfoldable pub remove_icon : Exec Area (Unit {0})
  remove_icon = do data_ ← lift (base_icon_data size guid); notify nim_delete data_

  -- What serve does where the loop ends.
  unfoldable pub leave_loop : LoopEnd → Exec Area (Unit {0})
  leave_loop wm_quit = remove_icon
  leave_loop get_message_error = pure tt

-- The icon of a window, with the text of the program.
abbrev pub agent_icon : ℕ → ℕ → Icon
agent_icon window icon = record {
  window = window;
  callback_message = wm_notification_msg;
  icon = icon;
  tip = ascii "ssh-agent";
  version = 4;
}

-- What is seen of the area: the icon of the GUID, and that of another one.
abbrev pub Shows :
    {Area : Type 0} → Shell Area → Area → Bytes → Option Icon → Bytes → Option Icon → Type 0
Shows shell area guid icon other other_icon =
    (shell.icon_of area guid ≡ icon) × (shell.icon_of area other ≡ other_icon)

module _ {Area : Type 0} {shell : Shell Area} {size : ℕ} (laws : ShellLaws shell size)
    (works : Succeeds shell) where
  delete-none :
      (d : IconData) (area : Area) (found : Option Icon) (done : Bool)
      → d.cb_size ≡ size
      → HasFlag nif_guid d
      → shell.icon_of area d.guid ≡ found
      → (shell.notify_icon nim_delete d area).0 ≡ done
      → shell.icon_of (shell.notify_icon nim_delete d area).1 d.guid ≡ none
  delete-none d area found true sized flag e r = laws.delete d area sized flag r
  delete-none d area none false sized flag e r = laws.failed nim_delete d area r ∙ e
  delete-none d area (some i) false sized flag e r = cc (works.deletes d area i e)

  delete-Shows :
      (d : IconData) (area : Area) (other : Bytes)
      → d.cb_size ≡ size
      → HasFlag nif_guid d
      → other ≢ d.guid
      → Shows shell
          (shell.notify_icon nim_delete d area).1
          d.guid
          none
          other
          (shell.icon_of area other)
  delete-Shows d area other sized flag apart = (
    delete-none d area (shell.icon_of area d.guid) (shell.notify_icon nim_delete d area).0 sized
        flag refl refl,
    laws.others nim_delete d area other sized flag apart,
  )

  add-Shows :
      (d : IconData) (area : Area) (other : Bytes)
      → d.cb_size ≡ size
      → HasFlag all_flags d
      → HasFlag nif_guid d
      → other ≢ d.guid
      → shell.icon_of area d.guid ≡ none
      → let after = (shell.notify_icon nim_setversion d (shell.notify_icon nim_add d area).1).1 in
        Shows shell after d.guid
          (some (record (icon_for d) { version = d.version }))
          other
          (shell.icon_of area other)
  add-Shows d area other sized flags flag apart free =
      let added = (shell.notify_icon nim_add d area).1 in
      let there = laws.add d area sized flags (works.adds d area free) in
      (
        laws.set_version d added (icon_for d) sized flag there
            (works.sets_version d added (icon_for d) there),
        laws.others nim_setversion d added other sized flag apart
            ∙ laws.others nim_add d area other sized flag apart,
      )

  -- Where Shell_NotifyIconA does what is documented, and succeeds wherever the icons that are there do not
  -- stand against it, the program's GUID is known, and the class and the window are made: whatever icons
  -- there are, create_taskbar_icon succeeds, and the icon of the GUID then is that of its window, with the
  -- program's message, text and version. Where WM_QUIT ends the loop, no icon of the GUID is left, whatever
  -- icons there are then; where an error of GetMessageA ends it, all icons stay, also the program's. The
  -- icon of another GUID never changes.
  pub create_taskbar_icon-Shows :
      (md5 : Bytes → Option Bytes) (exe : Option (List ℕ)) (guid other : Bytes)
      → icon_guid md5 exe ≡ ok guid
      → other ≢ guid
      → (format_message : ℕ → Bytes) (register_class create_window : Call) (window icon : ℕ)
      → create_window_of format_message register_class create_window ≡ ok tt
      → (area later : Area)
      → let after =
          create_taskbar_icon shell size
            (icon_guid md5 exe)
            format_message
            register_class
            create_window
            window
            icon
            area in
        let quit = leave_loop shell size (icon_guid md5 exe) wm_quit later in
        let failed = leave_loop shell size (icon_guid md5 exe) get_message_error later in
        (after.0 ≡ ok tt)
        × Shows shell after.1 guid (some (agent_icon window icon)) other (shell.icon_of area other)
        × (quit.0 ≡ ok tt)
        × Shows shell quit.1 guid none other (shell.icon_of later other)
        × (failed ≡ (ok tt, later))
  unfolding create_taskbar_icon leave_loop remove_icon base_icon_data icon_data
  create_taskbar_icon-Shows md5 exe guid other named apart format_message register_class
        create_window window icon made area later =
      let zeroed : IconData = record {
        cb_size = size;
        window = 0;
        flags = nif_guid;
        callback_message = 0;
        icon = 0;
        tip = no_tip 128;
        version = 0;
        guid = guid;
      } in
      let d = icon_data window icon zeroed in
      let first = delete-Shows d area other refl refl apart in
      let shown =
        add-Shows d (shell.notify_icon nim_delete d area).1 other refl refl refl apart first.0 in
      rw (named, made)
        (
          refl,
          (shown.0, shown.1 ∙ first.1),
          refl,
          delete-Shows zeroed later other refl refl apart,
          refl,
        )
