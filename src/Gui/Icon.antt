-- ===== src/Gui/Icon.antt =====
-- src/platform/win/taskbar.rs (ICON_GUID, base_icon_data and create_taskbar_icon): the data of the icon
-- in the notification area.
pub mod Shell
use Prim.Native.Nat.{bit_or}
use ssh_keys.Base.{ℕ, ◌+◌, zero, suc, Bytes, Option, List, [], ◌∷◌, ◌++◌, drop, length}
use ssh_keys.Outcome.{Outcome, ok, unwrap, ◌>>=◌}
use ssh_keys.Text.{ascii, from_utf16}

abbrev pub nif_message : ℕ
nif_message = 0x1

abbrev pub nif_icon : ℕ
nif_icon = 0x2

abbrev pub nif_tip : ℕ
nif_tip = 0x4

abbrev pub nif_guid : ℕ
nif_guid = 0x20

abbrev pub nif_showtip : ℕ
nif_showtip = 0x80

-- WM_APP + 2
abbrev pub wm_notification_msg : ℕ
wm_notification_msg = 0x8000 + 2

-- NOTIFYICONDATAA, of which these fields are used; handles are numbers.
pub record IconData : Type 0 where
  pub cb_size : ℕ
  pub window : ℕ
  pub flags : ℕ
  pub callback_message : ℕ
  pub icon : ℕ
  pub tip : Bytes
  pub version : ℕ
  pub guid : Bytes

-- ICON_GUID: the digest of the path of the program's file, of which `current_exe` and `canonicalize`
-- give the units.
unfoldable pub icon_guid : (Bytes → Option Bytes) → Option (List ℕ) → Outcome Bytes
icon_guid md5 exe = do
  path ← unwrap exe
  path_text ← unwrap (from_utf16 path)
  unwrap (md5 path_text)

-- szTip
abbrev pub no_tip : ℕ → Bytes
no_tip zero = []
no_tip (suc n) = 0 ∷ no_tip n

abbrev pub tooltip : Bytes
tooltip = ascii "ssh-agent" ++ (0 ∷ [])

module _ (size : ℕ) (guid : Outcome Bytes) where
  unfoldable pub base_icon_data : Outcome IconData
  base_icon_data = do
    guid_item ← guid
    ok (record {
      cb_size = size;
      window = 0;
      flags = nif_guid;
      callback_message = 0;
      icon = 0;
      tip = no_tip 128;
      version = 0;
      guid = guid_item;
    })

-- The data that create_taskbar_icon fills in; `copy_nonoverlapping` overwrites the front of szTip.
unfoldable pub icon_data : ℕ → ℕ → IconData → IconData
icon_data window icon d = record d {
  window = window;
  flags = bit_or d.flags (bit_or (bit_or (bit_or nif_tip nif_showtip) nif_message) nif_icon);
  version = 4;
  callback_message = wm_notification_msg;
  icon = icon;
  tip = tooltip ++ drop (length tooltip) d.tip;
}
