-- ===== src/Gui/Tooltip.antt =====
-- src/platform/win/confirmation.rs: the tooltip with the long description, which WM_INITDIALOG makes.
use ssh_keys.Base.{ℕ, ◌≡◌, Bytes, Option, some, none, List}
use ssh_keys.Base.Int.{ℤ, ◌+ℤ◌, ◌-ℤ◌, ◌≤ℤ◌, pos}
use ssh_keys.Packages.{Openssl}
use ssh_keys.Text.{from_utf16}
use ssh_keys.Text.Utf16.{to_utf16_null, until_zero, text_of, chars_until_zero}
use ssh_keys.Agent.{Prompt}
use ssh_keys.Gui.Layout.{Rect, Screen, height, described_by, dlg_new_width, control_x, border_x}

-- What TTM_ADDTOOLW, TTM_SETMAXTIPWIDTH and TTM_SETDELAYTIME give to the tooltip.
pub record Tool : Type 0 where
  pub rect : Rect
  pub text : List ℕ
  pub max_tip_width : ℤ
  pub autopop : ℕ

-- The place of a text control that was at `rect`, in the dialog, after its SetWindowPos.
abbrev pub placed : Screen → ℤ → ℤ → Rect → Rect
placed s widest_text text_width rect = record {
  left = control_x s widest_text text_width;
  top = rect.top;
  right = control_x s widest_text text_width +ℤ text_width;
  bottom = rect.top +ℤ height rect;
}

module _ (s : Screen) (widest_text : ℤ) where
  abbrev tool_with : Option Bytes → ℤ → Rect → Option Tool
  tool_with none text_width rect = none
  tool_with (some description_long) text_width rect = some (record {
    rect = placed s widest_text text_width rect;
    text = to_utf16_null description_long;
    max_tip_width = dlg_new_width s widest_text;
    autopop = 0x7fff;
  })

  -- The tool, given the width of the text of control 4, and the place where it was.
  unfoldable pub tooltip_tool : {ssl : Openssl} → Prompt ssl → ℤ → Rect → Option Tool
  tooltip_tool p text_width rect = tool_with (described_by p.info.requester).1 text_width rect

  -- The long description as the tooltip shows it.
  abbrev pub ShowsText : List ℕ → Tool → Type 0
  ShowsText cs tool = from_utf16 (until_zero tool.text) ≡ some (text_of (chars_until_zero cs))

  -- The width of the dialog's client area, whose coordinates the tool has; its height is not changed.
  abbrev pub client_width : ℤ
  client_width = dlg_new_width s widest_text -ℤ border_x s

  abbrev pub IsWithinClient : Rect → Type 0
  IsWithinClient r =
      (pos 0 ≤ℤ r.left)
      × (r.right ≤ℤ client_width)
      × (pos 0 ≤ℤ r.top)
      × (r.bottom ≤ℤ s.rc_client.bottom)
