-- ===== src/Gui/Layout.antt =====
-- src/platform/win/confirmation.rs: what WM_INITDIALOG computes, the texts, widths and places of the
-- confirmation dialog. Coordinates are integers; `Range` says when they are those of `i32`.
use ssh_keys.Base.{
  ℕ, zero, suc, Bytes, Option, some, none, List, [], ◌∷◌, ◌++◌, length, take, map, ◌==◌, ◌||◌,
  if◌then◌else◌,
}
use ssh_keys.Base.Int.{ℤ, ◌+ℤ◌, ◌-ℤ◌, ◌/ℤ◌, scale, min_ℤ, max_ℤ}
use ssh_keys.Text.{ascii}
use ssh_keys.Agent.{RequesterInfo}

pub record Rect : Type 0 where
  pub left : ℤ
  pub top : ℤ
  pub right : ℤ
  pub bottom : ℤ

abbrev pub width : Rect → ℤ
width r = r.right -ℤ r.left

abbrev pub height : Rect → ℤ
height r = r.bottom -ℤ r.top

-- The texts that the dialog shows of a requester: the short one, and the one of the tooltip.
abbrev pub described_by : Option RequesterInfo → Bytes × Option Bytes
described_by (some r) = (r.description_short, some r.description_long)
described_by none = (ascii "Unknown", none)

-- The weight of a control's font.
abbrev pub font_weight : ℕ → ℕ
font_weight control_id = if control_id == 4 || control_id == 6 || control_id == 8 then 700 else 300

-- GetWindowTextW into a buffer of `n` zeros copies one unit less, and a zero behind it.
abbrev pub window_text : ℕ → List ℕ → List ℕ
window_text zero text = []
window_text (suc n) text = take n text ++ (0 ∷ [])

-- The units of a control's text that are measured: those of a buffer of the text's length.
abbrev pub measured : List ℕ → List ℕ
measured text = window_text (length text) text

-- The widest of the widths.
unfoldable pub widest : ℤ → List ℤ → ℤ
widest w [] = w
widest w (v ∷ vs) = widest (max_ℤ w v) vs

-- What the calls of the API answer: the monitor's work area (zeros if there is none), the dialog's
-- window and client area, and widths of 20, 160 and 180 units of the dialog, in pixels.
pub record Screen : Type 0 where
  pub rc_work : Rect
  pub rc_wind : Rect
  pub rc_client : Rect
  pub width_20 : ℤ
  pub width_160 : ℤ
  pub width_180 : ℤ

module _ (s : Screen) where
  unfoldable pub area_width : ℤ
  area_width = width s.rc_work

  -- Six tenths of the work area.
  unfoldable pub max_width : ℤ
  max_width = scale (area_width /ℤ 100) 60

  unfoldable pub max_text_width : ℤ → ℤ
  max_text_width widest_text = min_ℤ max_width (max_ℤ s.width_160 widest_text)

  unfoldable pub border_x : ℤ
  border_x = width s.rc_wind -ℤ s.rc_client.right

  unfoldable pub dlg_new_width : ℤ → ℤ
  dlg_new_width widest_text =
      min_ℤ max_width (max_ℤ s.width_180 (max_text_width widest_text +ℤ s.width_20 +ℤ border_x))

  unfoldable pub dlg_width_diff : ℤ → ℤ
  dlg_width_diff widest_text = dlg_new_width widest_text -ℤ width s.rc_wind

  unfoldable pub dlg_x : ℤ → ℤ
  dlg_x widest_text = (area_width -ℤ dlg_new_width widest_text) /ℤ 2

  unfoldable pub dlg_y : ℤ
  dlg_y = (height s.rc_work -ℤ height s.rc_wind) /ℤ 2

-- A call of SetWindowPos: the place, and the size unless it is kept.
pub record Place : Type 0 where
  pub x : ℤ
  pub y : ℤ
  pub size : Option (ℤ × ℤ)

module _ (s : Screen) (widest_text : ℤ) where
  abbrev pub dialog_place : Place
  dialog_place = record {
    x = dlg_x s widest_text;
    y = dlg_y s;
    size = some (dlg_new_width s widest_text, height s.rc_wind);
  }

  unfoldable pub control_x : ℤ → ℤ
  control_x text_width = (dlg_new_width s widest_text -ℤ text_width) /ℤ 2

  -- A text control, of which `rect` is the place in the dialog.
  abbrev pub control_place : ℤ → Rect → Place
  control_place text_width rect = record {
    x = control_x text_width;
    y = rect.top;
    size = some (text_width, height rect);
  }

  abbrev pub button_place : Rect → Place
  button_place rect = record {
    x = rect.left +ℤ dlg_width_diff s widest_text;
    y = rect.top;
    size = none;
  }

  abbrev pub control_places : List (ℤ × Rect) → List Place
  control_places [] = []
  control_places ((text_width, rect) ∷ controls) =
      control_place text_width rect ∷ control_places controls

-- The calls of SetWindowPos for the dialog, the text controls (of which the first is given apart,
-- since there is at least one) and the buttons; `extent` is GetTextExtentPoint32W.
pub record Control : Type 0 where
  pub text : List ℕ
  pub rect : Rect

module _ (extent : List ℕ → ℤ) where
  abbrev pub text_width : Control → ℤ
  text_width c = extent (measured c.text)

  abbrev pub widest_of : Control → List Control → ℤ
  widest_of c cs = widest (text_width c) (map text_width cs)

  abbrev with_width : Control → ℤ × Rect
  with_width c = (text_width c, c.rect)

  unfoldable pub layout : Screen → Control → List Control → List Rect → List Place
  layout s c cs buttons =
      let w = widest_of c cs in
      dialog_place s w ∷ control_places s w (map with_width (c ∷ cs))
      ++ map (button_place s w) buttons
