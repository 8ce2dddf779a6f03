-- ===== src/Gui/Placement.antt =====
-- src/platform/win/confirmation.rs: where the dialog and its controls stand.
use ssh_keys.Base.{◌↔◌, arith}
use ssh_keys.Base.Int.{
  ℤ, pos, ◌+ℤ◌, ◌-ℤ◌, ◌/ℤ◌, ◌≤ℤ◌, min_ℤ, max_ℤ, add_parts, sub_parts, half_parts, percent_parts,
  min_ℤ-le, le-max_ℤ, parts_once, min_ℤ-or,
}
use ssh_keys.Gui.Layout.{
  Screen, area_width, max_width, max_text_width, border_x, dlg_new_width, dlg_x, control_x,
}

module _ (s : Screen) (w : ℤ) where
  -- The dialog's width is at most six tenths of the work area's.
  dlg_new_width-le : dlg_new_width s w ≤ℤ max_width s
  unfolding dlg_new_width
  dlg_new_width-le = (min_ℤ-le (max_width s) _).0

  max_width-le : pos 0 ≤ℤ area_width s → max_width s ≤ℤ area_width s
  unfolding max_width
  max_width-le h = omega (arith, percent_parts (area_width s), parts_once (area_width s))

  -- The dialog stands between zero and the width of the work area, wherever the work area begins.
  pub dialog_within :
      pos 0 ≤ℤ area_width s
      → (pos 0 ≤ℤ dlg_x s w) × (dlg_x s w +ℤ dlg_new_width s w ≤ℤ area_width s)
  unfolding dlg_x
  dialog_within h =
      let a = area_width s in
      let d = dlg_new_width s w in
      let parts = half_parts (a -ℤ d) in
      (
        omega (arith, dlg_new_width-le, max_width-le h, parts, sub_parts a d, parts_once (a -ℤ d)),
        omega (
          arith,
          dlg_new_width-le,
          max_width-le h,
          parts,
          sub_parts a d,
          parts_once (a -ℤ d),
          add_parts ((a -ℤ d) /ℤ 2) d,
        ),
      )

  pub control_within :
      (t : ℤ)
      → t ≤ℤ dlg_new_width s w
      → (pos 0 ≤ℤ control_x s w t) × (control_x s w t +ℤ t ≤ℤ dlg_new_width s w)
  unfolding control_x
  control_within t h =
      let d = dlg_new_width s w in
      (
        omega (arith, half_parts (d -ℤ t), sub_parts d t, parts_once (d -ℤ t)),
        omega (
          arith,
          half_parts (d -ℤ t),
          sub_parts d t,
          parts_once (d -ℤ t),
          add_parts ((d -ℤ t) /ℤ 2) t,
        ),
      )

  within_control :
      (t : ℤ)
      → pos 0 ≤ℤ control_x s w t
      → control_x s w t +ℤ t ≤ℤ dlg_new_width s w
      → t ≤ℤ dlg_new_width s w
  unfolding control_x
  within_control t l r =
      let d = dlg_new_width s w in
      omega (
        arith,
        half_parts (d -ℤ t),
        sub_parts d t,
        parts_once (d -ℤ t),
        add_parts ((d -ℤ t) /ℤ 2) t,
      )

  -- The widest text fits the dialog where it fits six tenths of the work area.
  le-dlg_new_width : pos 0 ≤ℤ s.width_20 +ℤ border_x s → w ≤ℤ max_width s → w ≤ℤ dlg_new_width s w
  unfolding dlg_new_width max_text_width
  le-dlg_new_width room h =
      let m = max_width s in
      let inner = max_ℤ s.width_160 w in
      let t = min_ℤ m inner in
      let sum = t +ℤ s.width_20 +ℤ border_x s in
      omega (
        arith,
        min_ℤ-or m (max_ℤ s.width_180 sum),
        le-max_ℤ s.width_180 sum,
        min_ℤ-or m inner,
        le-max_ℤ s.width_160 w,
        add_parts (t +ℤ s.width_20) (border_x s),
        add_parts t s.width_20,
        add_parts s.width_20 (border_x s),
      )

  -- Where the border and the margin are not negative together, the control of the widest text stands
  -- within the dialog exactly when that text is not wider than six tenths of the work area.
  pub widest-within :
      pos 0 ≤ℤ s.width_20 +ℤ border_x s
      → ((pos 0 ≤ℤ control_x s w w) × (control_x s w w +ℤ w ≤ℤ dlg_new_width s w))
        ↔ (w ≤ℤ max_width s)
  widest-within room = (
    λ in_dialog.
        let fits = within_control w in_dialog.0 in_dialog.1 in omega (arith, dlg_new_width-le),
    λ fits. control_within w (le-dlg_new_width room fits),
  )

-- On a monitor whose work area, of a width that is not negative, begins at its own width or further
-- right, as that of a second monitor can, the dialog stands wholly to the left of the work area.
pub dialog-off_monitor :
    (s : Screen) (w : ℤ)
    → pos 0 ≤ℤ area_width s
    → area_width s ≤ℤ s.rc_work.left
    → dlg_x s w +ℤ dlg_new_width s w ≤ℤ s.rc_work.left
dialog-off_monitor s w h beyond = let inside = dialog_within s w h in omega arith
