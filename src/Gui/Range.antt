-- ===== src/Gui/Range.antt =====
-- src/platform/win/confirmation.rs: the range of the numbers that WM_INITDIALOG computes.
use ssh_keys.Base.{ℕ, ◌+◌, ◌^◌, ◌≤◌, arith}
use ssh_keys.Base.Int.{
  ℤ, pos, ◌≤ℤ◌, pos_part, neg_part, ◌+ℤ◌, ◌-ℤ◌, ◌/ℤ◌, min_ℤ, max_ℤ, add_parts, sub_parts,
  half_parts, percent_parts, parts_once, IsI32,
}
use ssh_keys.Gui.Layout.{
  Rect, Screen, width, height, area_width, max_width, max_text_width, border_x, dlg_new_width,
  dlg_width_diff, dlg_x, dlg_y, control_x,
}
use ssh_keys.Gui.Placement.{dialog_within}

-- A coordinate or a width of at most 2^20 pixels, on either side of zero.
abbrev pub IsPixels : ℤ → Type 0
IsPixels a = (pos_part a ≤ 2 ^ 20) × (neg_part a ≤ 2 ^ 20)

abbrev pub HasPixels : Rect → Type 0
HasPixels r = IsPixels r.left × IsPixels r.top × IsPixels r.right × IsPixels r.bottom

pub record IsPlausible (s : Screen) (w : ℤ) : Type 0 where
  pub work : HasPixels s.rc_work
  pub wind : HasPixels s.rc_wind
  pub client : HasPixels s.rc_client
  pub w20 : IsPixels s.width_20
  pub w160 : IsPixels s.width_160
  pub w180 : IsPixels s.width_180
  pub widest_text : IsPixels w

-- A magnitude of at most `n`.
abbrev Below : ℕ → ℤ → Type 0
Below n a = (pos_part a ≤ n) × (neg_part a ≤ n)

add-Below : {m n : ℕ} (a b : ℤ) → Below m a → Below n b → Below (m + n) (a +ℤ b)
add-Below a b ha hb = (
  omega (arith, add_parts a b, parts_once (a +ℤ b)),
  omega (arith, add_parts a b, parts_once (a +ℤ b)),
)

sub-Below : {m n : ℕ} (a b : ℤ) → Below m a → Below n b → Below (m + n) (a -ℤ b)
sub-Below a b ha hb = (
  omega (arith, sub_parts a b, parts_once (a -ℤ b)),
  omega (arith, sub_parts a b, parts_once (a -ℤ b)),
)

half-Below : {n : ℕ} (a : ℤ) → Below n a → Below n (a /ℤ 2)
half-Below a h = (omega (arith, half_parts a), omega (arith, half_parts a))

div-Below : {n : ℕ} (k : ℕ) (a : ℤ) → Below n a → Below n (a /ℤ k)
unfolding ◌/ℤ◌
div-Below k a h = ground arith

min-Below : {n : ℕ} (a b : ℤ) → Below n a → Below n b → Below n (min_ℤ a b)
unfolding min_ℤ
min-Below a b ha hb = ground arith

max-Below : {n : ℕ} (a b : ℤ) → Below n a → Below n b → Below n (max_ℤ a b)
unfolding max_ℤ
max-Below a b ha hb = ground arith

wider : {m n : ℕ} (a : ℤ) → m ≤ n → Below m a → Below n a
wider a h b = (omega arith, omega arith)

-- What `i32` holds, with room to spare.
in_range : {n : ℕ} (a : ℤ) → n ≤ 2 ^ 30 → Below n a → IsI32 a
in_range a h b = (omega arith, omega arith)

module _ (s : Screen) (w : ℤ) (p : IsPlausible s w) where
  open p use {work, wind, client, w20, w160, w180, widest_text}

  area_width-Below : Below (2 ^ 21) (area_width s)
  unfolding area_width
  area_width-Below = sub-Below s.rc_work.right s.rc_work.left work.2 work.0

  max_width-Below : Below (2 ^ 21) (max_width s)
  unfolding max_width
  max_width-Below =
      let a = area_width-Below in
      (omega (arith, percent_parts (area_width s)), omega (arith, percent_parts (area_width s)))

  percent-Below : Below (2 ^ 21) (area_width s /ℤ 100)
  percent-Below = let a = area_width-Below in div-Below 100 (area_width s) a

  max_text_width-Below : Below (2 ^ 21) (max_text_width s w)
  unfolding max_text_width
  max_text_width-Below =
      min-Below (max_width s) (max_ℤ s.width_160 w) max_width-Below
        (max-Below s.width_160 w (wider _ (omega arith) w160) (wider _ (omega arith) widest_text))

  wind_width-Below : Below (2 ^ 21) (width s.rc_wind)
  wind_width-Below = sub-Below s.rc_wind.right s.rc_wind.left wind.2 wind.0

  border_x-Below : Below (2 ^ 22) (border_x s)
  unfolding border_x
  border_x-Below =
      wider _ (omega arith)
        (sub-Below (width s.rc_wind) s.rc_client.right wind_width-Below client.2)

  content_width-Below : Below (2 ^ 22) (max_text_width s w +ℤ s.width_20)
  content_width-Below =
      wider _ (omega arith) (add-Below (max_text_width s w) s.width_20 max_text_width-Below w20)

  full_width-Below : Below (2 ^ 23) (max_text_width s w +ℤ s.width_20 +ℤ border_x s)
  full_width-Below =
      wider _ (omega arith) (
        add-Below (max_text_width s w +ℤ s.width_20) (border_x s) content_width-Below
          border_x-Below)

  dlg_new_width-Below : Below (2 ^ 23) (dlg_new_width s w)
  unfolding dlg_new_width
  dlg_new_width-Below = min-Below (max_width s) _ (wider _ (omega arith) max_width-Below) (
      max-Below s.width_180 (max_text_width s w +ℤ s.width_20 +ℤ border_x s)
        (wider _ (omega arith) w180) full_width-Below)

  dlg_width_diff-Below : Below (2 ^ 24) (dlg_width_diff s w)
  unfolding dlg_width_diff
  dlg_width_diff-Below =
      wider _ (omega arith)
        (sub-Below (dlg_new_width s w) (width s.rc_wind) dlg_new_width-Below wind_width-Below)

  free_width-Below : Below (2 ^ 24) (area_width s -ℤ dlg_new_width s w)
  free_width-Below =
      wider _ (omega arith)
        (sub-Below (area_width s) (dlg_new_width s w) area_width-Below dlg_new_width-Below)

  dlg_x-Below : Below (2 ^ 24) (dlg_x s w)
  unfolding dlg_x
  dlg_x-Below = half-Below _ free_width-Below

  height-Below : (r : Rect) → HasPixels r → Below (2 ^ 21) (height r)
  height-Below r h = sub-Below r.bottom r.top h.3 h.1

  free_height-Below : Below (2 ^ 22) (height s.rc_work -ℤ height s.rc_wind)
  free_height-Below = wider _ (omega arith) (
      sub-Below (height s.rc_work) (height s.rc_wind) (height-Below s.rc_work work)
        (height-Below s.rc_wind wind))

  dlg_y-Below : Below (2 ^ 22) (dlg_y s)
  unfolding dlg_y
  dlg_y-Below = half-Below _ free_height-Below

  room-Below : (t : ℤ) → IsPixels t → Below (2 ^ 24) (dlg_new_width s w -ℤ t)
  room-Below t ht = wider _ (omega arith) (sub-Below (dlg_new_width s w) t dlg_new_width-Below ht)

  control_x-Below : (t : ℤ) → IsPixels t → Below (2 ^ 24) (control_x s w t)
  unfolding control_x
  control_x-Below t ht = half-Below _ (room-Below t ht)

  button_x-Below : (left : ℤ) → IsPixels left → Below (2 ^ 25) (left +ℤ dlg_width_diff s w)
  button_x-Below left hl =
      wider _ (omega arith) (add-Below left (dlg_width_diff s w) hl dlg_width_diff-Below)

  -- With coordinates and widths of at most 2^20 pixels, no difference, sum or product that WM_INITDIALOG
  -- computes leaves the range of `i32`: those of the widths and heights of the work area and the dialog's
  -- window; of the border; of the content without and with the border; of the dialog's new width and its
  -- change; of the dialog's place, before and after it is halved; of the place of a control at `rect` whose
  -- text has a width `t`, before and after it is halved, and of its height; and of the place of a button
  -- that was at `rect`. And the dialog's place and new width are such that it stands between zero and the
  -- width of the work area, where this is not negative.
  pub layout-IsI32 :
      (t : ℤ) (rect : Rect)
      → IsPixels t
      → HasPixels rect
      → pos 0 ≤ℤ area_width s
      → (IsI32 (area_width s)
          × IsI32 (height s.rc_work)
          × IsI32 (width s.rc_wind)
          × IsI32 (height s.rc_wind))
        × (IsI32 (area_width s /ℤ 100) × IsI32 (max_width s))
        × (IsI32 (border_x s)
            × IsI32 (max_text_width s w)
            × IsI32 (max_text_width s w +ℤ s.width_20)
            × IsI32 (max_text_width s w +ℤ s.width_20 +ℤ border_x s))
        × (IsI32 (dlg_new_width s w) × IsI32 (dlg_width_diff s w))
        × (IsI32 (area_width s -ℤ dlg_new_width s w) × IsI32 (dlg_x s w))
        × (IsI32 (height s.rc_work -ℤ height s.rc_wind) × IsI32 (dlg_y s))
        × (IsI32 (dlg_new_width s w -ℤ t) × IsI32 (control_x s w t) × IsI32 (height rect))
        × IsI32 (rect.left +ℤ dlg_width_diff s w)
        × (pos 0 ≤ℤ dlg_x s w)
        × (dlg_x s w +ℤ dlg_new_width s w ≤ℤ area_width s)
  layout-IsI32 t rect ht hr positive =
      let inside = dialog_within s w positive in
      (
        (
          in_range _ (omega arith) area_width-Below,
          in_range _ (omega arith) (height-Below s.rc_work work),
          in_range _ (omega arith) wind_width-Below,
          in_range _ (omega arith) (height-Below s.rc_wind wind),
        ),
        (in_range _ (omega arith) percent-Below, in_range _ (omega arith) max_width-Below),
        (
          in_range _ (omega arith) border_x-Below,
          in_range _ (omega arith) max_text_width-Below,
          in_range _ (omega arith) content_width-Below,
          in_range _ (omega arith) full_width-Below,
        ),
        (
          in_range _ (omega arith) dlg_new_width-Below,
          in_range _ (omega arith) dlg_width_diff-Below,
        ),
        (in_range _ (omega arith) free_width-Below, in_range _ (omega arith) dlg_x-Below),
        (in_range _ (omega arith) free_height-Below, in_range _ (omega arith) dlg_y-Below),
        (
          in_range _ (omega arith) (room-Below t ht),
          in_range _ (omega arith) (control_x-Below t ht),
          in_range _ (omega arith) (height-Below rect hr),
        ),
        in_range _ (omega arith) (button_x-Below rect.left hr.0),
        inside.0,
        inside.1,
      )
