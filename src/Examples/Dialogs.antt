-- ===== src/Examples/Dialogs.antt =====
-- A dialog on a monitor of 1920 pixels, at the right of another, and texts of 700 pixels.
use ssh_keys.Base.{ℕ, ◌+◌, List, length, ◌^◌, ◌≡◌, ◌≤◌, refl, arith, inl, [], ◌∷◌, some}
use ssh_keys.Base.Int.{pos, ◌+ℤ◌, ◌-ℤ◌, ◌/ℤ◌, ◌≤ℤ◌, IsI32}
use ssh_keys.Gui.Layout.{
  Rect, Screen, width, height, area_width, max_width, max_text_width, border_x, dlg_new_width,
  dlg_width_diff, dlg_x, dlg_y, control_x,
}
use ssh_keys.Gui.Range.{IsPlausible, IsPixels, layout-IsI32}
use ssh_keys.Gui.Fonts.{
  Handles, select_object, text_controls, color_static, delete_fonts, fonts_created, fonts_deleted,
  dcs_got, dcs_released, opened, opened_lem,
}
use ssh_keys.Gui.Texts.{dialog_texts, dialog_texts-chars_until_zero}
use ssh_keys.Text.{ascii, from_utf16}
use ssh_keys.Text.Utf16.{text_of, chars_until_zero}
use ssh_keys.Agent.{Prompt, RequesterInfo}
use ssh_keys.Examples.Values.{ssl, key_pair, info}

abbrev screen : Screen
screen = record {
  rc_work = record { left = pos 1920; top = pos 0; right = pos 3840; bottom = pos 1040 };
  rc_wind = record { left = pos 2000; top = pos 100; right = pos 2320; bottom = pos 340 };
  rc_client = record { left = pos 0; top = pos 0; right = pos 304; bottom = pos 201 };
  width_20 = pos 35;
  width_160 = pos 280;
  width_180 = pos 315;
}

margin : pos 0 ≤ℤ screen.width_20 +ℤ border_x screen
unfolding border_x ◌-ℤ◌ ◌+ℤ◌
margin = omega arith

work_area : area_width screen ≡ pos 1920
unfolding area_width ◌-ℤ◌
work_area = refl

pixels : (n : ℕ) → n ≤ 2 ^ 20 → IsPixels (pos n)
pixels n h = (h, omega arith)

plausible : IsPlausible screen (pos 700)
plausible = record {
  work = (
    pixels 1920 (omega arith),
    pixels 0 (omega arith),
    pixels 3840 (omega arith),
    pixels 1040 (omega arith),
  );
  wind = (
    pixels 2000 (omega arith),
    pixels 100 (omega arith),
    pixels 2320 (omega arith),
    pixels 340 (omega arith),
  );
  client = (
    pixels 0 (omega arith),
    pixels 0 (omega arith),
    pixels 304 (omega arith),
    pixels 201 (omega arith),
  );
  w20 = pixels 35 (omega arith);
  w160 = pixels 280 (omega arith);
  w180 = pixels 315 (omega arith);
  widest_text = pixels 700 (omega arith);
}

not_negative : pos 0 ≤ℤ area_width screen
not_negative = rw work_area (omega arith)

-- A control of 280 pixels.
abbrev control : Rect
control = record { left = pos 10; top = pos 20; right = pos 290; bottom = pos 40 }

layout-IsI32_example :
    (IsI32 (area_width screen)
      × IsI32 (height screen.rc_work)
      × IsI32 (width screen.rc_wind)
      × IsI32 (height screen.rc_wind))
    × (IsI32 (area_width screen /ℤ 100) × IsI32 (max_width screen))
    × (IsI32 (border_x screen)
        × IsI32 (max_text_width screen (pos 700))
        × IsI32 (max_text_width screen (pos 700) +ℤ screen.width_20)
        × IsI32 (max_text_width screen (pos 700) +ℤ screen.width_20 +ℤ border_x screen))
    × (IsI32 (dlg_new_width screen (pos 700)) × IsI32 (dlg_width_diff screen (pos 700)))
    × (IsI32 (area_width screen -ℤ dlg_new_width screen (pos 700)) × IsI32 (dlg_x screen (pos 700)))
    × (IsI32 (height screen.rc_work -ℤ height screen.rc_wind) × IsI32 (dlg_y screen))
    × (IsI32 (dlg_new_width screen (pos 700) -ℤ pos 120)
        × IsI32 (control_x screen (pos 700) (pos 120))
        × IsI32 (height control))
    × IsI32 (control.left +ℤ dlg_width_diff screen (pos 700))
    × (pos 0 ≤ℤ dlg_x screen (pos 700))
    × (dlg_x screen (pos 700) +ℤ dlg_new_width screen (pos 700) ≤ℤ area_width screen)
layout-IsI32_example =
    layout-IsI32 screen (pos 700) plausible (pos 120) control (pixels 120 (omega arith))
      (
        pixels 10 (omega arith),
        pixels 20 (omega arith),
        pixels 290 (omega arith),
        pixels 40 (omega arith),
      )
      not_negative

-- A key's name with a zero in it: a, zero, b.
abbrev named : Prompt ssl
named = record { key_pair = record key_pair { name = text_of (97 ∷ 0 ∷ 98 ∷ []) }; info = info }

dialog_texts-chars_until_zero_example :
    from_utf16 (dialog_texts named).1 ≡ some (text_of (chars_until_zero (97 ∷ 0 ∷ 98 ∷ [])))
dialog_texts-chars_until_zero_example =
    dialog_texts-chars_until_zero named (97 ∷ 0 ∷ 98 ∷ [])
      (inl (omega arith), (inl (omega arith), (inl (omega arith), tt))) refl

-- A client whose long description is a, zero, b.
abbrev client : RequesterInfo
client = record { description_short = ascii "ssh"; description_long = text_of (97 ∷ 0 ∷ 98 ∷ []) }

abbrev described : Prompt ssl
described = record named { info = record info { requester = some client } }

-- Fonts 104 to 108, device contexts 204 to 208, and two messages.
abbrev handles : Handles
handles = record { font_of = λ c. 100 + c; dc_of = λ c. 200 + c }

abbrev messages : List (ℕ × ℕ)
messages = (300, 4) ∷ (301, 9) ∷ []

opened_lem_example :
    let shown = opened handles messages in
    let closed = delete_fonts text_controls shown in
    ((color_static 302 5 shown).calls ≡ select_object 302 105 ∷ shown.calls)
    × (fonts_deleted closed.calls ≡ fonts_created closed.calls)
    × (length (dcs_got closed.calls) ≡ 5)
    × (dcs_released closed.calls ≡ [])
opened_lem_example = opened_lem handles messages 302 5 (omega arith) (omega arith)
