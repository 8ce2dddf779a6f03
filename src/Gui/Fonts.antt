-- ===== src/Gui/Fonts.antt =====
-- src/platform/win/confirmation.rs: the fonts and the device contexts of the dialog's text controls, in
-- WM_INITDIALOG, WM_CTLCOLORSTATIC and WM_DESTROY.
use ssh_keys.Base.{
  ℕ, ◌≡◌, refl, ap, ◌∙◌, List, [], ◌∷◌, length, ◌==◌, if◌then◌else◌, ◌≤◌, arith, ==_iff,
}
use ssh_keys.Gui.Layout.{font_weight}

-- The calls of the drawing API, with what they are given and return: CreateFontA with its weight,
-- GetDC and ReleaseDC of a control, SelectObject in a device context, and DeleteObject.
pub data GdiCall : Type 0 where
  create_font : ℕ → ℕ → GdiCall
  get_dc : ℕ → ℕ → GdiCall
  release_dc : ℕ → ℕ → GdiCall
  select_object : ℕ → ℕ → GdiCall
  delete_object : ℕ → GdiCall

-- The handles that CreateFontA and GetDC return for a control.
pub record Handles : Type 0 where
  pub font_of : ℕ → ℕ
  pub dc_of : ℕ → ℕ

-- The GWL_USERDATA of the controls, and the calls, the last one first.
pub record Drawing : Type 0 where
  pub user_data : List (ℕ × ℕ)
  pub calls : List GdiCall

-- The long of a window is zero until it is set.
abbrev pub user_of : ℕ → List (ℕ × ℕ) → ℕ
user_of control [] = 0
user_of control ((c, font) ∷ users) = if c == control then font else user_of control users

abbrev pub text_controls : List ℕ
text_controls = 4 ∷ 5 ∷ 6 ∷ 7 ∷ 8 ∷ []

-- What WM_INITDIALOG does for one control.
abbrev pub prepare_control : Handles → ℕ → Drawing → Drawing
prepare_control h control s = record {
  user_data = (control, h.font_of control) ∷ s.user_data;
  calls =
      select_object (h.dc_of control) (h.font_of control)
      ∷ get_dc control (h.dc_of control)
      ∷ create_font (font_weight control) (h.font_of control)
      ∷ s.calls;
}

unfoldable pub prepare_controls : Handles → List ℕ → Drawing → Drawing
prepare_controls h [] s = s
prepare_controls h (control ∷ controls) s =
    prepare_controls h controls (prepare_control h control s)

-- WM_CTLCOLORSTATIC
unfoldable pub color_static : ℕ → ℕ → Drawing → Drawing
color_static hdc control s = record s {
  calls = select_object hdc (user_of control s.user_data) ∷ s.calls;
}

-- The messages that come while the dialog is shown.
unfoldable pub color_all : List (ℕ × ℕ) → Drawing → Drawing
color_all [] s = s
color_all ((hdc, control) ∷ ms) s = color_all ms (color_static hdc control s)

-- WM_DESTROY
unfoldable pub delete_fonts : List ℕ → Drawing → Drawing
delete_fonts [] s = s
delete_fonts (control ∷ controls) s =
    delete_fonts controls
      (record s { calls = delete_object (user_of control s.user_data) ∷ s.calls })

-- The fonts that were created and deleted, and the device contexts that were got and released, the last
-- one first.
abbrev pub fonts_created : List GdiCall → List ℕ
fonts_created [] = []
fonts_created (create_font weight font ∷ calls) = font ∷ fonts_created calls
fonts_created (get_dc control hdc ∷ calls) = fonts_created calls
fonts_created (release_dc control hdc ∷ calls) = fonts_created calls
fonts_created (select_object hdc font ∷ calls) = fonts_created calls
fonts_created (delete_object font ∷ calls) = fonts_created calls

abbrev pub fonts_deleted : List GdiCall → List ℕ
fonts_deleted [] = []
fonts_deleted (create_font weight font ∷ calls) = fonts_deleted calls
fonts_deleted (get_dc control hdc ∷ calls) = fonts_deleted calls
fonts_deleted (release_dc control hdc ∷ calls) = fonts_deleted calls
fonts_deleted (select_object hdc font ∷ calls) = fonts_deleted calls
fonts_deleted (delete_object font ∷ calls) = font ∷ fonts_deleted calls

abbrev pub dcs_got : List GdiCall → List ℕ
dcs_got [] = []
dcs_got (create_font weight font ∷ calls) = dcs_got calls
dcs_got (get_dc control hdc ∷ calls) = hdc ∷ dcs_got calls
dcs_got (release_dc control hdc ∷ calls) = dcs_got calls
dcs_got (select_object hdc font ∷ calls) = dcs_got calls
dcs_got (delete_object font ∷ calls) = dcs_got calls

abbrev pub dcs_released : List GdiCall → List ℕ
dcs_released [] = []
dcs_released (create_font weight font ∷ calls) = dcs_released calls
dcs_released (get_dc control hdc ∷ calls) = dcs_released calls
dcs_released (release_dc control hdc ∷ calls) = hdc ∷ dcs_released calls
dcs_released (select_object hdc font ∷ calls) = dcs_released calls
dcs_released (delete_object font ∷ calls) = dcs_released calls

-- What the calls amount to.
abbrev sums_of : Drawing → List ℕ × List ℕ × List ℕ × List ℕ
sums_of s = (fonts_created s.calls, fonts_deleted s.calls, dcs_got s.calls, dcs_released s.calls)

color_all_lem :
    (ms : List (ℕ × ℕ)) (s : Drawing)
    → ((color_all ms s).user_data ≡ s.user_data) × (sums_of (color_all ms s) ≡ sums_of s)
unfolding color_all color_static
color_all_lem [] s = (refl, refl)
color_all_lem ((hdc, control) ∷ ms) s = color_all_lem ms (color_static hdc control s)

-- A dialog that opens, gets messages, and is destroyed.
unfoldable pub opened : Handles → List (ℕ × ℕ) → Drawing
opened h ms =
    color_all ms (prepare_controls h text_controls (record { user_data = []; calls = [] }))

own_font :
    (h : Handles) (control : ℕ)
    → 4 ≤ control
    → control ≤ 8
    → user_of control (
        (8, h.font_of 8)
        ∷ (7, h.font_of 7)
        ∷ (6, h.font_of 6)
        ∷ (5, h.font_of 5)
        ∷ (4, h.font_of 4)
        ∷ [])
      ≡ h.font_of control
own_font h control low high = grind (
  arith,
  ==_iff 8 control,
  ==_iff 7 control,
  ==_iff 6 control,
  ==_iff 5 control,
  ==_iff 4 control,
)

-- Whatever handles the calls return, and whatever messages WM_CTLCOLORSTATIC came: the next one for a
-- text control, 4 to 8, selects the control's own font; and when the dialog is destroyed, the fonts that
-- were deleted are those that were created, in the same order, while five device contexts were got, and
-- none was released.
pub opened_lem :
    (h : Handles) (ms : List (ℕ × ℕ)) (hdc control : ℕ)
    → 4 ≤ control
    → control ≤ 8
    → let open_ = opened h ms in
      let closed = delete_fonts text_controls open_ in
      ((color_static hdc control open_).calls ≡ select_object hdc (h.font_of control) ∷ open_.calls)
      × (fonts_deleted closed.calls ≡ fonts_created closed.calls)
      × (length (dcs_got closed.calls) ≡ 5)
      × (dcs_released closed.calls ≡ [])
unfolding opened color_static delete_fonts prepare_controls
opened_lem h ms hdc control low high =
    let (users, sums) =
      color_all_lem ms (prepare_controls h text_controls (record { user_data = []; calls = [] })) in
    let own : user_of control (opened h ms).user_data ≡ h.font_of control =
      ap (user_of control) users ∙ own_font h control low high in
    (
      ap (λ f. select_object hdc f ∷ (opened h ms).calls) own,
      rw (users, ap (λ x. x.0) sums, ap (λ x. x.1) sums) refl,
      rw (ap (λ x. x.2) sums) refl,
      ap (λ x. x.3) sums,
    )
