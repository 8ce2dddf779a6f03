-- ===== src/Gui/Texts.antt =====
-- src/platform/win/confirmation.rs: the texts that SetDlgItemTextW is given for the controls.
use ssh_keys.Base.{ℕ, ◌≡◌, Bytes, All, some, List}
use ssh_keys.Packages.{Openssl}
use ssh_keys.Text.{from_utf16}
use ssh_keys.Text.Utf16.{to_utf16_null, until_zero, IsChar, text_of, chars_until_zero}
use ssh_keys.Text.Utf16.Reading.{to_utf16_null-until_zero}
use ssh_keys.Agent.{Prompt}
use ssh_keys.Gui.Layout.{described_by}

-- SetDlgItemTextW takes the units before the first zero.
abbrev item_text : Bytes → List ℕ
item_text text = until_zero (to_utf16_null text)

-- The texts of the controls 4, 6 and 8.
unfoldable pub dialog_texts : {ssl : Openssl} → Prompt ssl → List ℕ × List ℕ × List ℕ
dialog_texts p = (
  item_text (described_by p.info.requester).0,
  item_text p.key_pair.name,
  item_text p.info.channel,
)

-- If the name of the prompt's key is a text of characters, what the dialog shows of it is what stands
-- before its first character zero, or all of it if there is none.
pub dialog_texts-chars_until_zero :
    {ssl : Openssl} (p : Prompt ssl) (cs : List ℕ)
    → All IsChar cs
    → p.key_pair.name ≡ text_of cs
    → from_utf16 (dialog_texts p).1 ≡ some (text_of (chars_until_zero cs))
unfolding dialog_texts
dialog_texts-chars_until_zero p cs h name = rw name (to_utf16_null-until_zero cs h)
