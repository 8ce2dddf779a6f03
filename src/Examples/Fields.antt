-- ===== src/Examples/Fields.antt =====
-- The message that adds a key, with the prime `p` left open.
use ssh_keys.Base.{ℕ, refl, ap, Option, none, some, ◌-◌, ◌≡◌, [], ◌∷◌, true, arith}
use ssh_keys.Text.{ascii, is_utf8}
use ssh_keys.Key.Import.{Field, AddRsa}
use ssh_keys.Examples.Values.{ssl}
use ssh_keys.Examples.Run.{run}

pub one_byte : (b : ℕ) → ssl.from_slice (b ∷ []) ≡ some b
unfolding run
one_byte b = ap {B = Option ℕ} some (omega arith)

pub me_is_utf8 : is_utf8 (ascii "me") ≡ true
unfolding run
me_is_utf8 = refl

abbrev pub field : ℕ → Field ssl
field b = record { content = b ∷ []; value = b; is_value = one_byte b; small = omega arith }

abbrev pub add_message : ℕ → AddRsa ssl
add_message p = record {
  n = field 15;
  e = field 3;
  d = field 11;
  iqmp = field 1;
  p = field p;
  q = field 3;
  comment = ascii "me";
  comment_text = me_is_utf8;
  comment_small = omega arith;
}

pub no_remainder : ssl.rem 11 (1 - 1) ≡ none
unfolding run
no_remainder = refl
