-- ===== src/Config/Failure.antt =====
-- src/config.rs: what a save leaves in the file when it fails, and a start without a file.
use ssh_keys.Base.{
  ℕ, ◌≡◌, refl, Bytes, take, Option, some, none, List, [], ◌∷◌, inl, inr, Option-cases,
}
use ssh_keys.Outcome.{IoKind, Outcome, ok, err, panic, Error, io, library}
use ssh_keys.Packages.{Openssl}
use ssh_keys.KeyStore.{Entry, serialize_key_pairs}
use ssh_keys.Disk.{
  Disk, Fault, works, fails, next_fault, later_faults, create, write_all, open_file, read_to_end,
}
use ssh_keys.Config.{Toml, Config, save, load_config}
use ssh_keys.Config.RoundTrip.{TomlLaws}

-- What the file holds after a save, from the faults `fs` of the calls and what was there before: the text
-- of the keys if both calls work; what was there if the file cannot be created; and otherwise, with what
-- was there lost, nothing, where the keys have no text, or the front of their text.
pub data SaveLeaves (toml : Toml) {ssl : Openssl} (c : Config ssl) (before : Option Bytes)
    (fs : List Fault) : Outcome (Unit {0}) → Option Bytes → Type 0 where
  saved :
      (es : List Entry) (text : Bytes)
      → next_fault fs ≡ works
      → serialize_key_pairs c.keys ≡ ok es
      → toml.to_string_pretty es ≡ some text
      → next_fault (later_faults fs) ≡ works
      → SaveLeaves toml c before fs (ok tt) (some text)
  not_created :
      (n : ℕ) (k : IoKind)
      → next_fault fs ≡ fails n k
      → SaveLeaves toml c before fs (err (io k)) before
  no_entries :
      (e : Error)
      → next_fault fs ≡ works
      → serialize_key_pairs c.keys ≡ err e
      → SaveLeaves toml c before fs (err e) (some [])
  panics :
      next_fault fs ≡ works
      → serialize_key_pairs c.keys ≡ panic
      → SaveLeaves toml c before fs panic (some [])
  no_text :
      (es : List Entry)
      → next_fault fs ≡ works
      → serialize_key_pairs c.keys ≡ ok es
      → toml.to_string_pretty es ≡ none
      → SaveLeaves toml c before fs (err library) (some [])
  cut_off :
      (es : List Entry) (text : Bytes) (n : ℕ) (k : IoKind)
      → next_fault fs ≡ works
      → serialize_key_pairs c.keys ≡ ok es
      → toml.to_string_pretty es ≡ some text
      → next_fault (later_faults fs) ≡ fails n k
      → SaveLeaves toml c before fs (err (io k)) (some (take n text))

module _ (toml : Toml) {ssl : Openssl} (c : Config ssl) (before : Option Bytes) where
  abbrev at : List Fault → Disk
  at fs = record { contents = before; faults = fs }

  abbrev Leaves : List Fault → Type 0
  Leaves fs = SaveLeaves toml c before fs (save toml c (at fs)).0 (save toml c (at fs)).1.contents

  written-Leaves :
      (es : List Entry) (text : Bytes) (fs : List Fault) (second : Fault)
      → next_fault fs ≡ works
      → next_fault (later_faults fs) ≡ second
      → serialize_key_pairs c.keys ≡ ok es
      → toml.to_string_pretty es ≡ some text
      → Leaves fs
  unfolding save create write_all
  written-Leaves es text fs works f g e w = rw (f, e, w, g) (saved es text f e w g)
  written-Leaves es text fs (fails n k) f g e w = rw (f, e, w, g) (cut_off es text n k f e w g)

  created-Leaves :
      (r : Outcome (List Entry)) (fs : List Fault)
      → next_fault fs ≡ works
      → serialize_key_pairs c.keys ≡ r
      → Leaves fs
  unfolding save create
  created-Leaves (ok es) fs f e = elim (Option-cases (toml.to_string_pretty es)) [
    | inl w ↦ rw (f, e, w) (no_text es f e w)
    | inr (text, w) ↦ written-Leaves es text fs (next_fault (later_faults fs)) f refl e w
  ]
  created-Leaves (err x) fs f e = rw (f, e) (no_entries x f e)
  created-Leaves panic fs f e = rw (f, e) (panics f e)

  first-Leaves : (fs : List Fault) (first : Fault) → next_fault fs ≡ first → Leaves fs
  unfolding save create
  first-Leaves fs works f = created-Leaves (serialize_key_pairs c.keys) fs f refl
  first-Leaves fs (fails n k) f = rw f (not_created n k f)

  -- Whatever system calls fail, a save ends in one of six ways. If the file cannot be created, it stays as
  -- it was, and the save fails with that error. Otherwise, if the keys of the configuration cannot be
  -- turned to entries, with an error or a panic, or the entries not to text, the save ends so, and the
  -- file is empty; if the write fails, the save fails with that error, and the file has the front of the
  -- keys' text that was written; and if nothing fails, the save succeeds, and the file has the whole text.
  pub save-SaveLeaves : (fs : List Fault) → Leaves fs
  save-SaveLeaves fs = first-Leaves fs (next_fault fs) refl

-- After a save that created the file and whose write failed at once, for keys that can be
-- serialized, loading the file fails.
pub load_config_after_failed_write :
    {toml : Toml} (laws : TomlLaws toml) {ssl : Openssl} (c : Config ssl) (before : Option Bytes)
    (k : IoKind)
    → (es : List Entry) → serialize_key_pairs c.keys ≡ ok es
    → ((save toml c (record { contents = before; faults = works ∷ fails 0 k ∷ [] })).0 ≡ err (io k))
      × ((load_config toml ssl
            (save toml c (record { contents = before; faults = works ∷ fails 0 k ∷ [] })).1).0
          ≡ err library)
unfolding save create write_all load_config open_file read_to_end
load_config_after_failed_write laws c before k es e =
    let (text, w) = laws.writes es in (rw (e, w), rw (e, w, laws.refuses_empty))
