-- ===== src/Config/Model.antt =====
-- A concrete stand-in for the toml package, for examples: each entry is its name and its text behind
-- their lengths, and a document is refused if it is empty or names one entry twice.
use ssh_keys.Base.{
  ℕ, zero, suc, ◌<◌, ◌≤◌, ◌≡◌, ◌≢◌, refl, sym, ap, ◌∙◌, Bool, true, ◌&&◌, not, Option, some, none,
  List, [], ◌∷◌, ◌++◌, map, Bytes, All, length, length-append, take, drop, take-append, drop-append,
  bytes_eq, bytes_eq→eq, bytes_eq_refl, if◌then◌else◌, Bool-cases, inl, inr, arith,
}
use mathlib.Core.Option.{some-injective}
use ssh_keys.KeyStore.{Entry, KeyType}
use ssh_keys.KeyStore.RoundTrip.{entry_name}
use ssh_keys.Config.{Toml}
use ssh_keys.Config.RoundTrip.{DistinctNames, TomlLaws}

abbrev field : Bytes → Bytes → Bytes
field s rest = length s ∷ s ++ rest

unfoldable pub write_entries : List Entry → Bytes
write_entries [] = []
write_entries (e ∷ es) = field e.name (field e.config.pem (write_entries es))

abbrev entry : Bytes → Bytes → Entry
entry name pem = record { name = name; config = record { key_type = KeyType.rsa; pem = pem } }

abbrev second_field : (Bytes → Option (List Entry)) → Bytes → Bytes → Option (List Entry)
second_field more name [] = none
second_field more name (n ∷ bs) = elim (more (drop n bs)) [
  | none ↦ none
  | some es ↦ some (entry name (take n bs) ∷ es)
]

unfoldable pub read_entries : ℕ → Bytes → Option (List Entry)
read_entries zero bs = none
read_entries (suc fuel) [] = some []
read_entries (suc fuel) (n ∷ bs) = second_field (read_entries fuel) (take n bs) (drop n bs)

unfoldable pub all_differ : Bytes → List Bytes → Bool
all_differ n [] = true
all_differ n (m ∷ ms) = not (bytes_eq n m) && all_differ n ms

unfoldable pub are_distinct : List Bytes → Bool
are_distinct [] = true
are_distinct (n ∷ ns) = all_differ n ns && are_distinct ns

all_differ-All : (n : Bytes) (ms : List Bytes) → all_differ n ms ≡ true → All (λ m. n ≢ m) ms
unfolding all_differ
all_differ-All n [] h = tt
all_differ-All n (m ∷ ms) h = elim (Bool-cases (bytes_eq n m)) [
  | inl e ↦ cc (rw e at h)
  | inr e ↦ (λ p. cc (bytes_eq_refl n, rw (← p) at e), all_differ-All n ms (rw e at h))
]

All-all_differ : (n : Bytes) (ms : List Bytes) → All (λ m. n ≢ m) ms → all_differ n ms ≡ true
unfolding all_differ
All-all_differ n [] h = refl
All-all_differ n (m ∷ ms) (hm, h) = elim (Bool-cases (bytes_eq n m)) [
  | inl e ↦ absurd (hm (bytes_eq→eq n m e))
  | inr e ↦ rw (e, All-all_differ n ms h)
]

are_distinct-DistinctNames : (ns : List Bytes) → are_distinct ns ≡ true → DistinctNames ns
unfolding are_distinct
are_distinct-DistinctNames [] h = tt
are_distinct-DistinctNames (n ∷ ns) h = elim (Bool-cases (all_differ n ns)) [
  | inl e ↦ (all_differ-All n ns e, are_distinct-DistinctNames ns (rw e at h))
  | inr e ↦ cc (rw e at h)
]

DistinctNames-are_distinct : (ns : List Bytes) → DistinctNames ns → are_distinct ns ≡ true
unfolding are_distinct
DistinctNames-are_distinct [] h = refl
DistinctNames-are_distinct (n ∷ ns) (hn, h) =
    rw (All-all_differ n ns hn, DistinctNames-are_distinct ns h)

abbrev entry_of : Bytes → Bytes → KeyType → Entry
entry_of name pem t = record { name = name; config = record { key_type = t; pem = pem } }

only_rsa : (t : KeyType) → KeyType.rsa ≡ t
only_rsa KeyType.rsa = refl

length-write_entries : (es : List Entry) → length es ≤ length (write_entries es)
unfolding write_entries
length-write_entries [] = omega arith
length-write_entries (e ∷ es) = omega (
  arith,
  length-append e.name (length e.config.pem ∷ e.config.pem ++ write_entries es),
  length-append e.config.pem (write_entries es),
  length-write_entries es,
)

read_entries-write_entries :
    (fuel : ℕ) (es : List Entry) → length es < fuel → read_entries fuel (write_entries es) ≡ some es
unfolding read_entries write_entries
read_entries-write_entries zero es h = absurd (omega arith)
read_entries-write_entries (suc fuel) [] h = refl
read_entries-write_entries (suc fuel) (e ∷ es) h =
    let pem = e.config.pem in
    let more = write_entries es in
    rw
      (
        take-append e.name (length pem ∷ pem ++ more),
        drop-append e.name (length pem ∷ pem ++ more),
        drop-append pem more,
        read_entries-write_entries fuel es (omega arith),
        take-append pem more,
      )
      (λ i. some (entry_of e.name pem (only_rsa e.config.key_type i) ∷ es))

unfoldable pub checked : Option (List Entry) → Option (List Entry)
checked none = none
checked (some es) = if are_distinct (map entry_name es) then some es else none

unfoldable pub read_document : Bytes → Option (List Entry)
read_document [] = none
read_document (b ∷ bs) = checked (read_entries (suc (length bs)) bs)

abbrev pub toml : Toml
toml = record {
  to_string_pretty = λ es. some (b'[' ∷ write_entries es);
  from_slice = read_document;
}

read_document_lem : (es : List Entry) → read_document (b'[' ∷ write_entries es) ≡ checked (some es)
unfolding read_document
read_document_lem es = ap checked (
    read_entries-write_entries (suc (length (write_entries es))) es
      (omega (arith, length-write_entries es)))

checked_duplicates :
    (es : List Entry) → ¬ DistinctNames (map entry_name es) → checked (some es) ≡ none
unfolding checked
checked_duplicates es d = elim (Bool-cases (are_distinct (map entry_name es))) [
  | inl e ↦ absurd (d (are_distinct-DistinctNames (map entry_name es) e))
  | inr e ↦ rw e
]

pub toml-laws : TomlLaws toml
unfolding checked read_document
toml-laws = record {
  writes = λ es. (b'[' ∷ write_entries es, refl);
  reads = λ es text d h.
      ap read_document (sym (some-injective _ _ h))
      ∙ read_document_lem es
      ∙ rw (DistinctNames-are_distinct (map entry_name es) d);
  refuses_duplicates = λ es text d h.
      ap read_document (sym (some-injective _ _ h))
      ∙ read_document_lem es
      ∙ checked_duplicates es d;
  refuses_empty = refl;
}
