-- ===== src/CopyId/Update.antt =====
-- src/copy_id.rs: what happens to the file `authorized_keys`.
use ssh_keys.Base.{
  ℕ, ◌+◌, ◌≡◌, refl, sym, ap, ◌∙◌, Bool, true, false, Bytes, [], ◌∷◌, ◌++◌, take, drop, length,
  append-nil, append_assoc, arith, Bool-cases, inl, inr, length-append,
}
use ssh_keys.Outcome.{ok}
use ssh_keys.Packages.{ByteOrder, Openssl}
use ssh_keys.Text.{contains, contains-append, is_utf8, ascii}
use ssh_keys.Key.{KeyPair, encode, key_type}
use ssh_keys.CopyId.{Remote, update, lacks_newline, key_line}

-- Bytes written over a text at an offset.
abbrev pub overwrite : ℕ → Bytes → Bytes → Bytes
overwrite offset bs content = take offset content ++ bs ++ drop (length bs) (drop offset content)

-- A file that a host has open, on which no call fails: its content and the offset of the next call.
pub record WorkingFile (remote : Remote) (file : remote.File) : Type 0 where
  pub content : remote.Host → Bytes
  pub offset : remote.Host → ℕ
  pub reads :
      (h : remote.Host)
      → offset h ≡ 0
      → is_utf8 (content h) ≡ true
      → (t : remote.Host) × (remote.read_to_string file h ≡ (ok (content h), t))
        × (content t ≡ content h)
  pub seeks :
      (h : remote.Host)
      → (t : remote.Host) × (remote.seek_end file h ≡ (ok tt, t))
        × (content t ≡ content h)
        × (offset t ≡ length (content h))
  pub writes :
      (bs : Bytes) (h : remote.Host)
      → (t : remote.Host) × (remote.write_all file bs h ≡ (ok tt, t))
        × (content t ≡ overwrite (offset h) bs (content h))
        × (offset t ≡ offset h + length bs)

-- A text whose last line is ended.
abbrev pub ended : Bytes → Bytes
ended str = str ++ elim (lacks_newline str) [ true ↦ 10 ∷ [] | false ↦ [] ]

drop-nil : (bs : Bytes) → drop {A = ℕ} (length bs) [] ≡ []
drop-nil [] = refl
drop-nil (b ∷ bs) = refl

drop_all : (bs : Bytes) → drop (length bs) bs ≡ []
drop_all [] = refl
drop_all (b ∷ bs) = drop_all bs

take_all : (bs : Bytes) → take (length bs) bs ≡ bs
take_all [] = refl
take_all (b ∷ bs) = ap (λ t. b ∷ t) (take_all bs)

-- Writing at the end appends.
overwrite-end : (bs content : Bytes) → overwrite (length content) bs content ≡ content ++ bs
overwrite-end bs content =
    rw (take_all content, drop_all content, drop-nil bs) (append-nil (content ++ bs))

module _ {remote : Remote} {file : remote.File} (works : WorkingFile remote file) where
  -- At the end of the file, `write_all` appends.
  write_all-end :
      (bs : Bytes) (h : remote.Host)
      → works.offset h ≡ length (works.content h)
      → (t : remote.Host) × (remote.write_all file bs h ≡ (ok tt, t))
        × (works.content t ≡ works.content h ++ bs)
        × (works.offset t ≡ length (works.content t))
  write_all-end bs h e =
      let (t, r, c, o) = works.writes bs h in
      let appended : works.content t ≡ works.content h ++ bs =
        c ∙ ap (λ n. overwrite n bs (works.content h)) e ∙ overwrite-end bs (works.content h) in
      (t, r, appended, omega (arith, length-append (works.content h) bs, ap length appended, o, e))

regroup :
    (str a b c d e f : Bytes)
    → str ++ (a ++ b ++ c ++ d ++ e ++ f) ≡ (str ++ (a ++ b)) ++ (c ++ (d ++ (e ++ f)))
regroup str a b c d e f = simp append_assoc

contains_middle :
    (str a b c d e f : Bytes) → contains (str ++ (a ++ b ++ c ++ d ++ e ++ f)) c ≡ true
contains_middle str a b c d e f =
    rw (regroup str a b c d e f) (contains-append (str ++ (a ++ b)) c (d ++ (e ++ f)))

module _ (bo : ByteOrder) {ssl : Openssl} (remote : Remote) (file : remote.File)
    (works : WorkingFile remote file) (key : KeyPair ssl) (blob : Bytes)
    (is_blob : encode bo key.public_key ≡ ok blob) where
  abbrev b64 : Bytes
  b64 = remote.base64 blob

  -- The outcome on the host: success, with a content.
  abbrev Leaves : Bool → remote.Host → Bytes → Type 0
  Leaves erase h content =
      (t : remote.Host) × (update remote bo erase key file h ≡ (ok tt, t))
      × (works.content t ≡ content)

  -- For a key that can be encoded, and a file of UTF-8 text that does not contain it, is open at its
  -- start, and on which no call fails, an update without `erase` succeeds, and puts the key at the
  -- end as a line of its own, behind all that was there, and a newline first where the last line had
  -- none.
  pub update-appends :
      (h : remote.Host)
      → works.offset h ≡ 0
      → is_utf8 (works.content h) ≡ true
      → contains (works.content h) b64 ≡ false
      → Leaves false h (ended (works.content h) ++ key_line remote key b64)
  unfolding update
  update-appends h o u c =
      let (t1, r1, c1) = works.reads h o u in
      let (t2, r2, c2, o2) = works.seeks t1 in
      let same : works.content t2 ≡ works.content h = c2 ∙ c1 in
      let line = key_line remote key b64 in
      elim (Bool-cases (lacks_newline (works.content h))) [
        | inl lacks ↦
            let (t3, r3, c3, o3) = write_all-end works (10 ∷ []) t2 (o2 ∙ ap length (sym c2)) in
            let (t4, r4, c4, o4) = write_all-end works line t3 o3 in
            (t4, rw (r1, r2, is_blob, c, lacks, r3, r4) refl, rw (lacks, c4, c3, same) refl)
        | inr has ↦
            let (t3, r3, c3, o3) = write_all-end works line t2 (o2 ∙ ap length (sym c2)) in
            (
              t3,
              rw (r1, r2, is_blob, c, has, r3) refl,
              rw (has, c3, same, append-nil (works.content h)) refl,
            )
      ]

  -- A file that has the key somewhere, and is open at its start, stays as it is.
  pub update-known :
      (h : remote.Host)
      → works.offset h ≡ 0
      → is_utf8 (works.content h) ≡ true
      → contains (works.content h) b64 ≡ true
      → Leaves false h (works.content h)
  unfolding update
  update-known h o u c =
      let (t1, r1, c1) = works.reads h o u in
      let (t2, r2, c2, o2) = works.seeks t1 in (t2, rw (r1, r2, is_blob, c) refl, c2 ∙ c1)

  -- For a key that can be encoded, in base 64 that is not empty, and a file that is open at its start
  -- and on which no call fails, an update with `erase` succeeds, and writes the line of the key over
  -- the start of the file; what the file had past the length of the line is kept.
  pub update-erase :
      (h : remote.Host)
      → works.offset h ≡ 0
      → contains [] b64 ≡ false
      → (let line = key_line remote key b64 in
          Leaves true h (line ++ drop (length line) (works.content h)))
  unfolding update
  update-erase h o c =
      let line = key_line remote key b64 in
      let (t, r, ct, ot) = works.writes line h in (t, rw (is_blob, c, r) refl, rw (ct, o) refl)

  has_key : (str : Bytes) → contains (str ++ key_line remote key b64) b64 ≡ true
  has_key str =
      contains_middle str (key_type key.public_key) (ascii " ") b64 (ascii " ") key.name
        (ascii "\n")

  -- An update without `erase` of a file of UTF-8 text that the line of the key has been appended to,
  -- open at its start, where no call fails, succeeds and leaves the file as it is.
  pub update-again :
      (str : Bytes) (h : remote.Host)
      → works.offset h ≡ 0
      → works.content h ≡ ended str ++ key_line remote key b64
      → is_utf8 (works.content h) ≡ true
      → Leaves false h (works.content h)
  update-again str h o e u = update-known h o u (rw e (has_key (ended str)))
