-- ===== src/Pipe/Transfer.antt =====
-- src/platform/win/pipe.rs: `read_exact` on a pipe whose calls transfer pieces.
use ssh_keys.Base.{
  ℕ, zero, suc, ◌-◌, ◌≤◌, ◌<◌, ◌≡◌, refl, sym, ap, ◌∙◌, Bytes, some, List, [], ◌∷◌, ◌++◌, true,
  false, length, take, drop, All, ltb, leb, ltb→lt, arith, append_assoc, append-nil, length-append,
  take-append-drop, length-drop, Bool-cases, inl, inr,
}
use ssh_keys.Outcome.{IoKind, Outcome, ok, err, panic, io}
use ssh_keys.Reader
use ssh_keys.Reader.{Input}
use ssh_keys.Pipe.{Pipe, read, left_over, read_exact_loop, fronted}

abbrev pub concat : List Bytes → Bytes
concat [] = []
concat (piece ∷ pieces) = piece ++ concat pieces

-- The bytes that are to come, whatever the pieces.
abbrev pub flat : Pipe → Input
flat p = record { bytes = concat p.incoming; ending = p.ending }

abbrev pub flat_result : Outcome (Bytes × Pipe) → Outcome (Bytes × Input)
flat_result (ok (bs, p)) = ok (bs, flat p)
flat_result (err e) = err e
flat_result panic = panic

abbrev pub IsPiece : Bytes → Type 0
IsPiece piece = 0 < length piece

take-append-ge :
    (n : ℕ) (xs ys : Bytes) → length xs ≤ n → take n (xs ++ ys) ≡ xs ++ take (n - length xs) ys
take-append-ge n [] ys h = ap (λ k. take k ys) (omega arith)
take-append-ge zero (x ∷ xs) ys h = absurd (omega arith)
take-append-ge (suc n) (x ∷ xs) ys h =
    let shift : suc n - suc (length xs) ≡ n - length xs = omega arith in
    rw shift (ap (λ t. x ∷ t) (take-append-ge n xs ys (omega arith)))

drop-append-ge :
    (n : ℕ) (xs ys : Bytes) → length xs ≤ n → drop n (xs ++ ys) ≡ drop (n - length xs) ys
drop-append-ge n [] ys h = ap (λ k. drop k ys) (omega arith)
drop-append-ge zero (x ∷ xs) ys h = absurd (omega arith)
drop-append-ge (suc n) (x ∷ xs) ys h =
    let shift : suc n - suc (length xs) ≡ n - length xs = omega arith in
    rw shift (drop-append-ge n xs ys (omega arith))

pub drop-le : (n : ℕ) (xs : Bytes) → length xs ≤ n → drop n xs ≡ []
drop-le zero [] h = refl
drop-le (suc n) [] h = refl
drop-le zero (x ∷ xs) h = absurd (omega arith)
drop-le (suc n) (x ∷ xs) h = drop-le n xs (omega arith)

pub drop-length-take : (n : ℕ) (xs : Bytes) → drop (length (take n xs)) xs ≡ drop n xs
drop-length-take zero xs = refl
drop-length-take (suc n) [] = refl
drop-length-take (suc n) (x ∷ xs) = drop-length-take n xs

-- `read_exact` of bytes of which the first are at hand.
read_exact-fronted :
    (n : ℕ) (front back : Bytes) (e : IoKind)
    → length front ≤ n
    → Reader.read_exact n (record { bytes = front ++ back; ending = e })
      ≡ fronted front (Reader.read_exact (n - length front) (record { bytes = back; ending = e }))
unfolding Reader.read_exact
read_exact-fronted n front back e h = elim (Bool-cases (leb n (length (front ++ back)))) [
  | inl enough ↦
      let later : leb (n - length front) (length back) ≡ true =
        ground (arith, length-append front back) in
      rw (enough, later, take-append-ge n front back h, drop-append-ge n front back h) refl
  | inr short ↦
      let later : leb (n - length front) (length back) ≡ false =
        ground (arith, length-append front back) in
      rw (short, later) refl
]

-- What a piece leaves stands behind what was read of it.
concat-left_over :
    (n : ℕ) (piece : Bytes) (pieces : List Bytes)
    → take n piece ++ concat (left_over n piece pieces) ≡ piece ++ concat pieces
concat-left_over n piece pieces = elim (Bool-cases (ltb n (length piece))) [
  | inl more ↦ rw more (
      sym (append_assoc (take n piece) (drop n piece) (concat pieces))
      ∙ ap (λ t. t ++ concat pieces) (take-append-drop n piece))
  | inr all ↦
      let done : drop n piece ≡ [] = drop-le n piece (ground arith) in
      let whole : take n piece ≡ piece =
        sym (append-nil (take n piece))
        ∙ ap (λ t. take n piece ++ t) (sym done)
        ∙ take-append-drop n piece in
      rw (all, whole) refl
]

All-left_over :
    (n : ℕ) (piece : Bytes) (pieces : List Bytes)
    → All IsPiece pieces
    → All IsPiece (left_over n piece pieces)
All-left_over n piece pieces w = elim (Bool-cases (ltb n (length piece))) [
  | inl more ↦ rw more (omega (arith, length-drop n piece, ltb→lt n (length piece) more), w)
  | inr all ↦ rw all w
]

length-take-le : (n : ℕ) (xs : Bytes) → length (take n xs) ≤ n
length-take-le zero xs = omega arith
length-take-le (suc n) [] = omega arith
length-take-le (suc n) (x ∷ xs) = omega (arith, length-take-le n xs)

flat_result-fronted :
    (front : Bytes) (r : Outcome (Bytes × Pipe))
    → flat_result (fronted front r) ≡ fronted front (flat_result r)
flat_result-fronted front (ok (bs, p)) = refl
flat_result-fronted front (err e) = refl
flat_result-fronted front panic = refl

-- What a read that succeeds leaves of the pipe as it was.
abbrev pub Keeps : Pipe → Outcome (Bytes × Pipe) → Type 0
Keeps p (ok (bs, q)) = All IsPiece q.incoming × (q.calls ≡ p.calls) × (q.outgoing ≡ p.outgoing)
Keeps p (err e) = Unit
Keeps p panic = Unit

Keeps-fronted :
    (front : Bytes) (p : Pipe) (r : Outcome (Bytes × Pipe)) → Keeps p r → Keeps p (fronted front r)
Keeps-fronted front p (ok (bs, q)) k = k
Keeps-fronted front p (err e) k = k
Keeps-fronted front p panic k = k

-- The result of the loop on a pipe with these pieces, and what `read_exact` reads from their bytes.
abbrev Reads : ℕ → ℕ → List Bytes → Pipe → Type 0
Reads fuel n pieces p =
    (r : Outcome (Bytes × Pipe)) × (read_exact_loop fuel n (record p { incoming = pieces })
      ≡ some r)
    × (flat_result r ≡ Reader.read_exact n (record { bytes = concat pieces; ending = p.ending }))
    × Keeps p r

read_exact_loop-Reads :
    (fuel n : ℕ) (pieces : List Bytes) (p : Pipe)
    → All IsPiece pieces
    → n ≤ fuel
    → Reads fuel n pieces p
unfolding read_exact_loop read Reader.read_exact
read_exact_loop-Reads fuel zero pieces p w h =
    (ok ([], record p { incoming = pieces }), refl, ground arith, (w, refl, refl))
read_exact_loop-Reads zero (suc n) pieces p w h = absurd (omega arith)
read_exact_loop-Reads (suc fuel) (suc n) [] p w h = (err (io p.ending), refl, ground arith, tt)
read_exact_loop-Reads (suc fuel) (suc n) ([] ∷ pieces) p w h = absurd (omega arith)
read_exact_loop-Reads (suc fuel) (suc n) ((b ∷ piece) ∷ pieces) p (pos, w) h =
    let c = b ∷ piece in
    let front = take (suc n) c in
    let rest = left_over (suc n) c pieces in
    let (r, e, flat_e, kept) =
      read_exact_loop-Reads fuel (suc n - length front) rest p (All-left_over (suc n) c pieces w)
        (omega arith) in
    (
      fronted front r,
      rw e refl,
      flat_result-fronted front r
          ∙ ap (fronted front) flat_e
          ∙ sym (read_exact-fronted (suc n) front (concat rest) p.ending (length-take-le (suc n) c))
          ∙ ap (λ t. Reader.read_exact (suc n) (record { bytes = t; ending = p.ending }))
              (concat-left_over (suc n) c pieces),
      Keeps-fronted front p r kept,
    )

-- With what it keeps of the pipe.
pub read_exact_loop-Keeps :
    (n : ℕ) (p : Pipe)
    → All IsPiece p.incoming
    → (r : Outcome (Bytes × Pipe)) × (read_exact_loop n n p ≡ some r)
      × (flat_result r ≡ Reader.read_exact n (flat p))
      × Keeps p r
read_exact_loop-Keeps n p w = read_exact_loop-Reads n n p.incoming p w (omega arith)

-- On a pipe of which no piece is empty, `read_exact` ends with as many calls as it wants bytes, and
-- has the result of `read_exact` from the same bytes in one row: the bytes that are read, those that
-- are left, and the error if there are too few do not depend on the pieces.
pub read_exact_loop-flat :
    (n : ℕ) (p : Pipe)
    → All IsPiece p.incoming
    → (r : Outcome (Bytes × Pipe)) × (read_exact_loop n n p ≡ some r)
      × (flat_result r ≡ Reader.read_exact n (flat p))
read_exact_loop-flat n p w = let (r, e, same, _) = read_exact_loop-Keeps n p w in (r, e, same)
