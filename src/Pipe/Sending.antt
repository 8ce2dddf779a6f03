-- ===== src/Pipe/Sending.antt =====
-- src/platform/win/pipe.rs: `write_all` on a pipe whose calls transfer pieces.
use ssh_keys.Base.{
  ℕ, zero, suc, ◌≤◌, ◌≡◌, refl, sym, ap, ◌∙◌, Bytes, some, List, [], ◌∷◌, ◌++◌, length, take, drop,
  All, arith, append_assoc, append-nil, take-append-drop, length-drop,
}
use ssh_keys.Outcome.{ok}
use ssh_keys.Pipe.{Pipe, WriteCall, takes, write, write_all_loop}
use ssh_keys.Pipe.Transfer.{drop-le, drop-length-take}

-- A call that takes something.
pub data Progress : WriteCall → Type 0 where
  some_bytes : (n : ℕ) → Progress (takes (suc n))

-- The outcome of writing: success, with what was written behind what had been.
abbrev pub Sends : ℕ → Bytes → Pipe → Type 0
Sends fuel buf p =
    (q : Pipe) × (write_all_loop fuel buf p ≡ some (ok q))
    × (q.outgoing ≡ p.outgoing ++ buf)
    × (q.incoming ≡ p.incoming)
    × (q.ending ≡ p.ending)
    × All Progress q.calls

writes_rest :
    (fuel : ℕ) (buf : Bytes) (p : Pipe) (cs : List WriteCall)
    → All Progress cs
    → length buf ≤ fuel
    → Sends fuel buf (record p { calls = cs })
unfolding write_all_loop write
writes_rest fuel [] p cs w h =
    (record p { calls = cs }, refl, sym (append-nil p.outgoing), refl, refl, w)
writes_rest zero (b ∷ bs) p cs w h = absurd (omega arith)
writes_rest (suc fuel) (b ∷ bs) p [] w h =
    let all : drop (length bs) bs ≡ [] = drop-le (length bs) bs (omega arith) in
    let q = record p { outgoing = p.outgoing ++ (b ∷ bs); calls = [] } in
    (q, ap (λ t. write_all_loop fuel t q) all, refl, refl, refl, tt)
writes_rest (suc fuel) (b ∷ bs) p (takes zero ∷ cs) (c, w) h = elim c [ ]
writes_rest (suc fuel) (b ∷ bs) p (takes (suc n) ∷ cs) (c, w) h =
    let m = length (take n bs) in
    let (q, e, sent, kept, ending, calls) =
      writes_rest fuel (drop m bs) (record p { outgoing = p.outgoing ++ (b ∷ take n bs) }) cs w
        (omega (arith, length-drop m bs)) in
    (
      q,
      e,
      sent
          ∙ append_assoc p.outgoing (b ∷ take n bs) (drop m bs)
          ∙ ap (λ t. p.outgoing ++ (b ∷ (take n bs ++ t))) (drop-length-take n bs)
          ∙ ap (λ t. p.outgoing ++ (b ∷ t)) (take-append-drop n bs),
      kept,
      ending,
      calls,
    )
writes_rest (suc fuel) (b ∷ bs) p (WriteCall.fails k ∷ cs) (c, w) h = elim c [ ]

-- With what it keeps of the pipe.
pub write_all_loop-Sends :
    (buf : Bytes) (p : Pipe) → All Progress p.calls → Sends (length buf) buf p
write_all_loop-Sends buf p w = writes_rest (length buf) buf p p.calls w (omega arith)
