-- ===== src/Pipe.antt =====
-- src/platform/win/pipe.rs: the named pipe, its `Read` and `Write`, and the listener on it.
pub mod Transfer
pub mod Sending
pub mod Connected
pub mod Listener
use ssh_keys.Base.{
  ℕ, zero, suc, ◌+◌, ◌-◌, Bytes, Option, some, none, List, [], ◌∷◌, ◌++◌, length, take, drop, min,
  ltb, ◌==◌, if◌then◌else◌,
}
use ssh_keys.Outcome.{IoKind, unexpected_eof, Outcome, ok, err, panic, ◌>>=◌, io}

-- A call of WriteFile takes so many bytes at most, or fails.
pub data WriteCall : Type 0 where
  takes : ℕ → WriteCall
  fails : IoKind → WriteCall

-- The kind `WriteZero`.
abbrev pub write_zero : IoKind
write_zero = IoKind.other_io 0

-- A connected instance of the pipe. `incoming` are the pieces in which what the client sends
-- arrives, and `ending` is the error of a read past them. `outgoing` is what was written, and
-- `calls` are the calls of WriteFile to come; past their end each takes all.
pub record Pipe : Type 0 where
  pub incoming : List Bytes
  pub ending : IoKind
  pub outgoing : Bytes
  pub calls : List WriteCall

-- What a piece of which `n` bytes have been read leaves.
abbrev pub left_over : ℕ → Bytes → List Bytes → List Bytes
left_over n piece pieces = if ltb n (length piece) then drop n piece ∷ pieces else pieces

abbrev pub read_pieces : ℕ → List Bytes → Pipe → Outcome (Bytes × Pipe)
read_pieces n [] p = err (io p.ending)
read_pieces n (piece ∷ pieces) p =
    ok (take n piece, record p { incoming = left_over n piece pieces })

-- <Pipe as Read>::read, into a buffer of `n` bytes
unfoldable pub read : ℕ → Pipe → Outcome (Bytes × Pipe)
read n p = read_pieces n p.incoming p

abbrev pub write_by : List WriteCall → Bytes → Pipe → Outcome (ℕ × Pipe)
write_by [] buf p = ok (length buf, record p { outgoing = p.outgoing ++ buf })
write_by (takes n ∷ cs) buf p =
    ok (length (take n buf), record p { outgoing = p.outgoing ++ take n buf; calls = cs })
write_by (fails k ∷ cs) buf p = err (io k)

-- <Pipe as Write>::write
unfoldable pub write : Bytes → Pipe → Outcome (ℕ × Pipe)
write buf p = write_by p.calls buf p

abbrev pub fronted {ℓ} : {A : Type ℓ} → Bytes → Outcome (Bytes × A) → Outcome (Bytes × A)
fronted front (ok (bs, p)) = ok (front ++ bs, p)
fronted front (err e) = err e
fronted front panic = panic

abbrev pub in_front : Bytes → Option (Outcome (Bytes × Pipe)) → Option (Outcome (Bytes × Pipe))
in_front front none = none
in_front front (some r) = some (fronted front r)

-- `Read::read_exact` over `read`, on fuel, with the bytes that are still wanted: `none` if the fuel
-- runs out.
unfoldable pub read_exact_loop : ℕ → ℕ → Pipe → Option (Outcome (Bytes × Pipe))
read_exact_loop fuel zero p = some (ok ([], p))
read_exact_loop zero (suc n) p = none
read_exact_loop (suc fuel) (suc n) p = elim (read (suc n) p) [
  | ok ([], q) ↦ some (err (io unexpected_eof))
  | ok (b ∷ bs, q) ↦ in_front (b ∷ bs) (read_exact_loop fuel (suc n - length (b ∷ bs)) q)
  | err e ↦ some (err e)
  | panic ↦ some panic
]

-- What is left of a buffer of which bytes have been written; none written is an error.
abbrev pub unwritten : Bytes → ℕ → Outcome Bytes
unwritten buf zero = err (io write_zero)
unwritten buf (suc n) = ok (drop (suc n) buf)

abbrev pub written : Bytes → Outcome (ℕ × Pipe) → Outcome (Bytes × Pipe)
written buf (ok (n, q)) = unwritten buf n >>= λ rest. ok (rest, q)
written buf (err e) = err e
written buf panic = panic

-- `Write::write_all` over `write`, on fuel.
unfoldable pub write_all_loop : ℕ → Bytes → Pipe → Option (Outcome Pipe)
write_all_loop fuel [] p = some (ok p)
write_all_loop zero (b ∷ bs) p = none
write_all_loop (suc fuel) (b ∷ bs) p = elim (written (b ∷ bs) (write (b ∷ bs) p)) [
  | ok (rest, q) ↦ write_all_loop fuel rest q
  | err e ↦ some (err e)
  | panic ↦ some panic
]
