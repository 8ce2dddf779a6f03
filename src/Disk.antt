-- ===== src/Disk.antt =====
-- The configuration file, as `std::fs` shows it, with the faults of the system calls to come.
use ssh_keys.Base.{ℕ, Option, some, none, List, [], ◌∷◌, ◌++◌, Bytes, take}
use ssh_keys.Outcome.{IoKind, not_found, Outcome, ok, err, io}
use ssh_keys.Exec.{Exec}

-- What happens at a system call: it works, or it fails with an error, a write after some bytes.
pub data Fault : Type 0 where
  works : Fault
  fails : ℕ → IoKind → Fault

-- `contents` is the file's, `none` if there is no file. Past the end of `faults` all calls work.
pub record Disk : Type 0 where
  pub contents : Option Bytes
  pub faults : List Fault

abbrev pub next_fault : List Fault → Fault
next_fault [] = works
next_fault (f ∷ fs) = f

abbrev pub later_faults : List Fault → List Fault
later_faults [] = []
later_faults (f ∷ fs) = fs

-- A call that is done: the file is as given, and the fault of this call is used up.
abbrev pub used : Disk → Option Bytes → Disk
used d contents = record { contents = contents; faults = later_faults d.faults }

abbrev create_at : Fault → Disk → Outcome (Unit {0}) × Disk
create_at works d = (ok tt, used d (some []))
create_at (fails n k) d = (err (io k), used d d.contents)

-- `File::create`: an empty file, in place of one that may be there.
unfoldable pub create : Exec Disk (Unit {0})
create d = create_at (next_fault d.faults) d

abbrev written : Option Bytes → Bytes → Option Bytes
written none bs = none
written (some front) bs = some (front ++ bs)

abbrev write_at : Fault → Bytes → Disk → Outcome (Unit {0}) × Disk
write_at works bs d = (ok tt, used d (written d.contents bs))
write_at (fails n k) bs d = (err (io k), used d (written d.contents (take n bs)))

-- `write_all` at the end of the file that has been created.
unfoldable pub write_all : Bytes → Exec Disk (Unit {0})
write_all bs d = write_at (next_fault d.faults) bs d

abbrev read_at : Fault → Option Bytes → Disk → Outcome Bytes × Disk
read_at works none d = (err (io not_found), used d d.contents)
read_at works (some bs) d = (ok bs, used d d.contents)
read_at (fails n k) contents d = (err (io k), used d d.contents)

-- `File::open`, and then `read_to_end`; each is a call of its own.
unfoldable pub open_file : Exec Disk Bytes
open_file d = read_at (next_fault d.faults) d.contents d

abbrev read_on : Fault → Bytes → Disk → Outcome Bytes × Disk
read_on works bs d = (ok bs, used d d.contents)
read_on (fails n k) bs d = (err (io k), used d d.contents)

unfoldable pub read_to_end : Bytes → Exec Disk Bytes
read_to_end bs d = read_on (next_fault d.faults) bs d
