-- ===== src/Serve/Instances.antt =====
-- src/platform/win/mod.rs (`serve`): processes of the program that are started and end, in any order.
use ssh_keys.Base.{ℕ, zero, suc, ◌≤◌, true, Bytes, List, [], ◌∷◌, arith}
use ssh_keys.Serve.{Call, Listening, serve_start, single_instance, error_already_exists}

-- A process that has a handle of the mutex: it listens, or it does not.
pub data Instance : Type 0 where
  listens silent : Instance

-- What happens next: a process is started, and the calls for its window have these results; or the
-- process at this place ends, and its handle is closed.
pub data Happening : Type 0 where
  starts : Call → Call → Happening
  ends : ℕ → Happening

-- CreateMutexA on the name: the mutex exists while a process has a handle of it.
abbrev pub create_mutex_by : List Instance → Call
create_mutex_by [] = record { succeeded = true; last_error = 0 }
create_mutex_by (i ∷ is) = record { succeeded = true; last_error = error_already_exists }

abbrev pub instance_of : List Listening → Instance
instance_of [] = silent
instance_of (l ∷ ls) = listens

abbrev pub without : ℕ → List Instance → List Instance
without n [] = []
without zero (i ∷ is) = is
without (suc n) (i ∷ is) = i ∷ without n is

module _ (format_message : ℕ → Bytes) where
  unfoldable pub happen : Happening → List Instance → List Instance
  happen (starts register_class create_window) is =
      instance_of
        (serve_start format_message (record {
          create_mutex = create_mutex_by is;
          register_class = register_class;
          create_window = create_window;
        })).0
      ∷ is
  happen (ends n) is = without n is

  unfoldable pub happen_all : List Happening → List Instance → List Instance
  happen_all [] is = is
  happen_all (h ∷ hs) is = happen_all hs (happen h is)

abbrev pub listening_count : List Instance → ℕ
listening_count [] = 0
listening_count (listens ∷ is) = suc (listening_count is)
listening_count (silent ∷ is) = listening_count is

without-le : (n : ℕ) (is : List Instance) → listening_count (without n is) ≤ listening_count is
without-le n [] = omega arith
without-le zero (listens ∷ is) = omega arith
without-le zero (silent ∷ is) = omega arith
without-le (suc n) (listens ∷ is) = let rest = without-le n is in omega arith
without-le (suc n) (silent ∷ is) = without-le n is

module _ (format_message : ℕ → Bytes) where
  happen-le :
      (h : Happening) (is : List Instance)
      → listening_count is ≤ 1
      → listening_count (happen format_message h is) ≤ 1
  unfolding happen serve_start single_instance
  happen-le (starts r w) [] h = omega arith
  happen-le (starts r w) (i ∷ is) h = h
  happen-le (ends n) is h = let fewer = without-le n is in omega arith

  happen_all-le :
      (hs : List Happening) (is : List Instance)
      → listening_count is ≤ 1
      → listening_count (happen_all format_message hs is) ≤ 1
  unfolding happen_all
  happen_all-le [] is h = h
  happen_all-le (h ∷ hs) is le = happen_all-le hs (happen format_message h is) (happen-le h is le)

  -- From no process on, however processes of the program are started and end, at most one of those
  -- that have a handle of the mutex listens.
  pub listening_count-happen_all :
      (hs : List Happening) → listening_count (happen_all format_message hs []) ≤ 1
  listening_count-happen_all hs = happen_all-le hs [] (omega arith)
