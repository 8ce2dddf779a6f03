-- ===== src/Finally.antt =====
-- src/utils.rs: `Finally`, which calls a function when it is dropped.
use ssh_keys.Base.{Option, some, none}
use ssh_keys.Outcome.{Outcome, ok, panic}

-- The function acts on what it captures.
pub record Finally (S : Type 0) : Type 0 where
  pub function : Option (S → S)

abbrev pub new_finally : {S : Type 0} → (S → S) → Finally S
new_finally f = record { function = some f }

-- `self.0.take().unwrap()()`
abbrev call_taken : {S : Type 0} → Option (S → S) → S → Outcome S
call_taken (some f) s = ok (f s)
call_taken none s = panic

abbrev pub drop_finally : {S : Type 0} → Finally S → S → Outcome S
drop_finally finally s = call_taken finally.function s
