-- ===== src/Requester/Walk.antt =====
-- src/platform/win/utils.rs: the loop of `collect_requester_info` over the parents of a process.
use ssh_keys.Base.{
  ℕ, zero, suc, ◌<◌, ◌≡◌, ◌≢◌, refl, some, none, List, [], ◌∷◌, map, length, arith, ◌==◌, ==_iff,
  Bool-cases, inl, inr,
}
use ssh_keys.Requester.{Windows}
use ssh_keys.Requester.Describe.{get_parent_pid}
use ssh_keys.Requester.Stack.{process_stack, with_window, summary, collect_requester_info}

-- A process, its parent, and so on, up to a process without a parent.
pub data Ancestors (w : Windows) : ℕ → List ℕ → Type 0 where
  ended : Ancestors w 0 []
  parent :
      {pid : ℕ} {pids : List ℕ}
      → pid ≢ 0
      → Ancestors w (get_parent_pid w pid) pids
      → Ancestors w pid (pid ∷ pids)

-- A set of processes in which each has its parent, as where two processes are each other's parent.
pub record IsCyclic (w : Windows) (P : ℕ → Type 0) : Type 0 where
  pub nonzero : (pid : ℕ) → P pid → pid ≢ 0
  pub has_parent : (pid : ℕ) → P pid → P (get_parent_pid w pid)

module _ (w : Windows) where
  process_stack-Ancestors :
      (fuel : ℕ) {pid : ℕ} {pids : List ℕ}
      → Ancestors w pid pids
      → length pids < fuel
      → process_stack w fuel pid ≡ some (map (with_window w) pids)
  unfolding process_stack
  process_stack-Ancestors zero above f = absurd (omega arith)
  process_stack-Ancestors (suc fuel) ended f = refl
  process_stack-Ancestors (suc fuel) (parent {pid} ne above) f =
      let rest = process_stack-Ancestors fuel above (omega arith) in
      elim (Bool-cases (pid == 0)) [
        | inl e ↦ absurd (ne ((==_iff pid 0).0 e))
        | inr n ↦ rw (n, rest)
      ]

  -- Where the ancestors of a process end, the loop ends after as many rounds as there are ancestors.
  pub collect_requester_info-summary :
      (pid : ℕ) (pids : List ℕ)
      → Ancestors w pid pids
      → collect_requester_info w (suc (length pids)) pid
        ≡ some (summary w (map (with_window w) pids))
  unfolding collect_requester_info
  collect_requester_info-summary pid pids above =
      rw (process_stack-Ancestors (suc (length pids)) above (omega arith))

  process_stack-IsCyclic :
      (P : ℕ → Type 0) → IsCyclic w P → (fuel pid : ℕ) → P pid → process_stack w fuel pid ≡ none
  unfolding process_stack
  process_stack-IsCyclic P c zero pid p = refl
  process_stack-IsCyclic P c (suc fuel) pid p =
      let rest = process_stack-IsCyclic P c fuel _ (c.has_parent pid p) in
      elim (Bool-cases (pid == 0)) [
        | inl e ↦ absurd (c.nonzero pid p ((==_iff pid 0).0 e))
        | inr n ↦ rw (n, rest)
      ]

  -- Where the ancestors of a process come round in a cycle, the loop does not end, however many
  -- rounds it is given.
  pub collect_requester_info-IsCyclic :
      (P : ℕ → Type 0) (fuel pid : ℕ)
      → IsCyclic w P
      → P pid
      → collect_requester_info w fuel pid ≡ none
  unfolding collect_requester_info
  collect_requester_info-IsCyclic P fuel pid c p = rw (process_stack-IsCyclic P c fuel pid p)
