-- ===== src/Pageant/Handles.antt =====
-- src/platform/win/utils.rs (close_handle, get_parent_pid) and pageant/utils.rs: the handles that are
-- opened, and `Finally`, which closes them on every way out.
use ssh_keys.Base.{
  ℕ, ◌≡◌, refl, sym, Bool, true, false, Bytes, Option, some, none, List, [], ◌∷◌, map,
  if◌then◌else◌, Bool-cases, inl, inr,
}
use ssh_keys.Outcome.{Outcome, ok, err, panic}
use ssh_keys.Exec.{Exec}
use ssh_keys.Finally.{Finally, new_finally, drop_finally}
use ssh_keys.Pageant.{HandleEntry, skipped, name_matches, owner_or, find_owner}

-- A handle is opened, by OpenProcess or DuplicateHandle, or closed.
pub data HandleCall : Type 0 where
  opened : ℕ → HandleCall
  closed : ℕ → HandleCall

-- The calls, the last one first.
abbrev pub Calls : Type 0
Calls = List HandleCall

abbrev pub close_handle : ℕ → Finally Calls
close_handle handle = new_finally (λ calls. closed handle ∷ calls)

-- The end of a scope: what is left, with the guard dropped after the outcome is known.
abbrev pub leaving : {A : Type 0} → Outcome A → Outcome Calls → Calls → Outcome A × Calls
leaving r (ok calls) before = (r, calls)
leaving r (err e) before = (panic, before)
leaving r panic before = (panic, before)

-- A scope that has opened a handle, and begins with `let _close = close_handle(handle)`.
unfoldable pub with_handle : {A : Type 0} → ℕ → Exec Calls A → Exec Calls A
with_handle handle body calls =
    let (r, after) = body (opened handle ∷ calls) in
    leaving r (drop_finally (close_handle handle) after) after

-- The calls after some calls: those that were opened are closed again, the last one first.
pub data Nested : Calls → Calls → Type 0 where
  no_more : {before : Calls} → Nested before before
  around :
      {handle : ℕ} {before after inner : Calls}
      → Nested before after
      → Nested (opened handle ∷ after) inner
      → Nested before (closed handle ∷ inner)

Nested-trans : {a b c : Calls} → Nested a b → Nested b c → Nested a c
Nested-trans p no_more = p
Nested-trans p (around q inner) = around (Nested-trans p q) inner

pub with_handle-Nested :
    {A : Type 0} (handle : ℕ) (body : Exec Calls A) (calls : Calls)
    → ((before : Calls) → Nested before (body before).1)
    → Nested calls (with_handle handle body calls).1
unfolding with_handle
with_handle-Nested handle body calls h = around no_more (h (opened handle ∷ calls))

-- An entry of the system's list of handles, with what OpenProcess and DuplicateHandle give for it, and
-- the units of the name that NtQueryObject gives for the duplicate.
pub record SystemHandle : Type 0 where
  pub object_type_index : ℕ
  pub unique_process_id : ℕ
  pub process : Option ℕ
  pub dup_handle : Option ℕ
  pub name : Option (List ℕ)

-- The name that can be asked for.
abbrev known_name : Option ℕ → Option ℕ → Option (List ℕ) → Option (List ℕ)
known_name none dup_handle name = none
known_name (some process) none name = none
known_name (some process) (some dup_handle) name = name

abbrev pub entry_of : SystemHandle → HandleEntry
entry_of e = record {
  object_type_index = e.object_type_index;
  unique_process_id = e.unique_process_id;
  duplicate = known_name e.process e.dup_handle e.name;
}

-- The body of the loop from OpenProcess on: whether the owner is found.
abbrev pub name_of_duplicate : Bytes → Option ℕ → Option (List ℕ) → Exec Calls Bool
name_of_duplicate mapping_name none name calls = (ok false, calls)
name_of_duplicate mapping_name (some dup_handle) name calls =
    with_handle dup_handle (λ inner. (name_matches mapping_name name, inner)) calls

abbrev pub look_at : Bytes → Option ℕ → Option ℕ → Option (List ℕ) → Exec Calls Bool
look_at mapping_name none dup_handle name calls = (ok false, calls)
look_at mapping_name (some process) dup_handle name calls =
    with_handle process (name_of_duplicate mapping_name dup_handle name) calls

-- The next round of the loop, or its end.
abbrev pub found_or : Outcome Bool → ℕ → Calls → Exec Calls (Option ℕ) → Outcome (Option ℕ) × Calls
found_or (ok true) pid calls later = (ok (some pid), calls)
found_or (ok false) pid calls later = later calls
found_or (err e) pid calls later = (err e, calls)
found_or panic pid calls later = (panic, calls)

-- The loop of find_memory_map_owner_process, with its calls.
unfoldable pub find_owner_calls : ℕ → Bytes → List SystemHandle → Exec Calls (Option ℕ)
find_owner_calls current mapping_name [] calls = (ok none, calls)
find_owner_calls current mapping_name (e ∷ es) calls =
    let later = find_owner_calls current mapping_name es in
    let (r, after) = look_at mapping_name e.process e.dup_handle e.name calls in
    if skipped current (entry_of e) then later calls else found_or r e.unique_process_id after later

name_of_duplicate-Nested :
    (mapping_name : Bytes) (dup_handle : Option ℕ) (name : Option (List ℕ)) (calls : Calls)
    → Nested calls (name_of_duplicate mapping_name dup_handle name calls).1
name_of_duplicate-Nested mapping_name none name calls = no_more
name_of_duplicate-Nested mapping_name (some dup_handle) name calls =
    with_handle-Nested dup_handle (λ inner. (name_matches mapping_name name, inner)) calls
      (λ _. no_more)

look_at-Nested :
    (mapping_name : Bytes) (process dup_handle : Option ℕ) (name : Option (List ℕ)) (calls : Calls)
    → Nested calls (look_at mapping_name process dup_handle name calls).1
look_at-Nested mapping_name none dup_handle name calls = no_more
look_at-Nested mapping_name (some process) dup_handle name calls =
    with_handle-Nested process (name_of_duplicate mapping_name dup_handle name) calls
      (name_of_duplicate-Nested mapping_name dup_handle name)

look_at-name_matches :
    (mapping_name : Bytes) (process dup_handle : Option ℕ) (name : Option (List ℕ)) (calls : Calls)
    → (look_at mapping_name process dup_handle name calls).0
      ≡ name_matches mapping_name (known_name process dup_handle name)
unfolding with_handle
look_at-name_matches mapping_name none dup_handle name calls = refl
look_at-name_matches mapping_name (some process) none name calls = refl
look_at-name_matches mapping_name (some process) (some dup_handle) name calls = refl

-- An action with the result of a computation, whose calls are nested.
abbrev pub Runs : {A : Type 0} → Exec Calls A → Outcome A → Calls → Type 0
Runs m result calls = ((m calls).0 ≡ result) × Nested calls (m calls).1

found_or-owner_or :
    (r : Outcome Bool) (pid : ℕ) (calls after : Calls) (later : Exec Calls (Option ℕ))
    (result : Outcome (Option ℕ))
    → Nested calls after
    → Runs later result after
    → ((found_or r pid after later).0 ≡ owner_or r pid result)
      × Nested calls (found_or r pid after later).1
found_or-owner_or (ok true) pid calls after later result n h = (refl, n)
found_or-owner_or (ok false) pid calls after later result n h = (h.0, Nested-trans n h.1)
found_or-owner_or (err e) pid calls after later result n h = (refl, n)
found_or-owner_or panic pid calls after later result n h = (refl, n)

-- Whatever handles the system lists, and whichever of them can be opened, duplicated and named: the loop
-- with its calls has the outcome of `find_owner`, and on every way out of it, whether it finds the owner,
-- goes through all entries, or panics, each handle that it opened is closed again once, the last one first.
pub find_owner_calls-find_owner :
    (current : ℕ) (mapping_name : Bytes) (es : List SystemHandle) (calls : Calls)
    → Runs
        (find_owner_calls current mapping_name es)
        (find_owner current mapping_name (map entry_of es))
        calls
unfolding find_owner_calls find_owner
find_owner_calls-find_owner current mapping_name [] calls = (refl, no_more)
find_owner_calls-find_owner current mapping_name (e ∷ es) calls =
    let looked = look_at mapping_name e.process e.dup_handle e.name calls in
    let rest = find_owner_calls-find_owner current mapping_name es in
    elim (Bool-cases (skipped current (entry_of e))) [
      | inl skip ↦ rw skip (rest calls)
      | inr look ↦
          rw (look, sym (look_at-name_matches mapping_name e.process e.dup_handle e.name calls))
            (found_or-owner_or looked.0 e.unique_process_id calls looked.1
              (find_owner_calls current mapping_name es)
              (find_owner current mapping_name (map entry_of es))
              (look_at-Nested mapping_name e.process e.dup_handle e.name calls) (rest looked.1))
    ]
