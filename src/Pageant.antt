-- ===== src/Pageant.antt =====
-- src/platform/win/pageant: the window that answers a request in a shared memory mapping.
pub mod Mapping
pub mod Handles
pub mod Buffer
use ssh_keys.Base.{
  ℕ, suc, Bool, true, false, not, ◌&&◌, ◌||◌, Bytes, Option, some, none, List, [], ◌∷◌, ◌++◌,
  length, drop, leb, ltb, ◌==◌, if◌then◌else◌,
}
use ssh_keys.Outcome.{
  Outcome, ok, err, panic, ◌>>=◌, unexpected_eof, unwrap, error_new, text, wrap_err,
}
use ssh_keys.Packages.{ByteOrder, Openssl}
use ssh_keys.Text.{ascii, is_utf8, contains, from_utf16}
use ssh_keys.Config.{Toml}
use ssh_keys.Agent.{Agent, User, RequestInfo, RequesterInfo}
use ssh_keys.Connection.{Session, connection_handler}
use ssh_keys.Requester.{Windows}
use ssh_keys.Requester.Stack.{collect_requester_info}

-- An entry of the system's list of handles. `duplicate` is the handle's name, where the process can
-- be opened, its handle be duplicated, and the name of the duplicate be asked for.
pub record HandleEntry : Type 0 where
  pub object_type_index : ℕ
  pub unique_process_id : ℕ
  pub duplicate : Option (List ℕ)

-- One step of the loop of `find_memory_map_owner_process`: whether the handle is passed over.
abbrev pub skipped : ℕ → HandleEntry → Bool
skipped current handle = not (handle.object_type_index == 42) || handle.unique_process_id == current

abbrev pub name_matches : Bytes → Option (List ℕ) → Outcome Bool
name_matches mapping_name none = ok false
name_matches mapping_name (some units) = do
  name ← unwrap (from_utf16 units)
  ok (contains name mapping_name)

abbrev pub owner_or : Outcome Bool → ℕ → Outcome (Option ℕ) → Outcome (Option ℕ)
owner_or (ok matches) pid later = if matches then ok (some pid) else later
owner_or (err e) pid later = err e
owner_or panic pid later = panic

unfoldable pub find_owner : ℕ → Bytes → List HandleEntry → Outcome (Option ℕ)
find_owner current mapping_name [] = ok none
find_owner current mapping_name (handle ∷ handles) =
    let later = find_owner current mapping_name handles in
    let here =
      owner_or (name_matches mapping_name handle.duplicate) handle.unique_process_id later in
    if skipped current handle then later else here

-- find_memory_map_owner_process, where `none` stands for a query of the handles that failed.
unfoldable pub find_memory_map_owner_process :
    ℕ → Option (List HandleEntry) → Bytes → Outcome (Option ℕ)
find_memory_map_owner_process current none mapping_name = ok none
find_memory_map_owner_process current (some handles) mapping_name =
    find_owner current mapping_name handles

-- `copy_nonoverlapping` of a reply that is not longer than the mapping.
unfoldable pub copy_reply : Bytes → Bytes → Bytes
copy_reply resp mapping =
    if ltb (length mapping) (length resp) then mapping else resp ++ drop (length resp) mapping

abbrev pub session : {ssl : Openssl} → Bytes → Agent ssl → Bool → Session ssl
session mapping a poisoned = record {
  input = record { bytes = mapping; ending = unexpected_eof };
  output = record { sent = []; limit = none };
  agent = a;
  poisoned = poisoned;
}

-- What the message leaves: the mapping, the agent, and its mutex.
pub record Answered (ssl : Openssl) : Type 0 where
  pub mapping : Bytes
  pub agent : Agent ssl
  pub poisoned : Bool

module _ (bo : ByteOrder) (toml : Toml) {ssl : Openssl} (user : User ssl) where
  abbrev pub pageant_info : Option RequesterInfo → RequestInfo
  pageant_info requester = record { channel = ascii "Pageant"; requester = requester }

  -- An error of the connection is logged; a panic leaves the window's procedure.
  abbrev after_session :
      Bytes → Option (Outcome (Unit {0}) × Session ssl) → Option (Outcome (Unit {0}) × Answered ssl)
  after_session mapping none = none
  after_session mapping (some (panic, s)) =
      some (panic, record { mapping = mapping; agent = s.agent; poisoned = s.poisoned })
  after_session mapping (some (_, s)) = some (
    ok tt,
    record { mapping = copy_reply s.output.sent mapping; agent = s.agent; poisoned = s.poisoned },
  )

  -- The part of `wnd_proc` from the requester on.
  unfoldable pub answer_mapping :
      Option RequesterInfo → Bytes → Agent ssl → Bool → Option (Outcome (Unit {0}) × Answered ssl)
  answer_mapping requester mapping a poisoned =
      after_session mapping
        (connection_handler bo toml user (pageant_info requester) (session mapping a poisoned))

  -- `.and_then(..)` with the lock, which panics if the mutex is poisoned, and `.ok()`.
  abbrev described : Option (Outcome RequesterInfo) → Option (Outcome (Option RequesterInfo))
  described none = none
  described (some (ok requester)) = some (ok (some requester))
  described (some (err e)) = some (ok none)
  described (some panic) = some panic

  unfoldable pub requester_of :
      (w : Windows) (fuel : ℕ) (poisoned : Bool)
      → Option ℕ
      → Option (Outcome (Option RequesterInfo))
  requester_of w fuel poisoned none = some (ok none)
  requester_of w fuel true (some pid) = some panic
  requester_of w fuel false (some pid) = described (collect_requester_info w fuel pid)

  -- A panic while the requester is described, where a description that began has the lock.
  abbrev unanswered : Bytes → Agent ssl → Bool → Option (Outcome (Unit {0}) × Answered ssl)
  unanswered mapping a poisoned =
      some (panic, record { mapping = mapping; agent = a; poisoned = poisoned })

  abbrev with_requester :
      Option (Outcome (Option RequesterInfo))
      → Bytes
      → Agent ssl
      → Bool
      → Option (Outcome (Unit {0}) × Answered ssl)
  with_requester none mapping a poisoned = none
  with_requester (some (ok requester)) mapping a poisoned =
      answer_mapping requester mapping a poisoned
  with_requester (some (err e)) mapping a poisoned = unanswered mapping a poisoned
  with_requester (some panic) mapping a poisoned = unanswered mapping a true

  abbrev with_owner :
      (w : Windows) (fuel : ℕ)
      → Outcome (Option ℕ)
      → Bytes
      → Agent ssl
      → Bool
      → Option (Outcome (Unit {0}) × Answered ssl)
  with_owner w fuel (ok owner) mapping a poisoned =
      with_requester (requester_of w fuel poisoned owner) mapping a poisoned
  with_owner w fuel (err e) mapping a poisoned = unanswered mapping a poisoned
  with_owner w fuel panic mapping a poisoned = unanswered mapping a poisoned

  -- `wnd_proc` on `WM_COPYDATA`, on fuel for the requester's ancestors.
  unfoldable pub wnd_proc :
      (w : Windows) (fuel current : ℕ)
      → Option (List HandleEntry)
      → Bytes
      → Bytes
      → Agent ssl
      → Bool
      → Option (Outcome (Unit {0}) × Answered ssl)
  wnd_proc w fuel current handles mapping_name mapping a poisoned =
      if is_utf8 mapping_name
      then with_owner w fuel (find_memory_map_owner_process current handles mapping_name) mapping a
          poisoned
      else unanswered mapping a poisoned
