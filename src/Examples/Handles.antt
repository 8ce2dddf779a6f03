-- ===== src/Examples/Handles.antt =====
-- The search for the owner of a mapping.
use ssh_keys.Base.{some, none, List, [], ◌∷◌, map}
use ssh_keys.Text.{ascii}
use ssh_keys.Pageant.{find_owner}
use ssh_keys.Pageant.Handles.{
  SystemHandle, Runs, entry_of, find_owner_calls, find_owner_calls-find_owner,
}

-- An event of this process, a mapping of a process that is closed to us, and two mappings, of which the
-- second has the name m.
abbrev handles : List SystemHandle
handles =
    record {
      object_type_index = 16;
      unique_process_id = 9;
      process = none;
      dup_handle = none;
      name = none;
    }
    ∷ record {
      object_type_index = 42;
      unique_process_id = 4;
      process = none;
      dup_handle = none;
      name = none;
    }
    ∷ record {
      object_type_index = 42;
      unique_process_id = 5;
      process = some 500;
      dup_handle = some 501;
      name = some (97 ∷ []);
    }
    ∷ record {
      object_type_index = 42;
      unique_process_id = 6;
      process = some 600;
      dup_handle = some 601;
      name = some (109 ∷ []);
    }
    ∷ []

find_owner_calls-find_owner_example :
    Runs
      (find_owner_calls 9 (ascii "m") handles)
      (find_owner 9 (ascii "m") (map entry_of handles))
      []
find_owner_calls-find_owner_example = find_owner_calls-find_owner 9 (ascii "m") handles []
