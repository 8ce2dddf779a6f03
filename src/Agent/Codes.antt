-- ===== src/Agent/Codes.antt =====
-- src/agent/mod.rs: the message numbers of the agent protocol that the program uses.
use ssh_keys.Base.{ℕ}

abbrev pub request_identities : ℕ
request_identities = 11

abbrev pub sign_request : ℕ
sign_request = 13

abbrev pub add_identity : ℕ
add_identity = 17

abbrev pub failure : ℕ
failure = 5

abbrev pub success : ℕ
success = 6

abbrev pub identities_answer : ℕ
identities_answer = 12

abbrev pub sign_response : ℕ
sign_response = 14
