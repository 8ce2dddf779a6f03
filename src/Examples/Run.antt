-- ===== src/Examples/Run.antt =====
-- The model, opened down to the model packages, so that it runs.
use ssh_keys.Base.{Bytes}
use ssh_keys.Outcome.{Outcome}
use ssh_keys.Reader.{read_exact}
use ssh_keys.Text.{from_utf8, is_utf8}
use ssh_keys.Wire.{
  read_u8, read_u32, read_string, read_string_utf8, read_mpint, write_string, write_mpint,
}
use ssh_keys.Key.{public_eq, sign, encode}
use ssh_keys.Key.Parse.{read_public_key, decode, key_pair_from_wire}
use ssh_keys.KeyStore.{serialize_key_pairs, deserialize_key_pairs}
use ssh_keys.Disk.{create, write_all, open_file, read_to_end}
use ssh_keys.Packages.Model.{
  from_be, digits_of, value_from, digest_number, rem_of, pem_of, key_of, letters, count,
}
use ssh_keys.Config.{save, load_config}
use ssh_keys.Config.Model.{
  toml, write_entries, read_entries, all_differ, are_distinct, checked, read_document,
}
use ssh_keys.Agent.{
  Agent, add_key, handle_request, handle_message, handle_identities, handle_add, add_parsed,
  handle_sign, sign_parsed, get_key, ask_confirmation,
}
use ssh_keys.Agent.Replies.{identities, sign_reply}
use ssh_keys.Agent.SignRequest.{read_sign_request}
use ssh_keys.Examples.Values.{bo, ssl, user, info}

unfoldable pub run : Bytes → Agent ssl → Outcome Bytes × Agent ssl
unfolding handle_request handle_message handle_identities identities handle_add add_parsed add_key
    handle_sign sign_parsed get_key ask_confirmation sign_reply read_sign_request sign encode decode
    read_public_key key_pair_from_wire public_eq read_u8 read_u32 read_string read_string_utf8
    read_mpint write_string write_mpint read_exact from_utf8 is_utf8 serialize_key_pairs
    deserialize_key_pairs create write_all open_file read_to_end save load_config from_be digits_of
    value_from digest_number rem_of pem_of key_of letters count write_entries read_entries
    all_differ are_distinct checked read_document
run buf a = handle_request bo toml {ssl = ssl} user buf info a
