-- ===== src/Agent/SignRequest.antt =====
-- src/agent/mod.rs: the fields of a sign request, read in their order.
use ssh_keys.Base.{ℕ, Bytes}
use ssh_keys.Outcome.{text, wrap_err}
use ssh_keys.Packages.{ByteOrder, Openssl}
use ssh_keys.Reader.{Reader, ◌>>=◌, pure, lift, wrapping}
use ssh_keys.Wire.{read_u32, read_string}
use ssh_keys.Key.{PublicKey}
use ssh_keys.Key.Parse.{decode}

unfoldable pub read_sign_request : ByteOrder → (ssl : Openssl) → Reader (PublicKey ssl × Bytes × ℕ)
read_sign_request bo ssl = do
  blob ← read_string bo
  key ← lift (wrap_err (text "read public key") (decode bo ssl blob))
  msg ← wrapping (text "read msg") (read_string bo)
  flags ← wrapping (text "read flags") (read_u32 bo)
  pure (key, msg, flags)
