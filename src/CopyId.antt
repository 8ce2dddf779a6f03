-- ===== src/CopyId.antt =====
-- src/copy_id.rs: the `copy-id` command, which adds a key to `authorized_keys` on a host.
pub mod Update
pub mod Arguments
use ssh_keys.Base.{
  ℕ, zero, suc, ◌+◌, ◌*◌, ◌-◌, ◌%◌, Bool, true, false, not, ◌&&◌, Bytes, Option, some, none, List,
  [], ◌∷◌, ◌++◌, ltb, leb, ◌==◌, if◌then◌else◌, bytes_eq,
}
use ssh_keys.Outcome.{Outcome, ok, err, panic, Error, error_new, wrapped, library, text, unwrap}
use ssh_keys.Packages.{ByteOrder, Openssl}
use ssh_keys.Text.{ascii, contains}
use ssh_keys.Key.{KeyPair, PublicKey, key_type, encode}
use ssh_keys.Exec.{Exec, ◌>>=◌, ◌>>◌, pure, lift, wrapping}
use ssh_keys.Config.{Config}

-- clap: the arguments of the command.
pub record ArgMatches : Type 0 where
  pub value_of : Bytes → Option Bytes
  pub is_present : Bytes → Bool

-- ssh2, rpassword and data_encoding: the calls that act on a host, and the state that they act on,
-- with a file that is open there. `join` and `trim_end` are those of paths and strings.
pub record Remote : Type 1 where
  pub Host : Type 0
  pub File : Type 0
  pub session_new : Exec Host (Unit {0})
  pub tcp_connect : Bytes → ℕ → Exec Host (Unit {0})
  pub handshake : Exec Host (Unit {0})
  pub read_password_from_tty : Exec Host Bytes
  pub userauth_password : Bytes → Bytes → Exec Host (Unit {0})
  pub channel_session : Exec Host (Unit {0})
  pub channel_exec : Bytes → Exec Host (Unit {0})
  pub channel_read_to_string : Exec Host Bytes
  pub sftp : Exec Host (Unit {0})
  pub stat : Bytes → Exec Host (Unit {0})
  pub mkdir : Bytes → ℕ → Exec Host (Unit {0})
  pub open_mode : Bytes → ℕ → Exec Host File
  pub read_to_string : File → Exec Host Bytes
  pub seek_end : File → Exec Host (Unit {0})
  pub write_all : File → Bytes → Exec Host (Unit {0})
  pub base64 : Bytes → Bytes
  pub join : Bytes → Bytes → Bytes
  pub trim_end : Bytes → Bytes

-- `str::split` at a byte.
abbrev add_front : ℕ → List Bytes → List Bytes
add_front b [] = (b ∷ []) ∷ []
add_front b (part ∷ parts) = (b ∷ part) ∷ parts

abbrev pub split : ℕ → Bytes → List Bytes
split at_byte [] = [] ∷ []
split at_byte (b ∷ bs) =
    let rest = split at_byte bs in if b == at_byte then [] ∷ rest else add_front b rest

-- `let &[user, host] = split.as_slice()`
abbrev two_parts : List Bytes → Outcome (Bytes × Bytes)
two_parts (user ∷ host ∷ []) = ok (user, host)
two_parts _ = err (error_new (text "invalid host"))

unfoldable pub split_host : Bytes → Outcome (Bytes × Bytes)
split_host arg = two_parts (split 64 arg)

-- `parse::<u16>`: decimal digits, after a plus sign perhaps.
abbrev is_digit : ℕ → Bool
is_digit b = leb 48 b && leb b 57

abbrev digits_from : ℕ → Bytes → Option ℕ
digits_from n [] = some n
digits_from n (b ∷ bs) =
    let next = n * 10 + (b - 48) in
    let rest = digits_from next bs in if is_digit b && ltb next 65536 then rest else none

abbrev after_sign : Bytes → Option ℕ
after_sign [] = none
after_sign (b ∷ bs) = digits_from 0 (b ∷ bs)

abbrev at_sign : ℕ → Bytes → Option ℕ
at_sign b bs = if b == 43 then after_sign bs else digits_from 0 (b ∷ bs)

abbrev pub parse_u16 : Bytes → Option ℕ
parse_u16 [] = none
parse_u16 (b ∷ bs) = at_sign b bs

abbrev port_or_invalid : Option ℕ → Outcome ℕ
port_or_invalid (some port) = ok port
port_or_invalid none = err (wrapped (text "invalid port") library)

-- `iter().find(|k| k.name() == key_name)`
abbrev pub find_key : {ssl : Openssl} → Bytes → List (KeyPair ssl) → Outcome (KeyPair ssl)
find_key key_name [] = err (error_new (text "key not found"))
find_key key_name (k ∷ ks) = if bytes_eq k.name key_name then ok k else find_key key_name ks

abbrev last_is_newline : Bytes → Bool
last_is_newline [] = false
last_is_newline (b ∷ []) = b == 10
last_is_newline (b ∷ c ∷ bs) = last_is_newline (c ∷ bs)

-- `!str.is_empty() && !str.ends_with("\n")`
abbrev pub lacks_newline : Bytes → Bool
lacks_newline [] = false
lacks_newline (b ∷ bs) = not (last_is_newline (b ∷ bs))

module _ (remote : Remote) where
  -- The line of a key: its type, its base 64 form, and its name.
  abbrev pub key_line : {ssl : Openssl} → KeyPair ssl → Bytes → Bytes
  key_line key public_key_b64 =
      key_type key.public_key ++ ascii " " ++ public_key_b64 ++ ascii " " ++ key.name ++ ascii "\n"

  abbrev read_all : remote.File → Exec remote.Host Bytes
  read_all file = do str ← remote.read_to_string file; remote.seek_end file; pure str

  abbrev append_line :
      {ssl : Openssl} → KeyPair ssl → remote.File → Bytes → Bytes → Exec remote.Host (Unit {0})
  append_line key file str public_key_b64 = do
    if lacks_newline str then remote.write_all file (10 ∷ []) else pure tt
    remote.write_all file (key_line key public_key_b64)

  -- From the open file on.
  unfoldable pub update :
      ByteOrder → {ssl : Openssl} → Bool → KeyPair ssl → remote.File → Exec remote.Host (Unit {0})
  update bo erase key file = do
    str ← if erase then pure [] else read_all file
    blob ← lift (encode bo key.public_key)
    let public_key_b64 = remote.base64 blob
    if contains str public_key_b64 then pure tt else append_line key file str public_key_b64

  -- `if let Err(_) = sftp.stat(..)`
  abbrev made_if_missing : Outcome (Unit {0}) → Bytes → Exec remote.Host (Unit {0})
  made_if_missing (ok found) dir = pure tt
  made_if_missing (err e) dir = remote.mkdir dir 0o700
  made_if_missing panic dir = lift panic

  unfoldable pub make_ssh_dir : Bytes → Exec remote.Host (Unit {0})
  make_ssh_dir dir h = made_if_missing (remote.stat dir h).0 dir (remote.stat dir h).1

  -- The session with the host, from the connection to the open file.
  unfoldable pub open_authorized_keys : Bytes → Bytes → Option Bytes → Exec remote.Host remote.File
  open_authorized_keys user host port_arg = do
    remote.session_new
    port_text ← lift (unwrap port_arg)
    port ← lift (port_or_invalid (parse_u16 port_text))
    wrapping (text "connect") (remote.tcp_connect host port)
    wrapping (text "handshake") remote.handshake
    password ← remote.read_password_from_tty
    remote.userauth_password user password
    remote.channel_session
    remote.channel_exec (ascii "cd ; pwd")
    s ← remote.channel_read_to_string
    let home = remote.trim_end s
    remote.sftp
    let ssh_dir = remote.join home (ascii ".ssh")
    make_ssh_dir ssh_dir
    remote.open_mode (remote.join ssh_dir (ascii "authorized_keys")) 0o600

  unfoldable pub copy_id :
      ByteOrder → {ssl : Openssl} → Config ssl → ArgMatches → Exec remote.Host (Unit {0})
  copy_id bo config opts = do
    key_name ← lift (unwrap (opts.value_of (ascii "key")))
    key ← lift (find_key key_name config.keys)
    host_arg ← lift (unwrap (opts.value_of (ascii "host")))
    (user, host) ← lift (split_host host_arg)
    file ← open_authorized_keys user host (opts.value_of (ascii "port"))
    update bo (opts.is_present (ascii "erase")) key file
