-- ===== src/Examples/Hosts.antt =====
-- The `copy-id` command, on a host that is one file.
use ssh_keys.Base.{
  ℕ, ◌+◌, ◌%◌, ◌≡◌, refl, Bool, ◌||◌, true, false, Bytes, some, none, [], ◌∷◌, ◌++◌, length, drop,
  if◌then◌else◌, bytes_eq, map,
}
use ssh_keys.Outcome.{ok, err, utf8}
use ssh_keys.Text.{ascii, is_utf8}
use ssh_keys.Key.{encode}
use ssh_keys.Exec.{Exec}
use ssh_keys.CopyId.{Remote, ArgMatches, update, key_line}
use ssh_keys.CopyId.Update.{WorkingFile, overwrite, ended, update-appends, update-erase}
use ssh_keys.Disk.{Disk}
use ssh_keys.Config.{Config}
use ssh_keys.Config.RoundTrip.{healthy}
use ssh_keys.Config.Model.{toml}
use ssh_keys.Start.{copy_id_command, prepare}
use ssh_keys.Start.Main.{LogSetup, set_up_log, main, Ends, main-CopyIdEnds}
use ssh_keys.Start.CommandLine.{copy_id_args, is_declared, IsParsed}
use ssh_keys.Examples.Values.{bo, ssl, key_pair, blob}
use ssh_keys.Examples.Run.{run}

pub record OpenFile : Type 0 where
  content : Bytes
  offset : ℕ

abbrev pub accepted : Exec OpenFile (Unit {0})
accepted h = (ok tt, h)

abbrev pub read_file : Exec OpenFile Bytes
read_file h =
    let rest = drop h.offset h.content in
    if is_utf8 rest then (ok rest, record h { offset = length h.content }) else (err utf8, h)

abbrev pub write_file : Bytes → Exec OpenFile (Unit {0})
write_file bs h =
    (ok tt, record { content = overwrite h.offset bs h.content; offset = h.offset + length bs })

abbrev pub hex_of : Bytes → Bytes
hex_of bs = map (λ b. 33 + b % 64) bs

abbrev pub remote : Remote
remote = record {
  Host = OpenFile;
  File = Unit {0};
  session_new = accepted;
  tcp_connect = λ host port. accepted;
  handshake = accepted;
  read_password_from_tty = λ h. (ok [], h);
  userauth_password = λ user password. accepted;
  channel_session = accepted;
  channel_exec = λ command. accepted;
  channel_read_to_string = λ h. (ok (ascii "/root"), h);
  sftp = accepted;
  stat = λ path. accepted;
  mkdir = λ path mode. accepted;
  open_mode = λ path mode h. (ok tt, h);
  read_to_string = λ file. read_file;
  seek_end = λ file h. (ok tt, record h { offset = length h.content });
  write_all = λ file. write_file;
  base64 = hex_of;
  join = λ dir name. dir ++ (47 ∷ name);
  trim_end = λ s. s;
}

works : WorkingFile remote tt
works = record {
  content = λ h. h.content;
  offset = λ h. h.offset;
  reads = λ h o u. (record h { offset = length h.content }, rw (o, u) refl, refl);
  seeks = λ h. (record h { offset = length h.content }, refl, refl, refl);
  writes = λ bs h. (
    record { content = overwrite h.offset bs h.content; offset = h.offset + length bs },
    refl,
    refl,
    refl,
  );
}

encoded : encode bo key_pair.public_key ≡ ok blob
unfolding run
encoded = refl

abbrev pub other_key : OpenFile
other_key = record { content = ascii "ssh-rsa AAAA you"; offset = 0 }

other_key-utf8 : is_utf8 (ascii "ssh-rsa AAAA you") ≡ true
unfolding run
other_key-utf8 = refl

abbrev line : Bytes
line = key_line remote key_pair (hex_of blob)

update-appends_example :
    (t : OpenFile) × (update remote bo false key_pair tt other_key ≡ (ok tt, t))
    × (t.content ≡ ascii "ssh-rsa AAAA you\n" ++ line)
unfolding works
update-appends_example =
    update-appends bo remote tt works key_pair blob encoded other_key refl other_key-utf8 refl

abbrev with_key : OpenFile
with_key = record { content = ended (ascii "ssh-rsa AAAA you") ++ line; offset = 0 }

with_key-utf8 : is_utf8 (ended (ascii "ssh-rsa AAAA you") ++ line) ≡ true
unfolding run
with_key-utf8 = refl

abbrev two_lines : OpenFile
two_lines = record { content = line ++ ascii "ssh-rsa AAAA you\n"; offset = 0 }

update-erase_example :
    (t : OpenFile) × (update remote bo true key_pair tt two_lines ≡ (ok tt, t))
    × (t.content ≡ line ++ ascii "ssh-rsa AAAA you\n")
unfolding works
update-erase_example = update-erase bo remote tt works key_pair blob encoded two_lines refl refl

-- The arguments of `copy-id me@host me`, by the names that `main` gives them.
abbrev pub opts : ArgMatches
opts = record {
  value_of = λ name.
      if bytes_eq name (ascii "key")
      then some (ascii "me")
      else if bytes_eq name (ascii "username@host")
      then some (ascii "me@host")
      else if bytes_eq name (ascii "port")
      then some (ascii "22")
      else none;
  is_present = λ name. false;
}

-- The tests for the arguments, in the order in which they are declared.
unset :
    (user_and_host key port erase : Bool)
    → (user_and_host || (key || (port || (erase || false)))) ≡ false
    → (if key
        then some (ascii "me")
        else if user_and_host
        then some (ascii "me@host")
        else if port
        then some (ascii "22")
        else none)
      ≡ none
unset true key port erase h = cc
unset false true port erase h = cc
unset false false true erase h = cc
unset false false false erase h = refl

accepted_opts : IsParsed copy_id_args opts
unfolding is_declared copy_id_args
accepted_opts = record {
  undeclared = λ name h.
      unset (bytes_eq name (ascii "username@host")) (bytes_eq name (ascii "key"))
        (bytes_eq name (ascii "port")) (bytes_eq name (ascii "erase")) h;
  has_required = ((λ _. (_, refl)), ((λ _. (_, refl)), ((λ e. cc), ((λ e. cc), tt))));
}

abbrev serve_nothing : Config ssl → Exec (Disk × OpenFile) (Unit {0})
serve_nothing config s = (ok tt, s)

abbrev log_works : LogSetup
log_works = record { create_dir_all = ok tt; open_log_file = ok tt; init = ok tt }

main-CopyIdEnds_example :
    (key_name : Bytes) × (opts.value_of (ascii "key") ≡ some key_name)
    × Ends toml {ssl = ssl} bo remote serve_nothing key_name []
        (set_up_log log_works)
        (prepare toml ssl (healthy none)).0
        other_key
        (main toml ssl bo remote serve_nothing log_works
          (copy_id_command opts)
          ((healthy none, other_key), []))
main-CopyIdEnds_example =
    main-CopyIdEnds toml {ssl = ssl} bo remote serve_nothing log_works opts (healthy none) other_key
      [] accepted_opts
