-- ===== src/Start/CommandLine.antt =====
-- src/main.rs: the arguments of the command `copy-id`, as `main` declares them to clap, and as
-- src/copy_id.rs asks for them.
use ssh_keys.Base.{
  ◌≡◌, refl, Bool, true, false, ◌||◌, Bytes, Option, some, none, List, [], ◌∷◌, bytes_eq,
}
use ssh_keys.Text.{ascii}
use ssh_keys.CopyId.{ArgMatches}

-- Arg::with_name(name), and whether it is `required(true)`.
pub record Arg : Type 0 where
  pub name : Bytes
  pub required : Bool
  pub default_value : Option Bytes

unfoldable pub copy_id_args : List Arg
copy_id_args =
    record { name = ascii "username@host"; required = true; default_value = none }
    ∷ record { name = ascii "key"; required = true; default_value = none }
    ∷ record { name = ascii "port"; required = false; default_value = some (ascii "22") }
    ∷ record { name = ascii "erase"; required = false; default_value = none }
    ∷ []

unfoldable pub is_declared : Bytes → List Arg → Bool
is_declared name [] = false
is_declared name (arg ∷ args) = bytes_eq name arg.name || is_declared name args

abbrev pub HasRequired : ArgMatches → List Arg → Type 0
HasRequired m [] = Unit
HasRequired m (arg ∷ args) =
    (arg.required ≡ true → (value : Bytes) × (m.value_of arg.name ≡ some value))
    × HasRequired m args

-- What clap documents of the arguments that it has accepted: a name that is not declared has no value,
-- and an argument that is required has one.
pub record IsParsed (args : List Arg) (m : ArgMatches) : Type 0 where
  pub undeclared : (name : Bytes) → is_declared name args ≡ false → m.value_of name ≡ none
  pub has_required : HasRequired m args

host_undeclared : is_declared (ascii "host") copy_id_args ≡ false
unfolding is_declared copy_id_args
host_undeclared = refl

pub no_host : (m : ArgMatches) → IsParsed copy_id_args m → m.value_of (ascii "host") ≡ none
no_host m p = p.undeclared (ascii "host") host_undeclared

pub key_required :
    (m : ArgMatches)
    → IsParsed copy_id_args m
    → (value : Bytes) × (m.value_of (ascii "key") ≡ some value)
unfolding copy_id_args
key_required m p = p.has_required.1.0 refl
