-- ===== src/CopyId/Arguments.antt =====
-- src/copy_id.rs: the checks of the arguments, before anything is done on a host.
use ssh_keys.Base.{
  ◌≡◌, ◌≢◌, refl, Bytes, some, none, List, [], ◌∷◌, ◌++◌, All, ◌⊎◌, bytes_eq, inl, inr, ==_iff,
  ◌==◌, Bool-cases,
}
use ssh_keys.Outcome.{ok, err, panic, error_new, text}
use ssh_keys.Packages.{ByteOrder, Openssl}
use ssh_keys.Text.{ascii}
use ssh_keys.Key.{KeyPair}
use ssh_keys.Config.{Config}
use ssh_keys.CopyId.{ArgMatches, Remote, split, split_host, find_key, copy_id}

split-free :
    (user : Bytes) (rest : Bytes)
    → All (λ b. b ≢ 64) user
    → split 64 (user ++ (64 ∷ rest)) ≡ user ∷ split 64 rest
split-free [] rest h = refl
split-free (b ∷ user) rest (n, h) = elim (Bool-cases (b == 64)) [
  | inl e ↦ absurd (n ((==_iff b 64).0 e))
  | inr f ↦ rw (f, split-free user rest h) refl
]

split-none : (host : Bytes) → All (λ b. b ≢ 64) host → split 64 host ≡ host ∷ []
split-none [] h = refl
split-none (b ∷ host) (n, h) = elim (Bool-cases (b == 64)) [
  | inl e ↦ absurd (n ((==_iff b 64).0 e))
  | inr f ↦ rw (f, split-none host h) refl
]

-- A user and a host without an at sign, with one between them, are taken apart into the two.
pub split_host-parts :
    (user host : Bytes)
    → All (λ b. b ≢ 64) user
    → All (λ b. b ≢ 64) host
    → split_host (user ++ (64 ∷ host)) ≡ ok (user, host)
unfolding split_host
split_host-parts user host hu hh = rw (split-free user host hu, split-none host hh) refl

find_key-cases :
    {ssl : Openssl} (key_name : Bytes) (ks : List (KeyPair ssl))
    → (find_key key_name ks ≡ err (error_new (text "key not found")))
      ⊎ ((key : KeyPair ssl) × (find_key key_name ks ≡ ok key))
find_key-cases key_name [] = inl refl
find_key-cases key_name (k ∷ ks) = elim (Bool-cases (bytes_eq k.name key_name)) [
  | inl e ↦ inr (k, rw e refl)
  | inr n ↦ rw n (find_key-cases key_name ks)
]

-- How `copy_id` ends where the argument `host` has no value, as in `main`, which calls the argument
-- `username@host`.
module _ (bo : ByteOrder) {ssl : Openssl} (remote : Remote) (config : Config ssl)
    (opts : ArgMatches) (key_name : Bytes) (has_key : opts.value_of (ascii "key") ≡ some key_name)
    (no_host : opts.value_of (ascii "host") ≡ none) where
  -- Where the argument `key` has a value and the argument `host` has none, `copy_id` fails if the
  -- key is not found, and panics if it is, and in both cases does nothing on the host.
  pub copy_id_no_host :
      (h : remote.Host)
      → ((find_key key_name config.keys ≡ err (error_new (text "key not found")))
          × (copy_id remote bo config opts h ≡ (err (error_new (text "key not found")), h)))
        ⊎ ((key : KeyPair ssl) × (find_key key_name config.keys ≡ ok key)
            × (copy_id remote bo config opts h ≡ (panic, h)))
  unfolding copy_id
  copy_id_no_host h = elim (find_key-cases key_name config.keys) [
    | inl e ↦ inl (e, rw (has_key, e) refl)
    | inr (key, e) ↦ inr (key, e, rw (has_key, e, no_host) refl)
  ]
