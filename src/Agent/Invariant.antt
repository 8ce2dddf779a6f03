-- ===== src/Agent/Invariant.antt =====
-- src/agent/mod.rs: the agent's keys through a sequence of requests.
use ssh_keys.Base.{
  ◌≡◌, ◌≢◌, refl, sym, ap, ◌∙◌, Bytes, List, [], ◌∷◌, ◌++◌, append_assoc, append-nil, All,
  All-append,
}
use ssh_keys.Packages.{ByteOrder, Openssl, BigNumLaws}
use ssh_keys.Key.{KeyPair}
use ssh_keys.Config.{Toml}
use ssh_keys.Agent.{Agent, User, RequestInfo, Prompt, handle_request}
use ssh_keys.Agent.Effects.{Effect, unchanged, added, asked, IsConsistent, handle_request-Effect}
use ssh_keys.Agent.Lookup.{Differs, get_key-none}

-- No two key pairs have the same public key.
abbrev pub Distinct : {ssl : Openssl} → List (KeyPair ssl) → Type 0
Distinct [] = Unit
Distinct (k ∷ ks) = All (λ j. k.public_key ≢ j.public_key) ks × Distinct ks

pub record IsSound {ssl : Openssl} (a : Agent ssl) : Type 0 where
  pub consistent : All IsConsistent a.config.keys
  pub distinct : Distinct a.config.keys

Distinct-append :
    {ssl : Openssl} (ks : List (KeyPair ssl)) (k : KeyPair ssl)
    → Distinct ks
    → All (Differs k.public_key) ks
    → Distinct (ks ++ (k ∷ []))
Distinct-append [] k d n = (tt, tt)
Distinct-append (j ∷ ks) k (dj, d) (nj, n) = (
  All-append (λ i. j.public_key ≢ i.public_key) ks (k ∷ []) dj (nj, tt),
  Distinct-append ks k d n,
)

pub Effect-IsSound :
    {ssl : Openssl} (laws : BigNumLaws ssl) {a b : Agent ssl} → Effect a b → IsSound a → IsSound b
Effect-IsSound laws (unchanged e) s = rw e s
Effect-IsSound laws {a} (added k d c missing e) s = rw e (record {
  consistent = All-append IsConsistent a.config.keys (k ∷ []) s.consistent (c, tt);
  distinct = Distinct-append a.config.keys k s.distinct (get_key-none laws k.public_key a missing);
})
Effect-IsSound laws (asked public k idx info found e) s =
    rw e (record { consistent = s.consistent; distinct = s.distinct })

-- `b` has the keys of `a` in their order, then new ones, and its prompts after those of `a`.
pub record Grown {ssl : Openssl} (a b : Agent ssl) : Type 0 where
  pub new_keys : List (KeyPair ssl)
  pub new_prompts : List (Prompt ssl)
  pub keys : b.config.keys ≡ a.config.keys ++ new_keys
  pub prompts : b.prompts ≡ new_prompts ++ a.prompts

pub Grown-refl : {ssl : Openssl} (a : Agent ssl) → Grown a a
Grown-refl a = record {
  new_keys = [];
  new_prompts = [];
  keys = sym (append-nil a.config.keys);
  prompts = refl;
}

pub Grown-trans : {ssl : Openssl} {a b c : Agent ssl} → Grown a b → Grown b c → Grown a c
Grown-trans {a} g h = record {
  new_keys = g.new_keys ++ h.new_keys;
  new_prompts = h.new_prompts ++ g.new_prompts;
  keys =
      h.keys ∙ ap (λ t. t ++ h.new_keys) g.keys ∙ append_assoc a.config.keys g.new_keys h.new_keys;
  prompts =
      h.prompts
      ∙ ap (λ t. h.new_prompts ++ t) g.prompts
      ∙ sym (append_assoc h.new_prompts g.new_prompts a.prompts);
}

pub Effect-Grown : {ssl : Openssl} {a b : Agent ssl} → Effect a b → Grown a b
Effect-Grown {a} (unchanged e) = rw e (Grown-refl a)
Effect-Grown {a} (added k d c missing e) =
    rw e (record { new_keys = k ∷ []; new_prompts = []; keys = refl; prompts = refl })
Effect-Grown {a} (asked public k idx info found e) = rw e (record {
  new_keys = [];
  new_prompts = record { key_pair = k; info = info } ∷ [];
  keys = sym (append-nil a.config.keys);
  prompts = refl;
})

-- The requests of one client after another, whatever each returns.
abbrev pub Request : Type 0
Request = Bytes × RequestInfo

module _ (bo : ByteOrder) (toml : Toml) {ssl : Openssl} (user : User ssl) where
  unfoldable pub handle_all : List Request → Agent ssl → Agent ssl
  handle_all [] a = a
  handle_all ((buf, info) ∷ rs) a = handle_all rs (handle_request bo toml user buf info a).1

  -- Every sequence of requests, whether they succeed or not, keeps the agent sound: each public key
  -- is the one of its private key, and the public keys are distinct.
  pub handle_all-IsSound :
      (laws : BigNumLaws ssl) (rs : List Request) (a : Agent ssl)
      → IsSound a
      → IsSound (handle_all rs a)
  unfolding handle_all
  handle_all-IsSound laws [] a s = s
  handle_all-IsSound laws ((buf, info) ∷ rs) a s =
      handle_all-IsSound laws rs _
        (Effect-IsSound laws (handle_request-Effect bo toml user buf info a) s)

  -- No sequence of requests removes or reorders keys, or takes back a prompt.
  pub handle_all-Grown : (rs : List Request) (a : Agent ssl) → Grown a (handle_all rs a)
  unfolding handle_all
  handle_all-Grown [] a = Grown-refl a
  handle_all-Grown ((buf, info) ∷ rs) a =
      Grown-trans (Effect-Grown (handle_request-Effect bo toml user buf info a))
        (handle_all-Grown rs _)
