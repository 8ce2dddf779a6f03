-- ===== src/Agent/Lookup.antt =====
-- src/agent/mod.rs: `get_key`.
use ssh_keys.Base.{
  ℕ, suc, ◌+◌, ◌≡◌, ◌≢◌, refl, sym, ap, ◌∙◌, some, none, List, [], ◌∷◌, ◌++◌, length, All, arith,
  Bool-cases, inl, inr, false,
}
use ssh_keys.Packages.{Openssl, BigNumLaws}
use ssh_keys.Key.{PublicKey, KeyPair, public_eq}
use ssh_keys.Key.Public.{public_eq_iff}
use ssh_keys.Agent.{Agent, find_from, get_key}

module _ {ssl : Openssl} where
  abbrev pub Differs : PublicKey ssl → KeyPair ssl → Type 0
  Differs public k = k.public_key ≢ public

  -- `k` is the first of `keys` with the public key, at the index `idx`.
  pub record IsFirst (public : PublicKey ssl) (keys : List (KeyPair ssl)) (k : KeyPair ssl)
      (idx : ℕ) : Type 0 where
    pub before : List (KeyPair ssl)
    pub after : List (KeyPair ssl)
    pub splits : keys ≡ before ++ k ∷ after
    pub at_idx : length before ≡ idx
    pub none_before : All (Differs public) before
    pub matches : k.public_key ≡ public

module _ {ssl : Openssl} (laws : BigNumLaws ssl) where
  public_eq-ne : (a b : PublicKey ssl) → public_eq a b ≡ false → a ≢ b
  public_eq-ne a b h e = ground (arith, (public_eq_iff laws a b).1 e)

  find_from-none :
      (idx : ℕ) (public : PublicKey ssl) (keys : List (KeyPair ssl))
      → find_from idx public keys ≡ none
      → All (Differs public) keys
  unfolding find_from
  find_from-none idx public [] h = tt
  find_from-none idx public (k ∷ ks) h = elim (Bool-cases (public_eq k.public_key public)) [
    | inl e ↦ cc (rw e at h)
    | inr n ↦ (public_eq-ne _ _ n, find_from-none (idx + 1) public ks (rw n at h))
  ]

  find_from-some :
      (idx : ℕ) (public : PublicKey ssl) (keys : List (KeyPair ssl)) (k : KeyPair ssl) (at_idx : ℕ)
      → find_from idx public keys ≡ some (k, at_idx)
      → (i : ℕ) × (idx + i ≡ at_idx) × IsFirst public keys k i
  unfolding find_from
  find_from-some idx public [] k at_idx h = cc
  find_from-some idx public (j ∷ js) k at_idx h =
      elim (Bool-cases (public_eq j.public_key public)) [
        | inl e ↦
            let same : j ≡ k = ground (arith, e, h) in
            let at : idx ≡ at_idx = ground (arith, e, h) in
            (
              0,
              omega arith,
              record {
                before = [];
                after = js;
                splits = ap (λ t. t ∷ js) same;
                at_idx = refl;
                none_before = tt;
                matches = ap (λ t. t.public_key) (sym same) ∙ (public_eq_iff laws _ _).0 e;
              },
            )
        | inr n ↦
            let (i, ei, f) = find_from-some (idx + 1) public js k at_idx (rw n at h) in
            (
              suc i,
              omega arith,
              record {
                before = j ∷ f.before;
                after = f.after;
                splits = ap (λ t. j ∷ t) f.splits;
                at_idx = ap suc f.at_idx;
                none_before = (public_eq-ne _ _ n, f.none_before);
                matches = f.matches;
              },
            )
      ]

  -- What `get_key` finds is the first key pair with the public key, and its index.
  pub get_key-IsFirst :
      (public : PublicKey ssl) (a : Agent ssl) (k : KeyPair ssl) (idx : ℕ)
      → get_key public a ≡ some (k, idx)
      → IsFirst public a.config.keys k idx
  unfolding get_key
  get_key-IsFirst public a k idx h =
      let (i, e, f) = find_from-some 0 public a.config.keys k idx h in
      let at : i ≡ idx = omega arith in rw (← at) f

  -- `get_key` returns nothing only where no key pair has the public key.
  pub get_key-none :
      (public : PublicKey ssl) (a : Agent ssl)
      → get_key public a ≡ none
      → All (Differs public) a.config.keys
  unfolding get_key
  get_key-none public a h = find_from-none 0 public a.config.keys h
