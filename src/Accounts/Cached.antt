-- ===== src/Accounts/Cached.antt =====
-- The caches against what is made anew: `getAccount` of src/utils/account.ts and `getWallet` of
-- src/utils/cache/getWallet.ts.
use thirdweb_engine.Base.{
  ◌≡◌, ◌⊎◌, refl, sym, ◌∙◌, ap, String, Option, none, some, List, [], ◌∷◌, All, str_eq, eq_iff,
  if◌then◌else◌, Option-cases, Bool-cases, inl, inr, arith,
}
use thirdweb_engine.Errors.{truthy}
use thirdweb_engine.Engine.{World, Result, ok, Result-cases}
use thirdweb_engine.Accounts.{
  keep_account, keep_wallet, Account, EvmWallet, AccountArgs, AccountEnv, Caches, account_cache_key,
  new_account, new_wallet, get_account, get_wallet,
}
use thirdweb_engine.Accounts.Keys.{IsAddressed, account_cache_key_inj}

-- A call of `getAccount` or of `getWallet`.
pub data Call : Type 0 where
  for_account : AccountArgs → Call
  for_wallet : AccountArgs → Call

abbrev pub args_of : Call → AccountArgs
args_of (for_account a) = a
args_of (for_wallet a) = a

-- No account and no wallet.
abbrev pub no_entries : World Caches
no_entries = record { store = record { accounts = λ _. none; wallets = λ _. none }; effects = [] }

some_inj : {A : Type 0} {a b : A} → some a ≡ some b → a ≡ b
some_inj e = cc

-- What a cache with one more entry holds.
kept_cases :
    {A : Type 0} (l k : String) (a b : A) (rest : Option A)
    → (if str_eq l k then some a else rest) ≡ some b
    → ((l ≡ k) × (a ≡ b)) ⊎ (rest ≡ some b)
kept_cases l k a b rest h = elim (Bool-cases (str_eq l k)) [
  | inl y ↦ inl (ground (arith, y, eq_iff l k), some_inj (rw y at h))
  | inr n ↦ inr (rw n at h)
]

module _ (env : AccountEnv) where
  -- What the calls make without a cache.
  abbrev pub made_account : AccountArgs → Result Account
  made_account args = new_account env args.chain_id args.from (truthy args.account_address)

  abbrev pub made_wallet : AccountArgs → Result EvmWallet
  made_wallet args = new_wallet env args.chain_id args.from (truthy args.account_address)

  -- What the caches after some calls are.
  abbrev pub after_calls : List Call → World Caches → World Caches
  after_calls [] w = w
  after_calls (for_account a ∷ cs) w = after_calls cs (get_account env a w).1
  after_calls (for_wallet a ∷ cs) w = after_calls cs (get_wallet env a w).1

  -- The caches hold what is made anew.
  abbrev pub IsCoherent : Caches → Type 0
  IsCoherent s =
      ((args : AccountArgs) (a : Account)
        → IsAddressed args
        → s.accounts (account_cache_key args) ≡ some a
        → made_account args ≡ ok a)
      × ((args : AccountArgs) (w : EvmWallet)
          → IsAddressed args
          → s.wallets (account_cache_key args) ≡ some w
          → made_wallet args ≡ ok w)

  made_account_same :
      (a b : AccountArgs)
      → IsAddressed a
      → IsAddressed b
      → account_cache_key a ≡ account_cache_key b
      → made_account a ≡ made_account b
  made_account_same a b h k e = let (c, f, t) = account_cache_key_inj a b h k e in rw (c, f, t) refl

  made_wallet_same :
      (a b : AccountArgs)
      → IsAddressed a
      → IsAddressed b
      → account_cache_key a ≡ account_cache_key b
      → made_wallet a ≡ made_wallet b
  made_wallet_same a b h k e = let (c, f, t) = account_cache_key_inj a b h k e in rw (c, f, t) refl

  keep_account-IsCoherent :
      (args : AccountArgs) (a : Account) (s : Caches)
      → IsAddressed args
      → made_account args ≡ ok a
      → IsCoherent s
      → IsCoherent (keep_account env (account_cache_key args) a s)
  keep_account-IsCoherent args a s h k (accounts, wallets) = (
    λ other b g found.
        elim (kept_cases (account_cache_key other) (account_cache_key args) a b _ found) [
          | inl (e, v) ↦ made_account_same other args g h e ∙ k ∙ ap ok v
          | inr e ↦ accounts other b g e
        ],
    wallets,
  )

  get_account_lem :
      (args : AccountArgs) (w : World Caches)
      → IsAddressed args
      → IsCoherent w.store
      → ((get_account env args w).0 ≡ made_account args)
        × IsCoherent (get_account env args w).1.store
  unfolding get_account
  get_account_lem args w h (accounts, wallets) =
      elim (Option-cases (w.store.accounts (account_cache_key args))) [
        | inr (a, e) ↦ rw e (sym (accounts args a h e), (accounts, wallets))
        | inl n ↦ elim (Result-cases (made_account args)) [
          | inr (t, k) ↦ rw (n, k) (refl, (accounts, wallets))
          | inl (a, k) ↦
              rw (n, k) (refl, keep_account-IsCoherent args a w.store h k (accounts, wallets))
        ]
      ]

  keep_wallet-IsCoherent :
      (args : AccountArgs) (a : EvmWallet) (s : Caches)
      → IsAddressed args
      → made_wallet args ≡ ok a
      → IsCoherent s
      → IsCoherent (keep_wallet env (account_cache_key args) a s)
  keep_wallet-IsCoherent args a s h k (accounts, wallets) = (
    accounts,
    λ other b g found.
        elim (kept_cases (account_cache_key other) (account_cache_key args) a b _ found) [
          | inl (e, v) ↦ made_wallet_same other args g h e ∙ k ∙ ap ok v
          | inr e ↦ wallets other b g e
        ],
  )

  get_wallet_lem :
      (args : AccountArgs) (w : World Caches)
      → IsAddressed args
      → IsCoherent w.store
      → ((get_wallet env args w).0 ≡ made_wallet args) × IsCoherent (get_wallet env args w).1.store
  unfolding get_wallet
  get_wallet_lem args w h (accounts, wallets) =
      elim (Option-cases (w.store.wallets (account_cache_key args))) [
        | inr (a, e) ↦ rw e (sym (wallets args a h e), (accounts, wallets))
        | inl n ↦ elim (Result-cases (made_wallet args)) [
          | inr (t, k) ↦ rw (n, k) (refl, (accounts, wallets))
          | inl (a, k) ↦
              rw (n, k) (refl, keep_wallet-IsCoherent args a w.store h k (accounts, wallets))
        ]
      ]

  after_calls-IsCoherent :
      (cs : List Call) (w : World Caches)
      → All (λ c. IsAddressed (args_of c)) cs
      → IsCoherent w.store
      → IsCoherent (after_calls cs w).store
  after_calls-IsCoherent [] w h k = k
  after_calls-IsCoherent (for_account a ∷ cs) w (h, hs) k =
      after_calls-IsCoherent cs (get_account env a w).1 hs (get_account_lem a w h k).1
  after_calls-IsCoherent (for_wallet a ∷ cs) w (h, hs) k =
      after_calls-IsCoherent cs (get_wallet env a w).1 hs (get_wallet_lem a w h k).1

  -- After any calls of `getAccount` and `getWallet` from empty caches, for addresses without a dash,
  -- both give for any such arguments what they would make without a cache, errors included: no
  -- wallet or account of another chain, address or smart account is taken for theirs.
  pub get_account_cached :
      (cs : List Call) (args : AccountArgs)
      → All (λ c. IsAddressed (args_of c)) cs
      → IsAddressed args
      → let w = after_calls cs no_entries in
        ((get_account env args w).0 ≡ made_account args)
        × ((get_wallet env args w).0 ≡ made_wallet args)
  get_account_cached cs args hs h =
      let k = after_calls-IsCoherent cs no_entries hs ((λ _ _ _ e. cc), (λ _ _ _ e. cc)) in
      ((get_account_lem args _ h k).0, (get_wallet_lem args _ h k).0)
