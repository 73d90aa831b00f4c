-- ===== src/NonceDetails/Failing.antt =====
-- That the nonce details cannot be shown while a wallet has recycled nonces:
-- src/server/routes/admin/nonces.ts, with recycleNonce of src/db/wallets/walletNonce.ts.
use thirdweb_engine.Base.{
  ℕ, ◌≡◌, refl, Bool, true, false, none, some, List, [], ◌∷◌, ◌||◌, any, eq_iff, arith, Bool-cases,
  inl, inr,
}
use thirdweb_engine.Base.Int.{ℤ}
use thirdweb_engine.Transaction.{Address}
use thirdweb_engine.Redis.{Redis}
use thirdweb_engine.Redis.Values.{
  Wallet, Key, key_eq, wallet_eq_refl, wallet_eq, last_used, recycled, sent_nonces, Value, Member,
  nonce, absent, sorted, exists, zadd_value,
}
use thirdweb_engine.Engine.{World, Result, ok, err, error, Result-cases}
use thirdweb_engine.Env.{Env}
use thirdweb_engine.Nonce.{wallet_key, recycle_nonce}
use thirdweb_engine.NonceDetails.{
  UsedWallet, smembers, used_wallets, get_used_backend_wallets, wallet_details, all_details,
  get_nonce_details,
}

abbrev pub fails {ℓ} : {A : Type ℓ} → Result A → Bool
fails (ok _) = false
fails (err _) = true

or_true_right : (a : Bool) → (a || true) ≡ true
or_true_right true = refl
or_true_right false = refl

-- The value is what the program leaves at a key of recycled nonces: a sorted set or nothing.
abbrev pub is_set_or_absent : Value → Bool
is_set_or_absent (sorted _) = true
is_set_or_absent absent = true
is_set_or_absent _ = false

-- The value is a sorted set.
abbrev pub is_sorted : Value → Bool
is_sorted (sorted _) = true
is_sorted _ = false

is_sorted-zadd :
    (lex : Member → Member → Bool) (n : ℤ) (m : Member) (v : Value)
    → is_set_or_absent v ≡ true
    → is_sorted (zadd_value lex n m v) ≡ true
is_sorted-zadd lex n m (sorted _) h = refl
is_sorted-zadd lex n m absent h = refl
is_sorted-zadd lex n m (Value.number _) h = cc
is_sorted-zadd lex n m (Value.json _) h = cc
is_sorted-zadd lex n m (Value.members _) h = cc
is_sorted-zadd lex n m (Value.history _) h = cc

smembers-sorted :
    (v : Value)
    → is_sorted v ≡ true
    → smembers v ≡ error "Cannot read properties of undefined (reading 'map')"
smembers-sorted (sorted _) h = refl
smembers-sorted absent h = cc
smembers-sorted (Value.number _) h = cc
smembers-sorted (Value.json _) h = cc
smembers-sorted (Value.members _) h = cc
smembers-sorted (Value.history _) h = cc

pub wallet_eq_sound : (v w : Wallet) → wallet_eq v w ≡ true → v ≡ w
unfolding wallet_eq
wallet_eq_sound v w h = ground (arith, eq_iff v.address w.address)

module _ (R : Redis) (env : Env) where
  open R use {Store, at, keys, keys_complete, at-zadd, lex}

  wallet_details-fails :
      (s : Store) (chain : ℕ) (address : Address)
      → is_sorted (at s (recycled (wallet_key chain address))) ≡ true
      → fails (wallet_details R env s (chain, address)) ≡ true
  unfolding wallet_details
  wallet_details-fails s chain address h =
      elim (Result-cases (env.transaction_count chain address)) [
        | inr (e, a) ↦ simp a
        | inl (count, a) ↦
            elim (Result-cases (smembers (at s (sent_nonces (wallet_key chain address))))) [
              | inr (e, b) ↦ simp (a, b)
              | inl (sent, b) ↦ simp (a, b, smembers-sorted _ h)
            ]
      ]

  all_details-cons :
      (s : Store) (u : UsedWallet) (us : List UsedWallet)
      → fails (all_details R env s (u ∷ us))
        ≡ (fails (wallet_details R env s u) || fails (all_details R env s us))
  unfolding all_details
  all_details-cons s u us = elim (Result-cases (wallet_details R env s u)) [
    | inr (e, a) ↦ simp a
    | inl (d, a) ↦ elim (Result-cases (all_details R env s us)) [
      | inr (e, b) ↦ simp (a, b)
      | inl (ds, b) ↦ simp (a, b)
    ]
  ]

  module _ (s : Store) (w : Wallet)
      (h : is_sorted (at s (recycled (wallet_key w.chain_id (env.checksum w.address))))
        ≡ true) where
    all_details-fails :
        (ks : List Key)
        → any (key_eq (last_used w)) ks ≡ true
        → fails (all_details R env s (used_wallets R env none none ks)) ≡ true
    unfolding used_wallets key_eq
    all_details-fails [] e = cc
    all_details-fails (last_used v ∷ ks) e = elim (Bool-cases (wallet_eq w v)) [
      | inl same ↦
          rw (← wallet_eq_sound w v same, all_details-cons, wallet_details-fails s w.chain_id _ h)
            refl
      | inr other ↦ rw (all_details-cons, all_details-fails ks (simp other at e)) (or_true_right _)
    ]
    all_details-fails (recycled _ ∷ ks) e = all_details-fails ks e
    all_details-fails (sent_nonces _ ∷ ks) e = all_details-fails ks e
    all_details-fails (Key.nonce_map _ ∷ ks) e = all_details-fails ks e
    all_details-fails (Key.nonce_history _ ∷ ks) e = all_details-fails ks e
    all_details-fails (Key.details _ ∷ ks) e = all_details-fails ks e
    all_details-fails (Key.queued_list ∷ ks) e = all_details-fails ks e
    all_details-fails (Key.mined_list ∷ ks) e = all_details-fails ks e
    all_details-fails (Key.cancelled_list ∷ ks) e = all_details-fails ks e
    all_details-fails (Key.errored_list ∷ ks) e = all_details-fails ks e
    all_details-fails (Key.latest_block _ ∷ ks) e = all_details-fails ks e
    all_details-fails (Key.rate_limit _ ∷ ks) e = all_details-fails ks e

  -- Once a nonce of a wallet that has a counter is recycled, where the key of its recycled nonces
  -- held a sorted set or nothing, the nonce details of all wallets cannot be shown: the route fails.
  pub get_nonce_details-recycled :
      (w : Wallet) (n : ℤ) (world : World Store)
      → let w₁ = wallet_key w.chain_id (env.checksum w.address) in
        let s = (recycle_nonce R w₁ (some n) world).1.store in
        exists (at world.store (last_used w)) ≡ true
        → is_set_or_absent (at world.store (recycled w₁)) ≡ true
        → fails (get_nonce_details R env none none s) ≡ true
  unfolding get_nonce_details get_used_backend_wallets recycle_nonce key_eq
  get_nonce_details-recycled w n world there kind =
      let w₁ = wallet_key w.chain_id (env.checksum w.address) in
      let s = R.zadd world.store (recycled w₁) n (nonce n) in
      let now_sorted : is_sorted (at s (recycled w₁)) ≡ true =
        simp (at-zadd, wallet_eq_refl) (is_sorted-zadd lex n (nonce n) _ kind) in
      let still_there : exists (at s (last_used w)) ≡ true = simp at-zadd there in
      all_details-fails s w now_sorted (keys s "nonce:") (keys_complete s (last_used w) still_there)
