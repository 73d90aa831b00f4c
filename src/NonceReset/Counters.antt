-- ===== src/NonceReset/Counters.antt =====
-- The counters after a reset of the nonces: src/server/routes/backend-wallet/resetNonces.ts.
use thirdweb_engine.Base.{
  ℕ, ◌≡◌, refl, ◌∙◌, sym, Bool, true, false, none, List, [], ◌∷◌, any, All, Bool-cases, inl, inr,
}
use thirdweb_engine.Base.Int.{pred_ℕ}
use thirdweb_engine.Base.Text.{to_lower}
use thirdweb_engine.Redis.{Redis}
use thirdweb_engine.Redis.Values.{
  Wallet, Key, key_eq, wallet_eq, last_used, recycled, sent_nonces, number, absent, exists,
}
use thirdweb_engine.Engine.{World, ok, Result-cases, ok_inj}
use thirdweb_engine.Env.{Env}
use thirdweb_engine.Nonce.{wallet_key, delete_all_nonces, sync_latest_nonce_from_onchain}
use thirdweb_engine.Nonce.Sync.{delete_all_nonces_lem}
use thirdweb_engine.NonceDetails.{UsedWallet, used_wallets}
use thirdweb_engine.NonceDetails.Failing.{wallet_eq_sound}
use thirdweb_engine.NonceReset.{all_used_wallets, sync_settled, reset_nonces}

module _ (R : Redis) (env : Env) where
  open R use {Store, at, keys, at-set, keys_complete}

  -- The `getUsedBackendWallets` of the file is the one of walletNonce.ts without its filters.
  pub all_used_wallets_lem :
      (ks : List Key) → all_used_wallets R env ks ≡ used_wallets R env none none ks
  unfolding all_used_wallets used_wallets
  all_used_wallets_lem [] = refl
  all_used_wallets_lem (last_used w ∷ ks) = rw (all_used_wallets_lem ks) refl
  all_used_wallets_lem (_ ∷ ks) = all_used_wallets_lem ks

  sync_settled-ok : (us : List UsedWallet) (w : World Store) → (sync_settled R env us w).0 ≡ ok tt
  unfolding sync_settled sync_latest_nonce_from_onchain
  sync_settled-ok [] w = refl
  sync_settled-ok ((c, a) ∷ us) w = elim (Result-cases (env.transaction_count c a)) [
    | inl (n, h) ↦ simp h (sync_settled-ok us _)
    | inr (e, h) ↦ simp h (sync_settled-ok us _)
  ]

  -- Keys other than counters are not written.
  sync_settled-other :
      (k : Key) (us : List UsedWallet) (w : World Store)
      → ((v : Wallet) → key_eq k (last_used v) ≡ false)
      → at (sync_settled R env us w).1.store k ≡ at w.store k
  unfolding sync_settled sync_latest_nonce_from_onchain
  sync_settled-other k [] w other = refl
  sync_settled-other k ((c, a) ∷ us) w other = elim (Result-cases (env.transaction_count c a)) [
    | inl (n, h) ↦ simp h (sync_settled-other k us _ other ∙ rw (at-set, other) refl)
    | inr (e, h) ↦ simp h (sync_settled-other k us _ other)
  ]

  -- A key of a counter holds the address in the form that the program writes.
  abbrev pub IsLower : Key → Type 0
  IsLower (last_used u) = to_lower (env.checksum u.address) ≡ u.address
  IsLower _ = Unit {0}

  module _ (v : Wallet) (count : ℕ) where
    -- What the chain counts for a used wallet that is `v` is `count`.
    Counts : UsedWallet → Type 0
    Counts (c, a) = wallet_eq v (wallet_key c a) ≡ true → env.transaction_count c a ≡ ok count

    is_here : UsedWallet → Bool
    is_here (c, a) = wallet_eq v (wallet_key c a)

    sync_settled-keeps :
        (us : List UsedWallet) (w : World Store)
        → All Counts us
        → at w.store (last_used v) ≡ number (pred_ℕ count)
        → at (sync_settled R env us w).1.store (last_used v) ≡ number (pred_ℕ count)
    unfolding sync_settled sync_latest_nonce_from_onchain key_eq Counts
    sync_settled-keeps [] w l h = h
    sync_settled-keeps ((c, a) ∷ us) w (counts, l) h =
        elim (Result-cases (env.transaction_count c a)) [
          | inr (e, k) ↦ simp k (sync_settled-keeps us w l h)
          | inl (n, k) ↦ elim (Bool-cases (wallet_eq v (wallet_key c a))) [
            | inl same ↦
                let count_is : n ≡ count = ok_inj (sym k ∙ counts same) in
                simp k (sync_settled-keeps us _ l (rw (at-set) (rw (same, count_is) refl)))
            | inr other ↦ simp k (sync_settled-keeps us _ l (rw (at-set) (rw other h)))
          ]
        ]

    sync_settled-sets :
        (us : List UsedWallet) (w : World Store)
        → All Counts us
        → any is_here us ≡ true
        → at (sync_settled R env us w).1.store (last_used v) ≡ number (pred_ℕ count)
    unfolding sync_settled sync_latest_nonce_from_onchain key_eq Counts is_here
    sync_settled-sets [] w l e = cc
    sync_settled-sets ((c, a) ∷ us) w (counts, l) e =
        elim (Bool-cases (wallet_eq v (wallet_key c a))) [
          | inl same ↦ simp (counts same) (sync_settled-keeps us _ l (rw (at-set) (rw same refl)))
          | inr other ↦ elim (Result-cases (env.transaction_count c a)) [
            | inr (_, k) ↦ simp k (sync_settled-sets us _ l (simp other at e))
            | inl (_, k) ↦ simp k (sync_settled-sets us _ l (simp other at e))
          ]
        ]

    used-Counts :
        (ks : List Key)
        → env.transaction_count v.chain_id (env.checksum v.address) ≡ ok count
        → All IsLower ks
        → All Counts (all_used_wallets R env ks)
    unfolding all_used_wallets Counts wallet_key
    used-Counts [] t l = tt
    used-Counts (last_used u ∷ ks) t (low, l) =
        (λ same. rw (← wallet_eq_sound v u (rw low at same)) t, used-Counts ks t l)
    used-Counts (_ ∷ ks) t (_, l) = used-Counts ks t l

    used-here :
        (ks : List Key)
        → All IsLower ks
        → any (key_eq (last_used v)) ks ≡ true
        → any is_here (all_used_wallets R env ks) ≡ true
    unfolding all_used_wallets key_eq is_here wallet_key wallet_eq
    used-here [] l e = e
    used-here (last_used u ∷ ks) (low, l) e = elim (Bool-cases (wallet_eq v u)) [
      | inl same ↦ simp (low, same)
      | inr other ↦ simp (low, other) (used-here ks l (simp other at e))
    ]
    used-here (_ ∷ ks) (_, l) e = used-here ks l e

    -- When every key of a counter holds the address as the program writes it, the reset succeeds. A
    -- wallet that has a counter, whose transaction count the chain answers, gets the last nonce that
    -- the chain counted as its counter; and the recycled nonces of every wallet are gone, while the
    -- sent nonces of every wallet stay.
    pub reset_nonces_lem :
        (w : World Store)
        → All IsLower (keys w.store "nonce:")
        → exists (at w.store (last_used v)) ≡ true
        → env.transaction_count v.chain_id (env.checksum v.address) ≡ ok count
        → let (res, w') = reset_nonces R env w in
          (res ≡ ok tt)
          × (at w'.store (last_used v) ≡ number (pred_ℕ count))
          × ((u : Wallet)
              → (at w'.store (recycled u) ≡ absent)
                × (at w'.store (sent_nonces u) ≡ at w.store (sent_nonces u)))
    unfolding reset_nonces key_eq delete_all_nonces
    reset_nonces_lem w l there t =
        let us = all_used_wallets R env (keys w.store "nonce:") in
        let cleared = (delete_all_nonces R w).1 in
        (
          sync_settled-ok us cleared,
          sync_settled-sets us cleared (used-Counts _ t l)
              (used-here _ l (keys_complete w.store (last_used v) there)),
          λ u. (
            sync_settled-other (recycled u) us cleared (λ _. refl)
                ∙ (delete_all_nonces_lem R w u).1,
            sync_settled-other (sent_nonces u) us cleared (λ _. refl)
                ∙ (delete_all_nonces_lem R w u).2,
          ),
        )
