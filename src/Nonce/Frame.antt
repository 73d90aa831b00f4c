-- ===== src/Nonce/Frame.antt =====
-- What acquiring a nonce leaves alone: the stored transactions and the sent nonces.
use thirdweb_engine.Base.{ℕ, ◌≡◌, refl, ◌∙◌, String, some, none, inl, inr, Bool-cases, Option-cases}
use thirdweb_engine.Base.Int.{ℤ, pos, ◌==ℤ◌}
use thirdweb_engine.Transaction.{Address}
use thirdweb_engine.Redis.{Redis}
use thirdweb_engine.Redis.Values.{key_eq, Wallet, recycled, sent_nonces, details, entries}
use thirdweb_engine.Engine.{World, Result, ok, err, Result-cases}
use thirdweb_engine.Env.{Env}
use thirdweb_engine.Nonce.{
  wallet_key, acquire_nonce, fresh_nonce, incr_last_used, first_nonce, update_nonce_map,
  sync_latest_nonce_from_onchain,
}
use thirdweb_engine.Nonce.Acquire.{acquire_recycled_nonce_lem}

run_path : {S A : Type 0} (m : Result A × World S) (r : Result A) → m.0 ≡ r → m ≡ (r, m.1)
run_path m r h = cc

module _ (R : Redis) (env : Env) where
  open R use {Store, at, at-set, at-incr, at-zadd, at-zpopmin}

  -- The transactions and the sets of sent nonces are the same.
  abbrev pub IsSame : Store → Store → Type 0
  IsSame s s' =
      ((j : String) → at s' (details j) ≡ at s (details j))
      × ((v : Wallet) → at s' (sent_nonces v) ≡ at s (sent_nonces v))

  IsSame-trans : (s s' s'' : Store) → IsSame s s' → IsSame s' s'' → IsSame s s''
  IsSame-trans s s' s'' (a, b) (c, d) = (λ j. c j ∙ a j, λ v. d v ∙ b v)

  IsSame-incr : (k : Wallet) (w : World Store) → IsSame w.store (incr_last_used R k w).1.store
  unfolding incr_last_used key_eq
  IsSame-incr k w = simp at-incr (λ j. refl, λ v. refl)

  IsSame-sync :
      (chain : ℕ) (from : Address) (w : World Store)
      → IsSame w.store (sync_latest_nonce_from_onchain R env chain from w).1.store
  unfolding sync_latest_nonce_from_onchain key_eq
  IsSame-sync chain from w = elim (Result-cases (env.transaction_count chain from)) [
    | inl (c, h) ↦ simp (h, at-set) (λ j. refl, λ v. refl)
    | inr (e, h) ↦ simp h (λ j. refl, λ v. refl)
  ]

  IsSame-fresh :
      (chain : ℕ) (from : Address) (w : World Store)
      → IsSame w.store (fresh_nonce R env chain from w).1.store
  unfolding fresh_nonce
  IsSame-fresh chain from w =
      let k = wallet_key chain from in
      let m = incr_last_used R k w in
      let sync = sync_latest_nonce_from_onchain R env chain from m.1 in
      elim (Result-cases m.0) [
        | inr (e, h) ↦ rw (run_path m (err e) h) (IsSame-incr k w)
        | inl (n, h) ↦ elim (Bool-cases (n ==ℤ pos 1)) [
          | inr other ↦ rw (run_path m (ok n) h, other) (IsSame-incr k w)
          | inl one ↦ elim (Result-cases sync.0) [
            | inr (e, f) ↦
                rw (run_path m (ok n) h, one, run_path sync (err e) f)
                  (IsSame-trans _ _ _ (IsSame-incr k w) (IsSame-sync chain from m.1))
            | inl (u, f) ↦
                rw (run_path m (ok n) h, one, run_path sync (ok u) f)
                  (IsSame-trans _ _ _ (IsSame-incr k w)
                    (IsSame-trans _ _ _ (IsSame-sync chain from m.1) (IsSame-incr k sync.1)))
          ]
        ]
      ]

  IsSame-popped : (k : Wallet) (w : World Store) → IsSame w.store (R.zpopmin w.store (recycled k))
  unfolding key_eq
  IsSame-popped k w = simp at-zpopmin (λ j. refl, λ v. refl)

  IsSame-mapped :
      (k : Wallet) (n : ℤ) (id : String) (w : World Store)
      → IsSame w.store (update_nonce_map R k n id w).1.store
  unfolding key_eq update_nonce_map
  IsSame-mapped k n id w = simp at-zadd (λ j. refl, λ v. refl)

  -- Whether it succeeds or not, acquiring a nonce changes no transaction and no set of sent nonces.
  pub acquire_nonce-IsSame :
      (id : String) (chain : ℕ) (from : Address) (w : World Store)
      → IsSame w.store (acquire_nonce R env id chain from w).1.store
  unfolding acquire_nonce update_nonce_map
  acquire_nonce-IsSame id chain from w =
      let k = wallet_key chain from in
      let first = acquire_recycled_nonce_lem R env k w in
      let w₁ : World Store = record w { store = R.zpopmin w.store (recycled k) } in
      let m = fresh_nonce R env chain from w₁ in
      elim (Option-cases (first_nonce (entries (at w.store (recycled k))))) [
        | inr (n, found) ↦
            rw (first (some n) found)
              (IsSame-trans _ _ _ (IsSame-popped k w) (IsSame-mapped k n id w₁))
        | inl empty ↦ elim (Result-cases m.0) [
          | inr (e, h) ↦
              rw (first none empty, run_path m (err e) h)
                (IsSame-trans _ _ _ (IsSame-popped k w) (IsSame-fresh chain from w₁))
          | inl (n, h) ↦
              rw (first none empty, run_path m (ok n) h)
                (IsSame-trans _ _ _ (IsSame-popped k w)
                  (IsSame-trans _ _ _ (IsSame-fresh chain from w₁) (IsSame-mapped k n id m.1)))
        ]
      ]
