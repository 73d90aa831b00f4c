-- ===== src/Nonce/Acquire.antt =====
-- Which nonce `acquire_nonce` gives out, and what it leaves in the store.
use thirdweb_engine.Base.{
  ℕ, suc, ◌≡◌, refl, ap, false, String, Option, none, some, List, [], ◌∷◌, arith, ◌⊎◌, inl, inr,
}
use thirdweb_engine.Base.Int.{ℤ, pos, pred_ℕ, suc_ℤ-pred_ℕ, ◌==ℤ◌}
use thirdweb_engine.Transaction.{Address}
use thirdweb_engine.Redis.{Redis}
use thirdweb_engine.Redis.Values.{
  key_eq, wallet_eq_refl, Wallet, last_used, recycled, sent_nonces, Member, nonce, number, absent,
  entries, sorted, zpopmin_value, get_number, Value, incr_value,
}
use thirdweb_engine.Engine.{World, ok}
use thirdweb_engine.Env.{Env}
use thirdweb_engine.NoncePool.Tokens.{IsNonceList}
use thirdweb_engine.Nonce.{
  wallet_key, acquire_nonce, fresh_nonce, incr_last_used, first_nonce, acquire_recycled_nonce,
  update_nonce_map, sync_latest_nonce_from_onchain,
}

entries-zpopmin_value :
    (e : ℤ × Member) (l : List (ℤ × Member)) → entries (zpopmin_value (sorted (e ∷ l))) ≡ l
entries-zpopmin_value e [] = refl
entries-zpopmin_value e (_ ∷ _) = refl

entries-zpopmin_nil : (v : Value) → entries v ≡ [] → entries (zpopmin_value v) ≡ []
entries-zpopmin_nil absent h = refl
entries-zpopmin_nil (sorted []) h = refl
entries-zpopmin_nil (sorted (x ∷ l)) h = cc
entries-zpopmin_nil _ h = refl

-- A pop leaves a set of nonces, empty or not.
pub zpopmin_value-IsNonceList : (v : Value) → IsNonceList v → IsNonceList (zpopmin_value v)
zpopmin_value-IsNonceList absent h = tt
zpopmin_value-IsNonceList (sorted []) h = tt
zpopmin_value-IsNonceList (sorted (_ ∷ [])) h = tt
zpopmin_value-IsNonceList (sorted (_ ∷ _ ∷ _)) h = h.1
zpopmin_value-IsNonceList _ h = absurd h

counts_as_missing :
    (v : Value) → (v ≡ absent) ⊎ (v ≡ number (pos 0)) → get_number (incr_value v) ≡ some (pos 1)
counts_as_missing v (inl e) = rw e
counts_as_missing v (inr e) = rw e

above_one : (k : ℕ) → (pos (suc (suc k)) ==ℤ pos 1) ≡ false
above_one k = ground arith

module _ (R : Redis) (env : Env) where
  open R use {Store, at, set, incr, zpopmin, zadd, at-set, at-incr, at-zadd, at-zpopmin}

  abbrev with_store : World Store → Store → World Store
  with_store w s = record w { store = s }

  -- INCR of a counter.
  pub incr_last_used_lem :
      (k : Wallet) (w : World Store) (n : ℤ)
      → get_number (incr_value (at w.store (last_used k))) ≡ some n
      → incr_last_used R k w ≡ (ok n, with_store w (incr w.store (last_used k)))
  unfolding incr_last_used key_eq
  incr_last_used_lem k w n h = simp (at-incr, wallet_eq_refl, h)

  -- A counter of 1 or more goes up by one.
  pub fresh_nonce-next :
      (chain : ℕ) (from : Address) (w : World Store) (k : ℕ)
      → let key = wallet_key chain from in
        at w.store (last_used key) ≡ number (pos (suc k))
        → fresh_nonce R env chain from w
          ≡ (ok (pos (suc (suc k))), with_store w (incr w.store (last_used key)))
  unfolding fresh_nonce
  fresh_nonce-next chain from w k l =
      simp (incr_last_used_lem (wallet_key chain from) w (pos (suc (suc k))) (rw l), above_one)

  -- A missing counter, or one of 0, is set from the chain.
  pub fresh_nonce-synced :
      (chain : ℕ) (from : Address) (w : World Store) (count : ℕ)
      → let key = wallet_key chain from in
        get_number (incr_value (at w.store (last_used key))) ≡ some (pos 1)
        → env.transaction_count chain from ≡ ok count
        → fresh_nonce R env chain from w ≡ (
          ok (pos count),
          with_store w (
              incr
                (set (incr w.store (last_used key)) (last_used key) (number (pred_ℕ count)))
                (last_used key)),
        )
  unfolding fresh_nonce sync_latest_nonce_from_onchain key_eq
  fresh_nonce-synced chain from w count l t =
      let key = wallet_key chain from in
      let s = incr w.store (last_used key) in
      let w' = with_store w (set s (last_used key) (number (pred_ℕ count))) in
      let first = incr_last_used_lem key w (pos 1) l in
      let second =
        incr_last_used_lem key w' (pos count)
          (simp (at-set, wallet_eq_refl) (ap some (suc_ℤ-pred_ℕ count))) in
      simp (first, t, second)

  -- The pop of a recycled nonce.
  pub acquire_recycled_nonce_lem :
      (k : Wallet) (w : World Store) (found : Option ℤ)
      → first_nonce (entries (at w.store (recycled k))) ≡ found
      → acquire_recycled_nonce R k w ≡ (ok found, with_store w (zpopmin w.store (recycled k)))
  unfolding acquire_recycled_nonce
  acquire_recycled_nonce_lem k w found h = simp h

  module _ (id : String) (chain : ℕ) (from : Address) (w : World Store) where
    abbrev key : Wallet
    key = wallet_key chain from

    -- With recycled nonces the first of them is given out and taken off the set; the counter, the
    -- sent nonces and what was handed out stay as they are. The flag is `false` all the same.
    pub acquire_nonce-recycled :
        (c n : ℤ) (rest : List (ℤ × Member))
        → at w.store (recycled key) ≡ sorted ((c, nonce n) ∷ rest)
        → let (r, w') = acquire_nonce R env id chain from w in
          (r ≡ ok (n, false))
          × (entries (at w'.store (recycled key)) ≡ rest)
          × (at w'.store (last_used key) ≡ at w.store (last_used key))
          × (at w'.store (sent_nonces key) ≡ at w.store (sent_nonces key))
          × (w'.effects ≡ w.effects)
    unfolding acquire_nonce update_nonce_map key_eq
    acquire_nonce-recycled c n rest h =
        simp
          (acquire_recycled_nonce_lem key w (some n) (rw h), at-zadd, at-zpopmin, wallet_eq_refl, h)
          (refl, entries-zpopmin_value (c, nonce n) rest, refl, refl, refl)

    -- In either case the set of recycled nonces is what the pop leaves of it.
    pub acquire_nonce-popped :
        (found : Option ℤ) (k : ℕ)
        → first_nonce (entries (at w.store (recycled key))) ≡ found
        → at w.store (last_used key) ≡ number (pos (suc k))
        → at (acquire_nonce R env id chain from w).1.store (recycled key)
          ≡ zpopmin_value (at w.store (recycled key))
    unfolding acquire_nonce update_nonce_map key_eq
    acquire_nonce-popped (some n) k h l =
        simp (acquire_recycled_nonce_lem key w (some n) h, at-zadd, at-zpopmin, wallet_eq_refl)
    acquire_nonce-popped none k h l =
        let popped = with_store w (zpopmin w.store (recycled key)) in
        let kept : at popped.store (last_used key) ≡ number (pos (suc k)) = simp (at-zpopmin, l) in
        simp (
          acquire_recycled_nonce_lem key w none h,
          fresh_nonce-next chain from popped k kept,
          at-zadd,
          at-incr,
          at-zpopmin,
          wallet_eq_refl,
        )

    -- Without recycled nonces, and with a counter of 1 or more, the counter goes up by one and is
    -- given out; no nonce is recycled or sent, and nothing is handed out.
    pub acquire_nonce-next :
        (k : ℕ)
        → entries (at w.store (recycled key)) ≡ []
        → at w.store (last_used key) ≡ number (pos (suc k))
        → let (r, w') = acquire_nonce R env id chain from w in
          (r ≡ ok (pos (suc (suc k)), false))
          × (at w'.store (last_used key) ≡ number (pos (suc (suc k))))
          × (entries (at w'.store (recycled key)) ≡ [])
          × (at w'.store (sent_nonces key) ≡ at w.store (sent_nonces key))
          × (w'.effects ≡ w.effects)
    unfolding acquire_nonce update_nonce_map key_eq
    acquire_nonce-next k h l =
        let popped = with_store w (zpopmin w.store (recycled key)) in
        let kept : at popped.store (last_used key) ≡ number (pos (suc k)) = simp (at-zpopmin, l) in
        simp
          (
            acquire_recycled_nonce_lem key w none (rw h),
            fresh_nonce-next chain from popped k kept,
            at-zadd,
            at-incr,
            at-zpopmin,
            wallet_eq_refl,
            l,
          )
          (refl, refl, entries-zpopmin_nil _ h, refl, refl)

    -- Without recycled nonces, and with a counter that is missing or 0, the wallet's onchain
    -- transaction count, if the RPC tells it, is given out and is the counter from then on.
    pub acquire_nonce-synced :
        (count : ℕ)
        → entries (at w.store (recycled key)) ≡ []
        → (at w.store (last_used key) ≡ absent) ⊎ (at w.store (last_used key) ≡ number (pos 0))
        → env.transaction_count chain from ≡ ok count
        → let (r, w') = acquire_nonce R env id chain from w in
          (r ≡ ok (pos count, false))
          × (at w'.store (last_used key) ≡ number (pos count))
          × (entries (at w'.store (recycled key)) ≡ [])
    unfolding acquire_nonce update_nonce_map key_eq
    acquire_nonce-synced count h l t =
        let popped = with_store w (zpopmin w.store (recycled key)) in
        let kept : get_number (incr_value (at popped.store (last_used key))) ≡ some (pos 1) =
          simp at-zpopmin (counts_as_missing _ l) in
        simp
          (
            acquire_recycled_nonce_lem key w none (rw h),
            fresh_nonce-synced chain from popped count kept t,
            at-zadd,
            at-incr,
            at-set,
            at-zpopmin,
            wallet_eq_refl,
            suc_ℤ-pred_ℕ,
          )
          (refl, refl, entries-zpopmin_nil _ h)

  -- While the chain counts no transaction of a wallet, and nothing is recycled, two transactions in
  -- a row get the same nonce 0: the counter that the first leaves is 0, which the second takes for a
  -- missing one.
  pub acquire_nonce-repeats :
      (id id' : String) (chain : ℕ) (from : Address) (w : World Store)
      → let key = wallet_key chain from in
        entries (at w.store (recycled key)) ≡ []
        → (at w.store (last_used key) ≡ absent) ⊎ (at w.store (last_used key) ≡ number (pos 0))
        → env.transaction_count chain from ≡ ok 0
        → let (r, w') = acquire_nonce R env id chain from w in
          (r ≡ ok (pos 0, false)) × ((acquire_nonce R env id' chain from w').0 ≡ ok (pos 0, false))
  acquire_nonce-repeats id id' chain from w h l t =
      let (first, counter, empty) = acquire_nonce-synced id chain from w 0 h l t in
      let w' = (acquire_nonce R env id chain from w).1 in
      (first, (acquire_nonce-synced id' chain from w' 0 empty (inr counter) t).0)
