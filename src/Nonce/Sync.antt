-- ===== src/Nonce/Sync.antt =====
-- The counter after a resync from the chain, and what `delete_all_nonces` leaves.

use thirdweb_engine.Base.{
  ℕ, String, ◌≡◌, refl, Bool, true, false, List, [], ◌∷◌, ◌++◌, ◌||◌, any, All, arith, Bool-cases,
  inl, str_eq, eq_iff, inr, if◌then◌else◌,
}
use thirdweb_engine.Base.Int.{ℤ, pred_ℕ, max_ℤ, ◌≤ℤ◌, le-max_left, le-max_right}
use thirdweb_engine.Transaction.{Address}
use thirdweb_engine.Redis.{Redis}
use thirdweb_engine.Redis.Values.{
  Key, key_eq, key_eq-key_prefix, key_prefix, wallet_eq_refl, Wallet, last_used, recycled,
  sent_nonces, number, absent, exists, Value,
}
use thirdweb_engine.Engine.{World, ok}
use thirdweb_engine.Env.{Env}
use thirdweb_engine.Nonce.{
  wallet_key, sync_latest_nonce_from_onchain_if_higher, delete_all_nonces, del_all,
}

module _ (R : Redis) (env : Env) (chain : ℕ) (from : Address) (w : World (Redis.Store R)) where
  open R use {at, at-set}

  -- With a counter of `n`, and if the RPC tells the transaction count, the new counter is the higher
  -- of it and the last onchain nonce: it never goes down, it covers every nonce that is mined, and
  -- it is one of the two. Nothing else changes.
  pub sync_if_higher_max :
      (count : ℕ) (n : ℤ)
      → at w.store (last_used (wallet_key chain from)) ≡ number n
      → env.transaction_count chain from ≡ ok count
      → let (r, w') = sync_latest_nonce_from_onchain_if_higher R env chain from w in
        let m = max_ℤ (pred_ℕ count) n in
        (r ≡ ok m)
        × (at w'.store (last_used (wallet_key chain from)) ≡ number m)
        × (n ≤ℤ m)
        × (pred_ℕ count ≤ℤ m)
        × ((k : Key)
            → at w'.store k
              ≡ (if key_eq k (last_used (wallet_key chain from)) then number m else at w.store k))
  unfolding sync_latest_nonce_from_onchain_if_higher key_eq
  sync_if_higher_max count n l t =
      simp (t, l, at-set, wallet_eq_refl)
        (refl, refl, le-max_right (pred_ℕ count) n, le-max_left (pred_ℕ count) n, λ k. refl)

any-append : (p : Key → Bool) (xs ys : List Key) → any p (xs ++ ys) ≡ (any p xs || any p ys)
any-append p [] ys = refl
any-append p (x ∷ xs) ys = ground (arith, any-append p xs ys)

or_both_ways : (b c : Bool) → c ≡ true → (b || c) ≡ true
or_both_ways true c h = refl
or_both_ways false c h = h

absent_of_not-exists : (v : Value) → exists v ≡ false → v ≡ absent
absent_of_not-exists absent h = refl
absent_of_not-exists _ h = cc

-- No key of another kind is among those listed.
any_of_other_prefix :
    (k : Key) (p : String) (ks : List Key)
    → str_eq (key_prefix k) p ≡ false
    → All (λ j. key_prefix j ≡ p) ks
    → any (key_eq k) ks ≡ false
any_of_other_prefix k p [] ne h = refl
any_of_other_prefix k p (j ∷ ks) ne h =
    ground
      (arith, any_of_other_prefix k p ks ne h.1, key_eq-key_prefix k j, eq_iff (key_prefix k) p)

module _ (R : Redis) where
  open R use {Store, at, keys, keys_sound, keys_complete, at-del}

  at-del_all :
      (ks : List Key) (s : Store) (j : Key)
      → at (del_all R ks s) j ≡ (if any (key_eq j) ks then absent else at s j)
  unfolding del_all
  at-del_all [] s j = refl
  at-del_all (k ∷ ks) s j = rw (at-del_all ks (R.del s k) j) (rw at-del (ground arith))

  abbrev listed : Store → List Key
  listed s = keys s "nonce:" ++ (keys s "nonce-recycled:" ++ keys s "sent-nonce:")

  any-listed :
      (s : Store) (k : Key)
      → any (key_eq k) (listed s) ≡ (
          any (key_eq k) (keys s "nonce:")
          || (any (key_eq k) (keys s "nonce-recycled:") || any (key_eq k) (keys s "sent-nonce:")))
  any-listed s k = simp any-append

  deletes :
      (s : Store) (k : Key)
      → (exists (at s k) ≡ true → any (key_eq k) (listed s) ≡ true)
      → at (del_all R (listed s) s) k ≡ absent
  deletes s k h = elim (Bool-cases (exists (at s k))) [
    | inl there ↦ rw (at-del_all (listed s) s k, h there)
    | inr gone ↦ rw (at-del_all (listed s) s k) (rw (absent_of_not-exists _ gone) (ground arith))
  ]

  keeps :
      (s : Store) (k : Key)
      → any (key_eq k) (listed s) ≡ false
      → at (del_all R (listed s) s) k ≡ at s k
  keeps s k h = rw (at-del_all (listed s) s k, h)

  -- `deleteAllNonces` deletes every counter and every set of recycled nonces, and leaves every set
  -- of sent nonces as it was: it looks for those under another name than they are written under.
  pub delete_all_nonces_lem :
      (w : World Store) (v : Wallet)
      → let s = (delete_all_nonces R w).1.store in
        (at s (last_used v) ≡ absent)
        × (at s (recycled v) ≡ absent)
        × (at s (sent_nonces v) ≡ at w.store (sent_nonces v))
  unfolding delete_all_nonces
  delete_all_nonces_lem w v =
      let s = w.store in
      (
        deletes s (last_used v)
            (λ h. rw (any-listed s (last_used v), keys_complete s (last_used v) h)),
        deletes s (recycled v) (λ h.
            rw (any-listed s (recycled v), keys_complete s (recycled v) h)
              (or_both_ways _ true refl)),
        keeps s (sent_nonces v) (
            rw (
              any-listed s (sent_nonces v),
              any_of_other_prefix (sent_nonces v) "nonce:" _ refl (keys_sound s "nonce:"),
              any_of_other_prefix (sent_nonces v) "nonce-recycled:" _ refl
                  (keys_sound s "nonce-recycled:"),
              any_of_other_prefix (sent_nonces v) "sent-nonce:" _ refl (keys_sound s "sent-nonce:"),
            )),
      )
