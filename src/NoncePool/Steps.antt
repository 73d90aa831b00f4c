-- ===== src/NoncePool/Steps.antt =====
-- Every step keeps the pool in order: see IsPool.
use thirdweb_engine.Base.{
  ℕ, zero, suc, ◌+◌, ◌≤◌, ◌<◌, ◌≡◌, ap, ◌∙◌, true, List, ◌++◌, some, arith, inl, inr, Bool-cases,
  leb,
}
use thirdweb_engine.Base.Int.{ℤ, pos, pred_ℕ, max_ℤ, ◌==ℤ◌, ==ℤ_iff}
use mathlib.Core.Path.{subst}
use thirdweb_engine.Redis.{Redis}
use thirdweb_engine.Redis.Values.{
  key_eq, wallet_eq_refl, Wallet, last_used, recycled, sent_nonces, nonce, number, entries, has,
}
use thirdweb_engine.Engine.{World, ok, Result-cases}
use thirdweb_engine.Transaction.{Address}
use thirdweb_engine.Env.{Env}
use thirdweb_engine.Nonce.{
  wallet_key, add_sent_nonce, recycle_nonce, remove_sent_nonce,
  sync_latest_nonce_from_onchain_if_higher,
}
use thirdweb_engine.Cancel.{member_nonces, get_and_delete_recycled_nonces}
use thirdweb_engine.NoncePool.{owners, IsPool}
use thirdweb_engine.NoncePool.Tokens.{
  count, count_entries, count_entries-zadd_value, count-append, count-member_nonces, erase,
  count-erase_self, count-erase_ne, bit, has-sadd_value, sadd_value-IsMemberSet, has-srem_value,
  srem_value-IsMemberSet, zadd_value-IsNonceList, IsNonceList, IsMemberSet,
}

module _ (R : Redis) (key : Wallet) (top : ℕ) (w : World (Redis.Store R)) (held : List ℤ)
    (p : IsPool R key top w.store held) where
  open R use {Store, at, at-sadd, at-srem, at-zadd, at-del}

  -- What shows that a step keeps the pool in order: no nonce gets more owners, under a counter
  -- that is not lower.
  fewer_owners_raised :
      (top' : ℕ) (s : Store) (held' : List ℤ)
      → top ≤ top'
      → at s (last_used key) ≡ number (pos top')
      → IsNonceList (at s (recycled key))
      → IsMemberSet (at s (sent_nonces key))
      → ((k : ℤ) → owners R key s held' k ≤ owners R key w.store held k)
      → IsPool R key top' s held'
  fewer_owners_raised top' s held' higher counter l m le = record {
    counter = counter;
    positive = omega (arith, p.positive);
    nonce_list = l;
    member_set = m;
    single = λ k. omega (arith, le k, p.single k);
    bounded = λ k b. omega (arith, le k, p.bounded k (omega arith));
  }

  pub fewer_owners :
      (s : Store) (held' : List ℤ)
      → at s (last_used key) ≡ at w.store (last_used key)
      → IsNonceList (at s (recycled key))
      → IsMemberSet (at s (sent_nonces key))
      → ((k : ℤ) → owners R key s held' k ≤ owners R key w.store held k)
      → IsPool R key top s held'
  fewer_owners s held' same = fewer_owners_raised top s held' (omega arith) (same ∙ p.counter)

  -- A nonce that leaves the jobs' hands is in them once less.
  count-held : (n k : ℤ) → 0 < count n held → count k (erase n held) + bit (n ==ℤ k) ≡ count k held
  count-held n k h = elim (Bool-cases (n ==ℤ k)) [
    | inl same ↦ let e = (==ℤ_iff n k).0 same in rw (same, ← e) (count-erase_self n held h)
    | inr other ↦ rw (other, count-erase_ne n k held other) (omega arith)
  ]

  pub sends-IsPool :
      (n : ℤ)
      → 0 < count n held
      → IsPool R key top (add_sent_nonce R key n w).1.store (erase n held)
  unfolding add_sent_nonce key_eq
  sends-IsPool n h =
      fewer_owners (R.sadd w.store (sent_nonces key) (nonce n)) (erase n held) (simp at-sadd)
        (simp at-sadd p.nonce_list)
        (simp (at-sadd, wallet_eq_refl) (sadd_value-IsMemberSet (nonce n) _ p.member_set))
        λ k.
          simp (at-sadd, wallet_eq_refl, has-sadd_value n k _ p.member_set)
            (ground (arith, count-held n k h))

  pub gives_back-IsPool :
      (n : ℤ)
      → 0 < count n held
      → IsPool R key top (recycle_nonce R key (some n) w).1.store (erase n held)
  unfolding recycle_nonce key_eq
  gives_back-IsPool n h =
      fewer_owners (R.zadd w.store (recycled key) n (nonce n)) (erase n held) (simp at-zadd)
        (simp (at-zadd, wallet_eq_refl) (zadd_value-IsNonceList R.lex n n _ p.nonce_list))
        (simp at-zadd p.member_set)
        λ k.
          simp (at-zadd, wallet_eq_refl, count_entries-zadd_value R.lex n k n _ p.nonce_list)
            (ground (arith, count-held n k h))

  pub mines-IsPool : (n : ℤ) → IsPool R key top (remove_sent_nonce R key n w).1.store held
  unfolding remove_sent_nonce key_eq
  mines-IsPool n =
      fewer_owners (R.srem w.store (sent_nonces key) (nonce n)) held (simp at-srem)
        (simp at-srem p.nonce_list)
        (simp (at-srem, wallet_eq_refl) (srem_value-IsMemberSet (nonce n) _ p.member_set))
        λ k. simp (at-srem, wallet_eq_refl, has-srem_value n k) (ground arith)

  pub times_out-IsPool :
      (n : ℤ)
      → has (nonce n) (at w.store (sent_nonces key)) ≡ true
      → IsPool R key top (remove_sent_nonce R key n (recycle_nonce R key (some n) w).1).1.store held
  unfolding remove_sent_nonce recycle_nonce key_eq
  times_out-IsPool n h =
      fewer_owners (R.srem (R.zadd w.store (recycled key) n (nonce n)) (sent_nonces key) (nonce n))
        held (simp (at-srem, at-zadd))
        (simp (at-srem, at-zadd, wallet_eq_refl) (zadd_value-IsNonceList R.lex n n _ p.nonce_list))
        (simp (at-srem, at-zadd, wallet_eq_refl) (srem_value-IsMemberSet (nonce n) _ p.member_set))
        λ k.
          simp
            (
              at-srem,
              at-zadd,
              wallet_eq_refl,
              has-srem_value n k,
              count_entries-zadd_value R.lex n k n _ p.nonce_list,
            )
            (ground (arith, ==ℤ_iff n k))

  pub takes_recycled-IsPool :
      (env : Env)
      → IsPool R key top
          (get_and_delete_recycled_nonces R env (recycled key) w).1.store
          (member_nonces (entries (at w.store (recycled key))) ++ held)
  unfolding get_and_delete_recycled_nonces key_eq count_entries
  takes_recycled-IsPool env =
      fewer_owners (R.del w.store (recycled key)) _ (simp at-del) (simp (at-del, wallet_eq_refl) tt)
        (simp at-del p.member_set)
        λ k. simp (at-del, wallet_eq_refl, count-append, count-member_nonces) (omega arith)

-- The higher of a counter and of the last onchain nonce is a counter.
max_counter : (c t : ℕ) → (m : ℕ) × (max_ℤ (pred_ℕ c) (pos t) ≡ pos m) × (t ≤ m)
max_counter zero t = (t, ground arith, omega arith)
max_counter (suc c) t = elim (Bool-cases (leb c t)) [
  | inl le ↦ (t, ground arith, omega arith)
  | inr gt ↦ (c, ground arith, ground arith)
]

module _ (R : Redis) (env : Env) (chain : ℕ) (from : Address) where
  open R use {Store, at, at-set, at-zpopmin, at-incr, at-zadd}

  abbrev key : Wallet
  key = wallet_key chain from

  -- The pool is in order under some counter.
  abbrev InOrder : World Store → List ℤ → Type 0
  InOrder w held = (top : ℕ) × IsPool R key top w.store held

  pub drops-InOrder :
      (w w' : World Store) (held : List ℤ) (n m : ℤ)
      → InOrder w held
      → 0 < count n held
      → sync_latest_nonce_from_onchain_if_higher R env chain from w ≡ (ok m, w')
      → InOrder w' (erase n held)
  unfolding sync_latest_nonce_from_onchain_if_higher key_eq
  drops-InOrder w w' held n m (top, p) h e =
      elim (Result-cases (env.transaction_count chain from)) [
        | inl (c, counted) ↦
            let (top', max, le) = max_counter c top in
            let s = R.set w.store (last_used key) (number (pos top')) in
            let reached : record w { store = s } ≡ w' =
              ap (λ r. r.1) (simp (counted, p.counter, max) at e) in
            (
              top',
              subst (λ v. IsPool R key top' v.store (erase n held)) reached
                  (fewer_owners_raised R key top w held p top' s (erase n held) le
                    (simp (at-set, wallet_eq_refl)) (simp at-set p.nonce_list)
                    (simp at-set p.member_set)
                    (λ k. simp at-set (omega (arith, count-held R key top w held p n k h)))),
            )
        | inr (x, failed) ↦ cc (simp failed at e)
      ]
