-- ===== src/NoncePool/Acquires.antt =====
-- Acquiring a nonce keeps the pool in order: see IsPool.
use thirdweb_engine.Base.{
  ℕ, zero, suc, ◌<◌, ◌≡◌, refl, ◌∙◌, String, List, [], ◌∷◌, some, none, arith, ◌⊎◌, inl, inr,
}
use thirdweb_engine.Base.Int.{ℤ, pos, ==ℤ_iff}
use thirdweb_engine.Redis.{Redis}
use thirdweb_engine.Redis.Values.{recycled, Member, nonce, queue_id, absent, sorted, Value, entries}
use thirdweb_engine.Engine.{World}
use thirdweb_engine.Transaction.{Address}
use thirdweb_engine.Env.{Env}
use thirdweb_engine.Nonce.{wallet_key, acquire_nonce}
use thirdweb_engine.Nonce.Acquire.{
  acquire_nonce-recycled, acquire_nonce-next, acquire_nonce-popped, zpopmin_value-IsNonceList,
}
use thirdweb_engine.NoncePool.{IsPool}
use thirdweb_engine.NoncePool.Tokens.{count, count_entries, IsNonceList}
use thirdweb_engine.NoncePool.Steps.{fewer_owners}

-- A sorted set of nonces is empty, or begins with a nonce.
pub IsNonceList-cases :
    (v : Value)
    → IsNonceList v
    → (entries v ≡ [])
      ⊎ ((c : ℤ) × (n : ℤ) × (rest : List (ℤ × Member)) × (v ≡ sorted ((c, nonce n) ∷ rest)))
IsNonceList-cases absent h = inl refl
IsNonceList-cases (sorted []) h = inl refl
IsNonceList-cases (sorted ((c, nonce n) ∷ rest)) h = inr (c, n, rest, refl)
IsNonceList-cases (sorted ((c, queue_id i) ∷ rest)) h = cc
IsNonceList-cases _ h = absurd h

pub positive_pred : (top : ℕ) → 0 < top → (k : ℕ) × (top ≡ suc k)
positive_pred zero h = absurd (omega arith)
positive_pred (suc k) h = (k, refl)

module _ (R : Redis) (env : Env) (id : String) (chain : ℕ) (from : Address)
    (w : World (Redis.Store R)) (held : List ℤ) where
  open R use {Store, at}

  abbrev pub after : World Store
  after = (acquire_nonce R env id chain from w).1

  -- A recycled nonce passes to the job.
  pub acquires_recycled :
      (top : ℕ) (c n : ℤ) (rest : List (ℤ × Member))
      → IsPool R (wallet_key chain from) top w.store held
      → at w.store (recycled (wallet_key chain from)) ≡ sorted ((c, nonce n) ∷ rest)
      → IsPool R (wallet_key chain from) top after.store (n ∷ held)
  unfolding count count_entries
  acquires_recycled top c n rest p found =
      let key = wallet_key chain from in
      let (k, counted) = positive_pred top p.positive in
      let (_, popped, counter, sent, _) =
        acquire_nonce-recycled R env id chain from w c n rest found in
      let left =
        acquire_nonce-popped R env id chain from w (some n) k (rw found) (p.counter ∙ rw counted) in
      fewer_owners R key top w held p after.store (n ∷ held) counter
        (rw left (zpopmin_value-IsNonceList _ p.nonce_list)) (rw sent p.member_set)
        λ k. rw (popped, sent, found) (ground arith)

  -- A nonce above the counter has its first owner.
  pub acquires_next :
      (k : ℕ)
      → IsPool R (wallet_key chain from) (suc k) w.store held
      → entries (at w.store (recycled (wallet_key chain from))) ≡ []
      → IsPool R (wallet_key chain from) (suc (suc k)) after.store (pos (suc (suc k)) ∷ held)
  unfolding count count_entries
  acquires_next k p empty =
      let (_, counter, still, sent, _) =
        acquire_nonce-next R env id chain from w k empty p.counter in
      let left = acquire_nonce-popped R env id chain from w none k (rw empty) p.counter in
      let next = pos (suc (suc k)) in
      record {
        counter = counter;
        positive = omega arith;
        nonce_list = rw left (zpopmin_value-IsNonceList _ p.nonce_list);
        member_set = rw sent p.member_set;
        single = λ n.
            rw (still, sent)
              (ground (arith, rw empty at p.single n, rw empty at p.bounded n, ==ℤ_iff next n));
        bounded = λ n b. rw (still, sent) (ground (arith, rw empty at p.bounded n, ==ℤ_iff next n));
      }
