-- ===== src/NonceHealth/Stuck.antt =====
-- When a queue is stuck: `isQueueStuck` of src/worker/tasks/nonceHealthCheckWorker.ts.
use thirdweb_engine.Base.{◌≡◌, ◌↔◌, ◌<◌, true, false, List, [], ◌∷◌, length, arith}
use thirdweb_engine.Base.Int.{◌<ℤ◌, ==ℤ_iff}
use thirdweb_engine.Redis.Values.{NonceState}
use thirdweb_engine.NonceHealth.{is_stuck, stuck_from}

-- Of three states, newest first, the queue is stuck exactly if the onchain nonce is the same in all
-- of them while the largest sent nonce went up each time.
pub is_stuck_iff :
    (x y z : NonceState)
    → (is_stuck (x ∷ y ∷ z ∷ []) ≡ true) ↔ (
        ((x.onchain_nonce ≡ z.onchain_nonce) × (y.onchain_nonce ≡ z.onchain_nonce))
        × ((z.largest_sent_nonce <ℤ y.largest_sent_nonce)
            × (y.largest_sent_nonce <ℤ x.largest_sent_nonce)))
unfolding is_stuck stuck_from
is_stuck_iff x y z = ground (
  arith,
  ==ℤ_iff x.onchain_nonce z.onchain_nonce,
  ==ℤ_iff y.onchain_nonce z.onchain_nonce,
  ==ℤ_iff z.onchain_nonce z.onchain_nonce,
)

-- With fewer than three states it is not.
pub is_stuck-few : (l : List NonceState) → length l < 3 → is_stuck l ≡ false
unfolding is_stuck
is_stuck-few l h = ground arith
