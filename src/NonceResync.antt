-- ===== src/NonceResync.antt =====
-- The worker that recycles skipped nonces: src/worker/tasks/nonceResyncWorker.ts. Its log lines are
-- left out.
pub mod Missing
use thirdweb_engine.Base.{
  ℕ, zero, suc, ◌-◌, Bool, true, false, not, some, List, [], ◌∷◌, if◌then◌else◌,
}
use thirdweb_engine.Base.Int.{ℤ, pos, negsuc, leb_ℤ, pred_ℕ}
use thirdweb_engine.Redis.{Redis}
use thirdweb_engine.Redis.Values.{Wallet, Key, sent_nonces}
use thirdweb_engine.Engine.{Task, pure, lift, gets, when, ◌>>=◌, ◌>>◌}
use thirdweb_engine.Env.{Env}
use thirdweb_engine.Nonce.{inspect_nonce, is_sent_nonce, recycle_nonce}

-- The number of nonces from `from` up to `to`, which is left out: the rounds of the loop.
abbrev pub rounds_to : ℕ → ℤ → ℕ
rounds_to from (pos to) = to - from
rounds_to from (negsuc _) = 0

module _ (R : Redis) where
  open R use {Store, keys}

  -- The loop over the nonces: `rounds` of them from `n` on.
  unfoldable pub recycle_missing : Wallet → ℕ → ℕ → Task Store (Unit {0})
  recycle_missing w zero n = pure tt
  recycle_missing w (suc rounds) n = is_sent_nonce R w (pos n) >>= λ found.
      when (not found) (recycle_nonce R w (some (pos n))) >> recycle_missing w rounds (suc n)

  module _ (env : Env) where
    -- One round of the handler's loop, up to its `return`: whether the loop goes on. The onchain
    -- transaction count is the first nonce that is looked at.
    unfoldable pub resync_wallet : Wallet → Task Store Bool
    resync_wallet w = do
      count ← lift (env.transaction_count w.chain_id w.address)
      last_db ← inspect_nonce R w
      if leb_ℤ last_db (pred_ℕ count)
          then pure false
          else recycle_missing w (rounds_to count last_db) count >> pure true

    -- The handler's loop. A wallet that needs no resync ends it.
    unfoldable pub resync_keys : List Key → Task Store (Unit {0})
    resync_keys [] = pure tt
    resync_keys (sent_nonces w ∷ ks) =
        let rest = resync_keys ks in resync_wallet w >>= λ go_on. if go_on then rest else pure tt
    resync_keys (_ ∷ ks) = resync_keys ks

    -- `handler`
    unfoldable pub handle_nonce_resync : Task Store (Unit {0})
    handle_nonce_resync = gets (λ s. keys s "nonce-sent:") >>= resync_keys
