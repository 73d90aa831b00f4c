-- ===== src/NonceReset.antt =====
-- The route POST /backend-wallet/reset-nonces of src/server/routes/backend-wallet/resetNonces.ts.
pub mod Counters
use thirdweb_engine.Base.{String, List, [], ◌∷◌}
use thirdweb_engine.Redis.{Redis}
use thirdweb_engine.Redis.Values.{Key, last_used}
use thirdweb_engine.Engine.{Task, pure, gets, try_catch, ◌>>=◌, ◌>>◌}
use thirdweb_engine.Env.{Env}
use thirdweb_engine.Nonce.{delete_all_nonces, sync_latest_nonce_from_onchain}
use thirdweb_engine.NonceDetails.{UsedWallet}

module _ (R : Redis) (env : Env) where
  open R use {Store, keys}

  -- `getUsedBackendWallets` of the file, with the keys of `redis.keys("nonce:*:*")`
  unfoldable pub all_used_wallets : List Key → List UsedWallet
  all_used_wallets [] = []
  all_used_wallets (last_used w ∷ ks) = (w.chain_id, env.checksum w.address) ∷ all_used_wallets ks
  all_used_wallets (_ ∷ ks) = all_used_wallets ks

  -- `Promise.allSettled`: a wallet that cannot be synced is passed over. Each sync writes one counter.
  unfoldable pub sync_settled : List UsedWallet → Task Store (Unit {0})
  sync_settled [] = pure tt
  sync_settled ((chain, address) ∷ us) =
      try_catch (sync_latest_nonce_from_onchain R env chain address) (λ _. pure tt) (λ _. pure tt)
      >> sync_settled us

  -- The handler of the route.
  unfoldable pub reset_nonces : Task Store (Unit {0})
  reset_nonces = do
    wallets ← gets (λ s. all_used_wallets (keys s "nonce:"))
    delete_all_nonces R
    sync_settled wallets
