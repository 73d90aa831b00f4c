-- ===== src/Retry/Synced.antt =====
-- What POST /transaction/sync-retry does: src/server/routes/transaction/syncRetry.ts.
use thirdweb_engine.Base.{
  if◌then◌else◌, ℕ, ◌≡◌, refl, false, String, Option, [], ◌∷◌, ◌++◌, append_assoc,
}
use thirdweb_engine.Base.Int.{pos}
use thirdweb_engine.Transaction.{Transaction, sent, Hex}
use thirdweb_engine.Redis.{Redis}
use thirdweb_engine.Redis.Values
use thirdweb_engine.Redis.Values.{
  key_eq, details, json, id_eq, id_eq_refl, Wallet, sent_nonces, recycled, latest_block,
}
use thirdweb_engine.Engine.{World, ok, Populated, broadcast, mine_job, webhook, sent_tx}
use thirdweb_engine.Env.{Env}
use thirdweb_engine.Block.{get_block_numberish}
use thirdweb_engine.TransactionDb.{get_transaction}
use thirdweb_engine.TransactionDb.Stored.{
  set_transaction_lem, at-put, sent_nonces-put, recycled-put,
}
use thirdweb_engine.Webhook.{enqueue_transaction_webhook, event_type}
use thirdweb_engine.Retry.{sync_retry_transaction, sync_retry_request, resent}

module _ (R : Redis) (env : Env) (w : World (Redis.Store R)) (t : Transaction)
    (stored : Redis.at R w.store (details t.queue_id) ≡ json t) (is_sent : t.status ≡ sent)
    (is_eoa : t.inserted.is_user_op ≡ false) where
  open R use {Store, at, set, at-set}

  block_lem :
      (block chain : ℕ) (v : World Store)
      → env.block_number chain ≡ ok block
      → get_block_numberish R env chain v ≡ (
        ok block,
        record v { store = set v.store (latest_block chain) (Values.number (pos block)) },
      )
  unfolding get_block_numberish
  block_lem block chain v counted = rw counted

  -- A sent transaction of a wallet that the RPC takes again with the caller's fees, when a block
  -- number is known: the new hash is answered and stored behind the earlier ones, with the next
  -- resend count and the same nonce; the sets of nonces and the other transactions are as they were;
  -- and the broadcast, a mine job and the webhook are handed out.
  pub sync_retry_transaction-sent :
      (max_fee max_priority_fee : Option ℕ) (p : Populated) (hash : Hex) (block : ℕ)
      → env.to_serializable_transaction (sync_retry_request env t max_fee max_priority_fee) ≡ ok p
      → env.get_account t.inserted.chain_id t.inserted.from ≡ ok tt
      → env.send_transaction t.inserted.from p ≡ ok hash
      → env.block_number t.inserted.chain_id ≡ ok block
      → let (r, w') = sync_retry_transaction R env t.queue_id max_fee max_priority_fee w in
        (r ≡ ok hash)
        × (at w'.store (details t.queue_id) ≡ json (resent R env t p hash block))
        × ((v : Wallet) → at w'.store (sent_nonces v) ≡ at w.store (sent_nonces v))
        × ((v : Wallet) → at w'.store (recycled v) ≡ at w.store (recycled v))
        × ((j : String)
            → at w'.store (details j) ≡ (
                if id_eq j t.queue_id
                then json (resent R env t p hash block)
                else at w.store (details j)))
        × (w'.effects
            ≡ w.effects
              ++ broadcast t.inserted.from p
                ∷ mine_job t.queue_id
                ∷ webhook sent_tx t.queue_id
                ∷ [])
  unfolding sync_retry_transaction get_transaction enqueue_transaction_webhook event_type key_eq
  sync_retry_transaction-sent max_fee max_priority_fee p hash block serialized is_wallet taken
        counted =
      simp
        (
          stored,
          is_sent,
          is_eoa,
          serialized,
          is_wallet,
          taken,
          block_lem block t.inserted.chain_id _ counted,
          set_transaction_lem,
          at-put,
          sent_nonces-put,
          recycled-put,
          id_eq_refl,
          at-set,
          append_assoc,
        )
        (refl, refl, λ v. refl, λ v. refl, λ j. refl, refl)
