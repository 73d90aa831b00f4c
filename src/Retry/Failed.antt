-- ===== src/Retry/Failed.antt =====
-- What POST /transaction/retry-failed does: src/server/routes/transaction/retry-failed.ts.
use thirdweb_engine.Base.{
  ◌≡◌, refl, false, none, some, [], ◌∷◌, ◌++◌, append_assoc, Bool-cases, inl, inr,
}
use thirdweb_engine.Transaction.{Transaction, errored}
use thirdweb_engine.Redis.{Redis}
use thirdweb_engine.Redis.Values.{details, json}
use thirdweb_engine.Engine.{World, Thrown, ok, err, send_job, remove_send_job, remove_mine_job}
use thirdweb_engine.Env.{Env, Receipt}
use thirdweb_engine.TransactionDb.{get_transaction}
use thirdweb_engine.SendWorker.Prepare.{hashes_of}
use thirdweb_engine.MineWorker.{first_receipt}
use thirdweb_engine.Retry.{is_status_errored, retry_failed_transaction, requeue_failed}

module _ (R : Redis) (env : Env) (w : World (Redis.Store R)) (t : Transaction)
    (stored : Redis.at R w.store (details t.queue_id) ≡ json t) where
  -- An errored transaction of a wallet none of whose hashes has a receipt is tried again from resend
  -- count 0: its old jobs are removed and a new one is added, and nothing is stored.
  pub retry_failed-requeued :
      t.status ≡ errored
      → t.inserted.is_user_op ≡ false
      → first_receipt env t.inserted.chain_id (hashes_of t.sent_transaction_hashes) ≡ none
      → retry_failed_transaction R env t.queue_id w ≡ (
        ok tt,
        record w {
          effects =
              w.effects
              ++ remove_send_job t.queue_id 0
                ∷ remove_mine_job t.queue_id
                ∷ send_job t.queue_id 0
                ∷ [];
        },
      )
  unfolding retry_failed_transaction get_transaction requeue_failed
  retry_failed-requeued is_errored eoa missing =
      simp (stored, is_errored, eoa, missing, append_assoc)

  -- A transaction one of whose hashes has a receipt, so that it was mined after all, is not retried
  -- as failed, whatever its status: the route answers with an error, and nothing is stored or handed
  -- out.
  pub retry_failed-mined :
      (receipt : Receipt)
      → first_receipt env t.inserted.chain_id (hashes_of t.sent_transaction_hashes) ≡ some receipt
      → let (r, w') = retry_failed_transaction R env t.queue_id w in
        ((e : Thrown) × (r ≡ err e)) × (w' ≡ w)
  unfolding retry_failed_transaction get_transaction
  retry_failed-mined receipt found = elim (Bool-cases (is_status_errored t.status)) [
    | inr other ↦ simp (stored, other) ((_, refl), refl)
    | inl failed ↦ elim (Bool-cases t.inserted.is_user_op) [
      | inl op ↦ simp (stored, failed, op) ((_, refl), refl)
      | inr eoa ↦ simp (stored, failed, eoa, found) ((_, refl), refl)
    ]
  ]
