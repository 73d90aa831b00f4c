-- ===== src/Retry.antt =====
-- The routes that send a transaction again: POST /transaction/retry, /transaction/sync-retry and
-- /transaction/retry-failed, of src/server/routes/transaction/.
pub mod Failed
pub mod Synced
use Prim.Native.String
use thirdweb_engine.Base.{
  ℕ, ◌+◌, Bool, true, false, String, Option, none, some, [], ◌∷◌, ◌++◌, not, ◌||◌, if◌then◌else◌,
}
use thirdweb_engine.Transaction.{Transaction, Status, queued, sent, mined, cancelled, errored, Hex}
use thirdweb_engine.Redis.{Redis}
use thirdweb_engine.Engine.{
  Task, bad_request, Populated, send_job, remove_send_job, mine_job, remove_mine_job, broadcast,
  pure, lift, emit, ◌>>=◌, ◌>>◌,
}
use thirdweb_engine.Env.{Env, SerializeRequest}
use thirdweb_engine.Block.{get_block_numberish}
use thirdweb_engine.TransactionDb.{get_transaction, set_transaction}
use thirdweb_engine.Webhook.{enqueue_transaction_webhook}
use thirdweb_engine.SendWorker.Prepare.{hashes_of}
use thirdweb_engine.MineWorker.{is_status_sent, first_receipt}

abbrev pub is_status_errored : Status → Bool
is_status_errored errored = true
is_status_errored _ = false

abbrev status_name : Status → String
status_name queued = "queued"
status_name sent = "sent"
status_name mined = "mined"
status_name cancelled = "cancelled"
status_name errored = "errored"

module _ {S A : Type 0} where
  abbrev not_found : Task S A
  not_found = lift (bad_request "Transaction not found." "TRANSACTION_NOT_FOUND")

  abbrev cannot_be_retried : String → Task S A
  cannot_be_retried m = lift (bad_request m "TRANSACTION_CANNOT_BE_RETRIED")

-- What `/transaction/sync-retry` asks of `toSerializableTransaction`.
unfoldable pub sync_retry_request : Env → Transaction → Option ℕ → Option ℕ → SerializeRequest
sync_retry_request env t max_fee max_priority_fee = record {
  from = env.checksum t.inserted.from;
  chain_id = t.inserted.chain_id;
  to = t.inserted.to;
  value = t.inserted.value;
  call_data = t.inserted.call_data;
  nonce = t.nonce;
  fees = record (t.fees) { max_fee_per_gas = max_fee; max_priority_fee_per_gas = max_priority_fee };
}

module _ (R : Redis) (env : Env) where
  open R use {Store}
  open env use {now}

  -- `retryTransaction`: new fees, and a job with the next resend count.
  unfoldable pub retry_transaction : String → Option ℕ → Option ℕ → Task Store (Unit {0})
  retry_transaction id max_fee max_priority_fee =
      let retry : Transaction → Task Store (Unit {0}) = λ t.
        set_transaction R now (record t {
          fees = record (t.fees) {
            max_fee_per_gas = max_fee;
            max_priority_fee_per_gas = max_priority_fee;
          };
        })
        >> emit (send_job t.queue_id (t.resend_count + 1)) in
      get_transaction R id >>= λ stored. elim stored [
        | none ↦ not_found
        | some t ↦
            if is_status_sent t.status
            then retry t
            else cannot_be_retried "Transaction cannot be retried."
      ]

  -- What `syncRetryTransaction` stores of a transaction sent again.
  abbrev pub resent : Transaction → Populated → Hex → ℕ → Transaction
  resent t p hash block = record t {
    resend_count = t.resend_count + 1;
    sent_at = some now;
    sent_at_block = some block;
    sent_transaction_hashes = some (hashes_of t.sent_transaction_hashes ++ hash ∷ []);
    fees = p.fees;
  }

  -- `syncRetryTransaction`: the transaction hash.
  unfoldable pub sync_retry_transaction : String → Option ℕ → Option ℕ → Task Store Hex
  sync_retry_transaction id max_fee max_priority_fee =
      let retry : Transaction → Task Store Hex = λ t. do
        p ←
            lift
              (env.to_serializable_transaction (sync_retry_request env t max_fee max_priority_fee))
        lift (env.get_account t.inserted.chain_id t.inserted.from)
        emit (broadcast t.inserted.from p)
        hash ← lift (env.send_transaction t.inserted.from p)
        block ← get_block_numberish R env t.inserted.chain_id
        set_transaction R now (resent t p hash block)
        emit (mine_job t.queue_id)
        enqueue_transaction_webhook (resent t p hash block)
        pure hash
      in get_transaction R id >>= λ stored. elim stored [
        | none ↦ not_found
        | some t ↦
            if not (is_status_sent t.status) || t.inserted.is_user_op
            then cannot_be_retried "Transaction cannot be retried."
            else retry t
      ]

  -- The end of `retryFailedTransaction`: the old jobs go, and a new one starts from resend count 0.
  unfoldable pub requeue_failed : Transaction → Task Store (Unit {0})
  requeue_failed t = do
    emit (remove_send_job t.queue_id 0)
    emit (remove_mine_job t.queue_id)
    emit (send_job t.queue_id 0)

  -- `retryFailedTransaction`: an errored transaction, none of whose hashes has a receipt.
  unfoldable pub retry_failed_transaction : String → Task Store (Unit {0})
  retry_failed_transaction id =
      let unless_mined : Transaction → Task Store (Unit {0}) = λ t.
        elim (first_receipt env t.inserted.chain_id (hashes_of t.sent_transaction_hashes)) [
          | none ↦ requeue_failed t
          | some receipt ↦ cannot_be_retried (
              String.◌++◌
                "Transaction cannot be retried because it has already been mined with hash: "
                receipt.transaction_hash)
        ] in
      get_transaction R id >>= λ stored. elim stored [
        | none ↦ not_found
        | some t ↦
            if not (is_status_errored t.status)
            then cannot_be_retried (
                String.◌++◌ "Transaction cannot be retried because status: " (status_name t.status))
            else if t.inserted.is_user_op
            then cannot_be_retried "Transaction cannot be retried because it is a userop"
            else unless_mined t
      ]
