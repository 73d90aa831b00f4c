-- ===== src/MineWorker.antt =====
-- The worker that looks for the receipts of sent transactions, resends those that wait too long, and
-- gives up in the end: src/worker/tasks/mineTransactionWorker.ts, and the job options of
-- src/worker/queues/mineTransactionQueue.ts. Log lines are left out.
pub mod Outcomes
pub mod Receipts
use thirdweb_engine.Base.{
  ℕ, ◌+◌, ◌*◌, Bool, true, false, String, Option, none, some, List, [], ◌∷◌, ◌==◌, leb,
  if◌then◌else◌,
}
use thirdweb_engine.Base.Int.{ℤ}
use thirdweb_engine.Transaction.{
  Transaction, Status, sent, mined, Nonce, number, text, Hex, OnchainStatus, success, reverted,
}
use thirdweb_engine.Redis.{Redis}
use thirdweb_engine.Engine.{
  Task, Result, ok, err, error, mine_tx, error_tx, transaction_mined, send_job, usage, metric, pure,
  lift, emit, when, ◌>>=◌, ◌>>◌,
}
use thirdweb_engine.Env.{Env, Receipt, UserOpReceipt}
use thirdweb_engine.Block.{get_block_numberish}
use thirdweb_engine.Nonce.{wallet_key, recycle_nonce, remove_sent_nonce}
use thirdweb_engine.TransactionDb.{get_transaction, set_transaction, or_zero}
use thirdweb_engine.Webhook.{enqueue_transaction_webhook}
use thirdweb_engine.SendWorker.Prepare.{with_error, hashes_of}

-- The nonce of an EOA transaction as a number, with none for NaN.
abbrev pub number_of : Option Nonce → Option ℤ
number_of (some (number n)) = some n
number_of _ = none

abbrev pub is_status_sent : Status → Bool
is_status_sent sent = true
is_status_sent _ = false

abbrev or_empty : Option Hex → Hex
or_empty none = ""
or_empty (some h) = h

-- The error message of a transaction that failed onchain.
abbrev pub revert_message : OnchainStatus → Option String
revert_message success = none
revert_message reverted =
    some "The transaction failed onchain. See: https://portal.thirdweb.com/engine/troubleshooting"

-- `min(attemptsMade * 2_000, 10_000)`: the milliseconds before the next attempt.
unfoldable pub backoff_strategy : ℕ → ℕ
backoff_strategy attempts_made =
    if leb (attempts_made * 2000) 10000 then attempts_made * 2000 else 10000

-- The attempts that `MineTransactionQueue.add` gives a job.
abbrev pub mine_attempts : ℕ
mine_attempts = 200

module _ (env : Env) where
  -- The first request of `receiptResults` that was fulfilled.
  unfoldable pub first_receipt : ℕ → List Hex → Option Receipt
  first_receipt chain [] = none
  first_receipt chain (hash ∷ hashes) = elim (env.transaction_receipt chain hash) [
    | ok receipt ↦ some receipt
    | err _ ↦ first_receipt chain hashes
  ]

  unfoldable pub mined_transaction : Transaction → Receipt → Transaction
  mined_transaction t receipt = record t {
    status = mined;
    mined_details = some (record {
      transaction_hash = receipt.transaction_hash;
      mined_at = env.now;
      mined_at_block = receipt.block_number;
      transaction_type = receipt.type_name;
      onchain_status = receipt.status;
      gas_used = receipt.gas_used;
      effective_gas_price = receipt.effective_gas_price;
      cumulative_gas_used = receipt.cumulative_gas_used;
    });
    error_message = revert_message receipt.status;
  }

  unfoldable pub mined_user_op : Transaction → UserOpReceipt → Receipt → Option String → Transaction
  mined_user_op t op receipt message = record t {
    status = mined;
    mined_details = some (record {
      transaction_hash = receipt.transaction_hash;
      mined_at = env.now;
      mined_at_block = receipt.block_number;
      transaction_type = receipt.type_name;
      onchain_status = if op.success then success else reverted;
      gas_used = receipt.gas_used;
      effective_gas_price = receipt.effective_gas_price;
      cumulative_gas_used = receipt.cumulative_gas_used;
    });
    fees = record (t.fees) { gas = some receipt.gas_used };
    inserted = record (t.inserted) { sender = some op.sender };
    nonce = some (text op.nonce);
    error_message = message;
  }

  -- The error message of a userOp that failed: that of the error which the parsed receipt throws.
  unfoldable pub user_op_message : Transaction → UserOpReceipt → Result (Option String)
  user_op_message t op =
      if op.success
      then ok none
      else elim (env.user_op_receipt t.inserted.chain_id (or_empty t.user_op_hash)) [
        | ok _ ↦ ok none
        | err e ↦ elim e.message [ some m ↦ ok (some m) | none ↦ err e ]
      ]

module _ (R : Redis) (env : Env) where
  open R use {Store}
  open env use {now, min_ellapsed_blocks_before_retry}

  -- `removeSentNonce` of the transaction's nonce: `toString` of a missing nonce throws.
  unfoldable pub release_sent : Transaction → Task Store Bool
  release_sent t = elim (number_of t.nonce) [
    | none ↦ lift (error "TypeError")
    | some n ↦ remove_sent_nonce R (wallet_key t.inserted.chain_id t.inserted.from) n
  ]

  -- The resend of a transaction that is not mined after some blocks.
  unfoldable pub resend_if_late : Transaction → Task Store (Unit {0})
  resend_if_late t = do
    block ← get_block_numberish R env t.inserted.chain_id
    when (leb (min_ellapsed_blocks_before_retry + or_zero t.sent_at_block) block)
        (emit (send_job t.queue_id (t.resend_count + 1)))

  -- `_mineTransaction`: none if no receipt is found yet.
  unfoldable pub mine_transaction : Transaction → Task Store (Option Transaction)
  mine_transaction t =
      elim (first_receipt env t.inserted.chain_id (hashes_of t.sent_transaction_hashes)) [
        | some receipt ↦ release_sent t >>= λ _. pure (some (mined_transaction env t receipt))
        | none ↦ resend_if_late t >>= λ _. pure none
      ]

  -- `_mineUserOp`
  unfoldable pub mine_user_op : Transaction → Task Store (Option Transaction)
  mine_user_op t =
      let chain = t.inserted.chain_id in
      lift (env.user_op_receipt_raw chain (or_empty t.user_op_hash)) >>= λ raw. elim raw [
        | none ↦ pure none
        | some op ↦ lift (env.transaction_by_hash chain op.transaction_hash) >>= λ hash.
            lift (env.transaction_receipt chain hash) >>= λ receipt.
            lift (user_op_message env t op) >>= λ message.
            pure (some (mined_user_op env t op receipt message))
      ]

  -- `handler`: a transaction that is not mined makes it throw, so that the job is tried again.
  unfoldable pub handle_mine : String → Task Store (Unit {0})
  handle_mine id =
      let finish : Option Transaction → Task Store (Unit {0}) = λ result. elim result [
        | none ↦ lift (error "NOT_CONFIRMED_YET")
        | some m ↦
            set_transaction R now m
            >> enqueue_transaction_webhook m
            >> emit (usage mine_tx m.queue_id)
            >> emit (metric transaction_mined m.queue_id)
      ] in
      get_transaction R id >>= λ stored. elim stored [
        | none ↦ pure tt
        | some t ↦
            when (is_status_sent t.status)
              ((if t.inserted.is_user_op then mine_user_op t else mine_transaction t) >>= finish)
      ]

  -- The nonce of a transaction that timed out can be used or cancelled.
  unfoldable pub release_nonce : Transaction → Task Store (Unit {0})
  release_nonce t =
      recycle_nonce R (wallet_key t.inserted.chain_id t.inserted.from) (number_of t.nonce)
      >> release_sent t
      >> pure tt

  abbrev pub timed_out : Transaction → Transaction
  timed_out t = with_error t "Transaction timed out."

  -- The `failed` event of a job: after its last attempt the transaction is errored.
  unfoldable pub on_mine_failed : ℕ → ℕ → String → Task Store (Unit {0})
  on_mine_failed attempts_made attempts id =
      let give_up : Transaction → Task Store (Unit {0}) = λ t.
        set_transaction R now (timed_out t)
        >> enqueue_transaction_webhook (timed_out t)
        >> emit (usage error_tx t.queue_id)
        >> (if t.inserted.is_user_op then pure tt else release_nonce t) in
      let last : Task Store (Unit {0}) = get_transaction R id >>= λ stored. elim stored [
        | none ↦ pure tt
        | some t ↦ when (is_status_sent t.status) (give_up t)
      ] in
      if attempts_made == attempts then last else pure tt
