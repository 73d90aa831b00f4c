-- ===== src/SendWorker.antt =====
-- The worker that submits queued transactions and resends sent ones:
-- src/worker/tasks/sendTransactionWorker.ts. Its job's data are a queue ID and a resend count. The
-- job's log lines are left out.
pub mod Prepare
pub mod Outcomes
pub mod Resends
use thirdweb_engine.Base.{
  ℕ, Bool, true, false, String, Option, none, some, [], ◌∷◌, ◌++◌, ◌||◌, ◌==◌, if◌then◌else◌,
}
use thirdweb_engine.Base.Int.{ℤ}
use thirdweb_engine.Transaction.{Transaction, Status, queued, sent, errored, number, text, Hex}
use thirdweb_engine.Redis.{Redis}
use thirdweb_engine.Engine.{
  Task, Thrown, err, error, Populated, send_tx, error_tx, transaction_sent, mine_job, usage, metric,
  broadcast, bundle, pure, lift, emit, when, try_catch, ◌>>=◌, ◌>>◌,
}
use thirdweb_engine.Env.{Env}
use thirdweb_engine.Errors.{
  is_nonce_already_used_error, is_replacement_gas_fee_too_low, prettify_error,
}
use thirdweb_engine.Block.{get_block_numberish}
use thirdweb_engine.Nonce.{
  wallet_key, add_sent_nonce, recycle_nonce, acquire_nonce,
  sync_latest_nonce_from_onchain_if_higher,
}
use thirdweb_engine.TransactionDb.{get_transaction, set_transaction}
use thirdweb_engine.Webhook.{enqueue_transaction_webhook}
use Prepare.{
  Prepared, populated, failed, with_error, double_fees, hashes_of, is_status_queued,
  on_manual_retry, get_populated_or_errored_transaction, resolve_deployed_contract_address,
  resend_request,
}

module _ (R : Redis) (env : Env) where
  open R use {Store}
  open env use {now}

  -- `_sendUserOp`
  unfoldable pub send_user_op : Transaction → Task Store Transaction
  send_user_op t = elim (get_populated_or_errored_transaction env t) [
    | failed e ↦ pure e
    | populated p ↦ do
      signed ← lift (env.sign_user_operation t p)
      emit (bundle t.queue_id)
      hash ← lift (env.bundle_user_op signed)
      block ← get_block_numberish R env t.inserted.chain_id
      pure (record t {
        status = sent;
        nonce = some (text signed.nonce);
        user_op_hash = some hash;
        sent_at = some now;
        sent_at_block = some block;
        fees = record (t.fees) {
          max_fee_per_gas = some signed.max_fee_per_gas;
          max_priority_fee_per_gas = some signed.max_priority_fee_per_gas;
        };
      })
  ]

  -- The `try` of `_sendTransaction` and `_resendTransaction`: the RPC sees the transaction if the
  -- wallet is there.
  unfoldable pub submit : Transaction → Populated → Task Store Hex
  submit t p = do
    lift (env.get_account t.inserted.chain_id t.inserted.from)
    emit (broadcast t.inserted.from p)
    lift (env.send_transaction t.inserted.from p)

  -- The `catch` of `_sendTransaction`: correct the counter if the nonce is used, or else give the
  -- nonce back.
  unfoldable pub on_send_error : Transaction → ℤ → Thrown → Task Store Hex
  on_send_error t n e =
      let resync : Task Store Hex =
        sync_latest_nonce_from_onchain_if_higher R env t.inserted.chain_id t.inserted.from
        >> lift (err e) in
      let recycle : Task Store Hex =
        recycle_nonce R (wallet_key t.inserted.chain_id t.inserted.from) (some n) >> lift (err e) in
      if is_nonce_already_used_error e || is_replacement_gas_fee_too_low e then resync else recycle

  -- What `_sendTransaction` returns of a send at a block.
  abbrev pub sent_transaction : Transaction → Populated → ℤ → Hex → ℕ → Transaction
  sent_transaction t p n hash block = record t {
    status = sent;
    nonce = some (number n);
    sent_transaction_hashes = some (hash ∷ []);
    resend_count = 0;
    sent_at = some now;
    sent_at_block = some block;
    fees = p.fees;
    inserted = record (t.inserted) {
      deployed_contract_address = resolve_deployed_contract_address env t n;
    };
  }

  -- `_sendTransaction`
  unfoldable pub send_transaction : Transaction → Task Store Transaction
  send_transaction t = elim (get_populated_or_errored_transaction env t) [
    | failed e ↦ pure e
    | populated p ↦ do
      acquired ← acquire_nonce R env t.queue_id t.inserted.chain_id t.inserted.from
      let q = record p { nonce = some (number acquired.0) }
      hash ← try_catch (submit t q) (on_send_error t acquired.0) pure
      add_sent_nonce R (wallet_key t.inserted.chain_id t.inserted.from) acquired.0
      block ← get_block_numberish R env t.inserted.chain_id
      pure (sent_transaction t p acquired.0 hash block)
  ]

  -- `_resendTransaction`: a resend that is not needed is `none`.
  unfoldable pub resend_transaction : Transaction → ℕ → Task Store (Option Transaction)
  resend_transaction t resend_count =
      let resent : Populated → Hex → Task Store (Option Transaction) = λ p hash.
        get_block_numberish R env t.inserted.chain_id >>= λ block. pure (
          some (record t {
            resend_count = resend_count;
            sent_at = some now;
            sent_at_block = some block;
            sent_transaction_hashes = some (hashes_of t.sent_transaction_hashes ++ hash ∷ []);
            fees = p.fees;
          })) in
      let on_error : Thrown → Task Store (Option Transaction) = λ e.
        if is_nonce_already_used_error e || is_replacement_gas_fee_too_low e
        then pure none
        else lift (err e) in
      let resend : Task Store (Option Transaction) =
        lift (env.to_serializable_transaction (resend_request env t)) >>= λ p.
        try_catch (submit t (double_fees p)) on_error (resent (double_fees p)) in
      if t.inserted.is_user_op then lift (error "AssertionError") else resend

  -- What the handler does with the transaction that a send returns; `t` is the one it began with.
  unfoldable pub finish : Transaction → Transaction → Task Store (Unit {0})
  finish t result = do
    set_transaction R now result
    enqueue_transaction_webhook result
    let first_send : Task Store (Unit {0}) =
        emit (usage send_tx result.queue_id)
        >> emit (metric (transaction_sent true) result.queue_id)
    elim result.status [
      | sent ↦ emit (mine_job result.queue_id) >> when (is_status_queued t.status) first_send
      | errored ↦
          emit (usage error_tx result.queue_id)
          >> emit (metric (transaction_sent false) result.queue_id)
      | _ ↦ pure tt
    ]

  -- The branches of the handler on the status.
  unfoldable pub attempt : Status → Transaction → ℕ → Task Store (Unit {0})
  attempt queued t resend_count =
      (if t.inserted.is_user_op then send_user_op t else send_transaction t) >>= finish t
  attempt sent t resend_count = resend_transaction t resend_count >>= λ result. elim result [
    | none ↦ pure tt
    | some r ↦ finish t r
  ]
  attempt _ t resend_count = pure tt

  -- `handler`
  unfoldable pub handle_send : String → ℕ → Task Store (Unit {0})
  handle_send id resend_count = get_transaction R id >>= λ stored. elim stored [
    | none ↦ pure tt
    | some s ↦
        let t = on_manual_retry now resend_count s.status s in attempt t.status t resend_count
  ]

  -- The `failed` event of a job: after its last attempt the transaction is errored.
  unfoldable pub on_send_failed : ℕ → ℕ → String → Thrown → Task Store (Unit {0})
  on_send_failed attempts_made attempts id e =
      let give_up : Task Store (Unit {0}) = get_transaction R id >>= λ stored. elim stored [
        | none ↦ pure tt
        | some t ↦ prettify_error R env t e >>= λ message.
            set_transaction R now (with_error t message)
            >> enqueue_transaction_webhook (with_error t message)
            >> emit (usage error_tx t.queue_id)
      ] in
      if attempts_made == attempts then give_up else pure tt
