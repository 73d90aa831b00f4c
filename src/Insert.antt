-- ===== src/Insert.antt =====
-- Queueing a transaction: src/utils/transaction/insertTransaction.ts and
-- src/utils/transaction/queueTransation.ts.
pub mod Outcomes
use Prim.Native.String
use thirdweb_engine.Base.{ℕ, Bool, String, Option, none, some, is_some, if◌then◌else◌}
use thirdweb_engine.Base.Text.{replace_line_breaks}
use thirdweb_engine.Transaction.{Transaction, queued, InsertedTransaction, Fees, Address, Hex}
use thirdweb_engine.Redis.{Redis}
use thirdweb_engine.Engine.{
  Task, Result, ok, err, bad_request, queue_tx, transaction_queued, send_job, usage, metric, pure,
  lift, emit, ◌>>=◌, ◌>>◌,
}
use thirdweb_engine.Env.{Env}
use thirdweb_engine.Errors.{truthy}
use thirdweb_engine.TransactionDb.{set_transaction, exists_transaction}

-- `getChecksumAddress` of an address that may be missing.
abbrev pub checksum_of : Env → Option Address → Option Address
checksum_of env a = elim (truthy a) [ none ↦ none | some s ↦ some (env.checksum s) ]

abbrev pub or_zero_value : Option ℕ → Option ℕ
or_zero_value none = some 0
or_zero_value (some n) = some n

-- The `QueuedTransaction` that `insertTransaction` makes.
unfoldable pub queued_transaction : Env → String → InsertedTransaction → Fees → Transaction
queued_transaction env id i fees = record {
  queue_id = id;
  status = queued;
  inserted = record i {
    from = env.checksum i.from;
    to = checksum_of env i.to;
    signer_address = checksum_of env i.signer_address;
    account_address = checksum_of env i.account_address;
    target = checksum_of env i.target;
    sender = checksum_of env i.sender;
    value = or_zero_value i.value;
  };
  fees = fees;
  queued_at = env.now;
  resend_count = 0;
  manually_resent_at = none;
  sent_at = none;
  sent_at_block = none;
  nonce = none;
  sent_transaction_hashes = none;
  user_op_hash = none;
  mined_details = none;
  error_message = none;
  cancelled_at = none;
}

-- The arguments of `queueTransaction` beside the prepared transaction, whose chain and encoded data
-- (or the error of encoding it) are given.
pub record QueuedTransactionParams : Type 0 where
  pub chain_id : ℕ
  pub encoded : Result Hex
  pub from_address : Address
  pub to_address : Option Address
  pub account_address : Option Address
  pub account_factory_address : Option Address
  pub value : Option ℕ
  pub fees : Fees
  pub idempotency_key : Option String
  pub should_simulate : Bool

-- The transaction that `queueTransaction` inserts: a userOp if an account is given.
unfoldable pub inserted_transaction : QueuedTransactionParams → Hex → InsertedTransaction
inserted_transaction q encoded_data = record {
  is_user_op = is_some (truthy q.account_address);
  chain_id = q.chain_id;
  from = q.from_address;
  to = q.to_address;
  value = q.value;
  call_data = some encoded_data;
  function_name = none;
  function_args = none;
  deployed_contract_address = none;
  deployed_contract_type = none;
  extension = none;
  signer_address = elim (truthy q.account_address) [ none ↦ none | some _ ↦ some q.from_address ];
  account_address = truthy q.account_address;
  account_factory_address = elim (truthy q.account_address) [
    | none ↦ none
    | some _ ↦ q.account_factory_address
  ];
  target = elim (truthy q.account_address) [ none ↦ none | some _ ↦ q.to_address ];
  sender = none;
}

module _ (R : Redis) (env : Env) where
  open R use {Store}

  -- The simulation of `insertTransaction`: an error makes it throw.
  unfoldable pub simulate : Bool → Transaction → Task Store (Unit {0})
  simulate should_simulate t =
      let run : Task Store (Unit {0}) = lift (env.simulate_transaction t) >>= λ e. elim (truthy e) [
        | none ↦ pure tt
        | some m ↦
            lift (
              bad_request (String.◌++◌ "Simulation failed: " (replace_line_breaks m)) "BAD_REQUEST")
      ] in
      if should_simulate then run else pure tt

  -- The part of `insertTransaction` behind the check of the idempotency key.
  unfoldable pub insert_new : String → InsertedTransaction → Fees → Bool → Task Store String
  insert_new id i fees should_simulate = do
    let t = queued_transaction env id i fees
    simulate should_simulate t
    set_transaction R env.now t
    emit (send_job t.queue_id 0)
    emit (usage queue_tx t.queue_id)
    emit (metric transaction_queued t.queue_id)
    pure id

  -- `insertTransaction`: the queue ID. With an idempotency key that is known nothing is inserted.
  unfoldable pub insert_transaction :
      InsertedTransaction → Fees → Option String → Bool → Task Store String
  insert_transaction i fees idempotency_key should_simulate = elim (truthy idempotency_key) [
    | none ↦ insert_new env.random_uuid i fees should_simulate
    | some key ↦ exists_transaction R key >>= λ found.
        if found then pure key else insert_new key i fees should_simulate
  ]

  -- `queueTransaction`
  unfoldable pub queue_transaction : QueuedTransactionParams → Task Store String
  queue_transaction q = elim q.encoded [
    | err e ↦ lift (bad_request (env.show_thrown e) "BAD_REQUEST")
    | ok encoded_data ↦
        insert_transaction (inserted_transaction q encoded_data) q.fees q.idempotency_key
          q.should_simulate
  ]
