-- ===== src/Migration.antt =====
-- The worker that moves transactions from Postgres to Redis:
-- src/worker/tasks/migratePostgresTransactionsWorker.ts. Its log lines are left out, and numbers and
-- lists that the rows hold as texts are read already.
pub mod Moved
pub mod Rows
use thirdweb_engine.Base.{
  ℕ, zero, Bool, true, false, String, Option, none, some, List, [], ◌∷◌, ◌++◌, is_empty, str_eq,
  if◌then◌else◌,
}
use thirdweb_engine.Base.Int.{ℤ, pos}
use thirdweb_engine.Base.Text.{to_lower}
use thirdweb_engine.Transaction.{
  Address, Hex, Transaction, InsertedTransaction, Fees, queued, sent, Nonce, number, text,
}
use thirdweb_engine.Redis.{Redis}
use thirdweb_engine.Engine.{
  Task, Result, ok, error, then_ok, send_job, mine_job, cancel_rows, pure, lift, emit, try_catch,
  ◌>>=◌, ◌>>◌,
}
use thirdweb_engine.TransactionDb.{set_transaction}

-- A row of `transactions`.
pub record Row : Type 0 where
  pub id : String
  pub idempotency_key : String
  pub chain_id : ℕ
  pub queued_at : ℕ
  pub from_address : Option Address
  pub to_address : Option Address
  pub value : Option ℕ
  pub call_data : Option Hex
  pub function_name : Option String
  pub function_args : Option (List String)
  pub fees : Fees
  pub deployed_contract_address : Option Address
  pub deployed_contract_type : Option String
  pub extension : Option String
  pub signer_address : Option Address
  pub account_address : Option Address
  pub target : Option Address
  pub sender : Option Address
  pub sent_at : Option ℕ
  pub sent_at_block_number : Option ℕ
  pub nonce : Option ℕ
  pub transaction_hash : Option Hex
  pub user_op_hash : Option Hex

-- `assert(text)`, which throws on an empty text
abbrev pub assert_text : Option String → Result String
assert_text none = error "Assertion failed"
assert_text (some s) = if str_eq s "" then error "Assertion failed" else ok s

-- `assert(number)`, which throws on 0
abbrev pub assert_number : Option ℕ → Result ℕ
assert_number none = error "Assertion failed"
assert_number (some zero) = error "Assertion failed"
assert_number n = positive n
  where
    positive : Option ℕ → Result ℕ
    positive none = error "Assertion failed"
    positive (some k) = ok k

-- `assert(date)`
abbrev pub assert_date : Option ℕ → Result ℕ
assert_date none = error "Assertion failed"
assert_date (some d) = ok d

-- `normalizeAddress`
unfoldable pub normalize_address : Option Address → Option Address
normalize_address none = none
normalize_address (some a) = if str_eq a "" then none else some (to_lower a)

-- `!!text`
abbrev pub is_given : Option String → Bool
is_given none = false
is_given (some s) = if str_eq s "" then false else true

abbrev pub or_zero : Option ℕ → ℕ
or_zero none = 0
or_zero (some n) = n

abbrev pub queued_from : Row → Address → Hex → Transaction
queued_from row from call_data = record {
  queue_id = row.idempotency_key;
  status = queued;
  inserted = record {
    is_user_op = is_given row.account_address;
    chain_id = row.chain_id;
    from = to_lower from;
    to = normalize_address row.to_address;
    value = some (or_zero row.value);
    call_data = some call_data;
    function_name = row.function_name;
    function_args = row.function_args;
    deployed_contract_address = normalize_address row.deployed_contract_address;
    deployed_contract_type = row.deployed_contract_type;
    extension = row.extension;
    signer_address = normalize_address row.signer_address;
    account_address = normalize_address row.account_address;
    account_factory_address = none;
    target = normalize_address row.target;
    sender = normalize_address row.sender;
  };
  fees = row.fees;
  queued_at = row.queued_at;
  resend_count = 0;
  manually_resent_at = none;
  sent_at = none;
  sent_at_block = none;
  nonce = none;
  sent_transaction_hashes = none;
  user_op_hash = none;
  mined_details = none;
  error_message = none;
  cancelled_at = none;
}

-- `toQueuedTransaction`
unfoldable pub to_queued_transaction : Row → Result Transaction
to_queued_transaction row =
    then_ok (assert_text row.from_address) (λ from.
      then_ok (assert_text row.call_data) (λ call_data. ok (queued_from row from call_data)))

abbrev pub sent_user_op : Row → ℕ → ℕ → Transaction → Result Transaction
sent_user_op row sent_at block t = then_ok (assert_text row.user_op_hash) (λ hash. ok (record t {
  status = sent;
  sent_at = some sent_at;
  sent_at_block = some block;
  nonce = some (text "");
  user_op_hash = some hash;
}))

abbrev pub sent_eoa : Row → ℕ → ℕ → Transaction → Result Transaction
sent_eoa row sent_at block t = then_ok (assert_text row.transaction_hash) (λ hash.
    then_ok (assert_number row.nonce) (λ n. ok (record t {
      status = sent;
      sent_at = some sent_at;
      sent_at_block = some block;
      nonce = some (number (pos n));
      sent_transaction_hashes = some (hash ∷ []);
    })))

-- `toSentTransaction`
unfoldable pub to_sent_transaction : Row → Result Transaction
to_sent_transaction row = then_ok (assert_date row.sent_at) (λ sent_at.
    then_ok (assert_number row.sent_at_block_number) (λ block.
      then_ok (to_queued_transaction row) (λ t.
        if t.inserted.is_user_op
        then sent_user_op row sent_at block t
        else sent_eoa row sent_at block t)))

module _ (R : Redis) (now : ℕ) where
  open R use {Store}

  -- One round of the loop over the sent rows: what its `try` does.
  unfoldable pub migrate_sent : Row → Task Store (Unit {0})
  migrate_sent row = do
    t ← lift (to_sent_transaction row)
    set_transaction R now t
    emit (mine_job t.queue_id)

  -- One round of the loop over the queued rows.
  unfoldable pub migrate_queued : Row → Task Store (Unit {0})
  migrate_queued row = do
    t ← lift (to_queued_transaction row)
    set_transaction R now t
    emit (send_job t.queue_id 0)

  -- A loop, with the IDs of the rows to cancel. What a round throws is logged, and the next begins.
  unfoldable pub migrate_rows :
      (Row → Task Store (Unit {0})) → List Row → List String → Task Store (List String)
  migrate_rows migrate [] to_cancel = pure to_cancel
  migrate_rows migrate (row ∷ rows) to_cancel =
      try_catch (migrate row) (λ _. pure to_cancel) (λ _. pure (to_cancel ++ row.id ∷ []))
      >>= migrate_rows migrate rows

  -- `cancelPostgresTransactions`
  unfoldable pub cancel_postgres_transactions : List String → Task Store (Unit {0})
  cancel_postgres_transactions ids = if is_empty ids then pure tt else emit (cancel_rows ids)

  -- `handler`, with the rows that the two queries give
  unfoldable pub handle_migration : List Row → List Row → Task Store (Unit {0})
  handle_migration sent_rows queued_rows =
      (migrate_rows migrate_sent sent_rows [] >>= cancel_postgres_transactions)
      >> (migrate_rows migrate_queued queued_rows [] >>= cancel_postgres_transactions)
