-- ===== src/Examples/Workers.antt =====
-- The workers that store logs and receipts, the migration, and some routes and hooks, at concrete
-- inputs.
use thirdweb_engine.Base.{◌≡◌, refl, true, none, some, List, [], ◌∷◌, ◌++◌}
use thirdweb_engine.Base.Text.{to_lower}
use thirdweb_engine.Transaction.{success}
use thirdweb_engine.Transaction.WellFormed.{IsWellFormed}
use thirdweb_engine.Redis.Memory.{memory}
use thirdweb_engine.Engine.{ok, RangeJob, Filter, mine_job, cancel_rows}
use thirdweb_engine.Processing.Logs.{LogsEnv, RawLog}
use thirdweb_engine.Processing.Receipts.{
  ReceiptsEnv, RawReceipt, block_range, get_formatted_transaction_receipts,
}
use thirdweb_engine.Processing.Selected.{Answers, rows_for, get_formatted_transaction_receipts_lem}
use thirdweb_engine.Relayer.{RelayerRow, RelayEnv, RelayBody, forward, relay_transaction}
use thirdweb_engine.Relayer.Access.{is_queued, relay_transaction-permitted}
use thirdweb_engine.Migration.{
  Row, to_queued_transaction, to_sent_transaction, handle_migration, normalize_address,
}
use thirdweb_engine.Migration.Rows.{Gives, to_transaction-IsWellFormed}
use thirdweb_engine.Migration.Moved.{moved, put_all, handle_migration_lem}
use thirdweb_engine.SendWorker.Prepare.{no_fees}
use thirdweb_engine.Examples.Setup.{blank}

abbrev raw_log : RawLog
raw_log = record {
  block_number = 101;
  block_hash = "0xb";
  address = "0xC0";
  transaction_hash = "0x1";
  topic0 = some "0xt";
  topic1 = none;
  topic2 = none;
  topic3 = none;
  data_text = "0x";
  event_name = "Transfer";
  args = [];
  transaction_index = 0;
  log_index = 7;
}

-- A contract without an ABI, with one log.
abbrev one_log : LogsEnv
one_log = record {
  now = 9000;
  resolve_abi = λ _. ok [];
  get_contract_events = λ _ _ _ _. ok (raw_log ∷ []);
  block_timestamp = λ _. ok 5;
  insert_logs = λ ls. ok ls;
}

abbrev job : List Filter → RangeJob
job fs = record { chain_id = 1; filters = fs; from_block = 100; to_block = 101 }

abbrev all_events : Filter
all_events = record { address = "0xc0"; names = [] }

abbrev two_filters : List Filter
two_filters =
    record { address = "0xc0"; names = "mint" ∷ [] }
    ∷ record { address = "0xc0"; names = "burn" ∷ [] }
    ∷ []

abbrev raw_receipt : RawReceipt
raw_receipt = record {
  block_number = 100;
  block_hash = "0xb";
  transaction_hash = "0x1";
  from = "0xa1";
  transaction_index = 0;
  gas_used = 21000;
  effective_gas_price = none;
  status = success;
}

-- A chain whose blocks each have one transaction, which burns.
abbrev burning : Answers
burning = record {
  block = λ _. record {
    timestamp = 5;
    transactions = record { hash = "0x1"; to = some "0xC0"; input = "0xburn"; value = 0 } ∷ [];
  };
  receipt = λ _. raw_receipt;
  name = λ _ _. "burn";
}

abbrev burns : ReceiptsEnv
burns = record {
  block_by_number = λ b. ok (burning.block b);
  transaction_receipt = λ h. ok (burning.receipt h);
  function_name = λ a i. ok (burning.name a i);
  contract_id = λ _ a. a;
  insert_receipts = λ rs. ok rs;
}

get_formatted_transaction_receipts_lem_example :
    get_formatted_transaction_receipts burns (job two_filters)
    ≡ ok (
        rows_for burns burning 1 two_filters 5
          (record { hash = "0x1"; to = some "0xC0"; input = "0xburn"; value = 0 })
        ++ rows_for burns burning 1 two_filters 5
            (record { hash = "0x1"; to = some "0xC0"; input = "0xburn"; value = 0 }))
unfolding block_range to_lower
get_formatted_transaction_receipts_lem_example =
    get_formatted_transaction_receipts_lem burns burning (job two_filters)
      ((λ _. refl), (λ _. refl), (λ _ _. refl)) refl

abbrev relayer : RelayerRow
relayer = record {
  chain_id = 1;
  backend_wallet_address = "0xa1";
  allowed_contracts = some "[\"0xc0\"]";
  allowed_forwarders = some "[\"0xf\"]";
}

abbrev relays : RelayEnv
relays = record {
  parse_addresses = λ _. ok ("0xc0" ∷ []);
  get_sdk = λ _ _. ok tt;
  split_signature = λ x. ok (record { v = 27; r = x; s = x });
  join_signature = λ sig. sig.r;
  is_trusted_forwarder = λ _ _. ok true;
  verify = λ _ _ _ _. ok true;
  queue_tx = λ _ _. ok "q";
}

abbrev forwarded : RelayBody
forwarded =
    forward
      (record {
        from = "0xa2";
        to = "0xC0";
        value = "0";
        gas = "1";
        nonce = "0";
        call_data = "0x";
        chainid = none;
      })
      "0xsig" "0xf"

relay_transaction-permitted_example :
    is_queued (relay_transaction relays "r" (some relayer) forwarded) ≡ true
unfolding to_lower
relay_transaction-permitted_example =
    relay_transaction-permitted relays
      (record {
        signature = λ x. record { v = 27; r = x; s = x };
        trusted = λ _ _. true;
        queue_id = "q";
        addresses = λ _. "0xc0" ∷ [];
      })
      "r" relayer forwarded ((λ _ _. refl), (λ _. refl), (λ _ _. refl), (λ _ _. refl), (λ _. refl))

-- A row of the first transaction of a wallet, which was sent.
abbrev first_row : Row
first_row = record {
  id = "1";
  idempotency_key = "q";
  chain_id = 1;
  queued_at = 10;
  from_address = some "0xA1";
  to_address = some "0xB0";
  value = some 0;
  call_data = some "0x";
  function_name = none;
  function_args = none;
  fees = no_fees;
  deployed_contract_address = none;
  deployed_contract_type = none;
  extension = none;
  signer_address = none;
  account_address = none;
  target = none;
  sender = none;
  sent_at = some 20;
  sent_at_block_number = some 90;
  nonce = some 0;
  transaction_hash = some "0x1";
  user_op_hash = none;
}

abbrev second_row : Row
second_row = record first_row { id = "2"; idempotency_key = "r"; nonce = some 1 }

to_transaction-IsWellFormed_example :
    Gives (to_queued_transaction second_row) IsWellFormed
    × Gives (to_sent_transaction second_row) IsWellFormed
to_transaction-IsWellFormed_example = to_transaction-IsWellFormed second_row

handle_migration_lem_example :
    handle_migration memory 1000 (first_row ∷ second_row ∷ []) [] blank ≡ (
      ok tt,
      record blank {
        store =
            put_all memory 1000
              (moved to_sent_transaction (first_row ∷ second_row ∷ []))
              blank.store;
        effects = mine_job "r" ∷ cancel_rows ("2" ∷ []) ∷ [];
      },
    )
unfolding to_sent_transaction to_queued_transaction normalize_address to_lower
handle_migration_lem_example =
    handle_migration_lem memory 1000 (first_row ∷ second_row ∷ []) [] blank
