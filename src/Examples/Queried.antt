-- ===== src/Examples/Queried.antt =====
-- The queries of event logs and receipts, the websockets and the configuration, at concrete inputs.
use thirdweb_engine.Base.{ℕ, ◌≡◌, refl, false, Option, none, some, List, [], ◌∷◌, String, any}
use thirdweb_engine.Base.Decimal.{number_text, split, parse_int, parse_digits, digit_value}
use thirdweb_engine.Queries.{StoredLog, StoredReceipt}
use thirdweb_engine.Queries.Cursors.{
  CursorQuery, receipt_cursor_text, get_transaction_receipts_by_cursor, receipt_cursor_of,
  new_receipt_cursor, is_after_receipt_cursor, cursor_numbers, Cursor,
}
use thirdweb_engine.Queries.Skipped.{same_block, get_transaction_receipts_by_cursor-skips}
use thirdweb_engine.Queries.Routes.{BlockParams}
use thirdweb_engine.Examples.Marked.{marked, marked-IsBase64}
use thirdweb_engine.Examples.Tables.{log}

abbrev stored : ℕ → ℕ → StoredLog
stored i time = record { log = record log { log_index = i }; created_at = time }

abbrev rows : List StoredLog
rows = stored 1 5 ∷ stored 2 5 ∷ stored 1 7 ∷ []

abbrev pages : CursorQuery
pages = record {
  cursor = none;
  limit = 2;
  contract_addresses = none;
  topics = none;
  max_created_at = some 6;
}

-- The position of a log.
abbrev log_position : Cursor
log_position = record {
  created_at = 1700000000;
  chain_id = 137;
  block_number = 52;
  transaction_index = 0;
  log_index = 9;
}

abbrev receipt : ℕ → ℕ → StoredReceipt
receipt i time = record {
  receipt = record {
    chain_id = 1;
    block_number = 101;
    contract_address = "0xc0";
    contract_id = "c";
    block_hash = "0xb";
    transaction_hash = "0x1";
    timestamp = 5000;
    to = "0xc0";
    from = "0xa";
    value = 0;
    data_text = "0x";
    function_name = none;
    transaction_index = i;
    gas_used = 21000;
    effective_gas_price = none;
    status = 1;
  };
  created_at = time;
}

-- Two receipts of a block, of which the second is never answered, and one that was stored later.
abbrev receipts : List StoredReceipt
receipts = receipt 0 5 ∷ receipt 1 5 ∷ receipt 0 6 ∷ []

abbrev one_receipt : Option String → CursorQuery
one_receipt c = record pages { cursor = c; limit = 1 }

get_transaction_receipts_by_cursor-skips_example :
    any (same_block (receipt 0 5)) (receipt 0 6 ∷ []) ≡ false
unfolding get_transaction_receipts_by_cursor receipt_cursor_of new_receipt_cursor
    is_after_receipt_cursor receipt_cursor_text number_text cursor_numbers split parse_int
    parse_digits digit_value
get_transaction_receipts_by_cursor-skips_example =
    get_transaction_receipts_by_cursor-skips marked marked-IsBase64 (one_receipt none)
      (one_receipt (some "=5-1-101-0")) receipts receipts (receipt 0 5 ∷ []) (receipt 0 6 ∷ [])
      (some "=6-1-101-0") (receipt 0 5) refl refl refl

abbrev asked : BlockParams
asked = record {
  chain = "mainnet";
  contract_address = "0xC0";
  from_block = 100;
  to_block = some 150;
  topics = none;
}
