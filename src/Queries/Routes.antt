-- ===== src/Queries/Routes.antt =====
-- The routes that query event logs and receipts: getContractEventLogs.ts, getEventLogsByTimestamp.ts
-- and paginateEventLogs.ts of src/server/routes/contract/events/, getTransactionReceipts.ts,
-- getTransactionReceiptsByTimestamp.ts and paginateTransactionReceipts.ts of
-- src/server/routes/contract/transactions/, and getContractIndexedBlockRange.ts of
-- src/server/routes/contract/subscriptions/.
use thirdweb_engine.Base.{
  ℕ, zero, suc, ◌-◌, ◌*◌, String, Option, none, some, List, ltb, map, if◌then◌else◌,
}
use thirdweb_engine.Base.Text.{to_lower}
use thirdweb_engine.Transaction.{Address}
use thirdweb_engine.Engine.{Result, ok, err, bad_request, then_ok}
use thirdweb_engine.Subscriptions.{ContractSubscription, is_contract_subscribed}
use thirdweb_engine.Delivery.Schemas.{
  EventLogSchema, to_event_log_schema, ReceiptSchema, to_transaction_receipt_schema,
}
use thirdweb_engine.Queries.{
  StoredLog, StoredReceipt, BlockQuery, get_contract_event_logs_by_block_and_topics,
  get_contract_transaction_receipts_by_block, TimeQuery, get_event_logs_by_block_timestamp,
  get_transaction_receipts_by_block_timestamp, get_contract_event_logs_indexed_block_range,
}
use thirdweb_engine.Queries.Cursors.{
  Base64, CursorQuery, get_event_logs_by_cursor, get_transaction_receipts_by_cursor,
}

-- `createCustomError` with the status 404
abbrev pub not_found {ℓ} : {A : Type ℓ} → String → String → Result A
not_found m c = err (record { message = some m; code = some c; status_code = some 404 })

abbrev pub max_allowed_query_blocks : ℕ
max_allowed_query_blocks = 100

-- The two checks of `toBlock`, for one that is there and is not 0.
unfoldable pub check_range : ℕ → Option ℕ → Result (Unit {0})
check_range from none = ok tt
check_range from (some zero) = ok tt
check_range from (some (suc to)) =
    if ltb (suc to) from
    then bad_request "toBlock cannot be less than fromBlock" "BAD_REQUEST"
    else if ltb max_allowed_query_blocks (suc to - from)
    then bad_request "cannot query more than 100" "BAD_REQUEST"
    else ok tt

pub record BlockParams : Type 0 where
  pub chain : String
  pub contract_address : Address
  pub from_block : ℕ
  pub to_block : Option ℕ
  pub topics : Option (List String)

pub record PageParams : Type 0 where
  pub cursor : Option String
  pub page_size : Option ℕ
  pub topics : Option (List String)
  pub contract_addresses : Option (List Address)

-- `contractAddresses?.map((val) => val.toLowerCase())`
abbrev pub standardized : Option (List Address) → Option (List Address)
standardized none = none
standardized (some addresses) = some (map to_lower addresses)

-- `limit = 100` of a page size that may be left out
abbrev pub limit_of : Option ℕ → ℕ
limit_of none = 100
limit_of (some n) = n

module _ (chain_id_of : String → Result ℕ) (subs : List ContractSubscription) where
  -- What both routes by block do before they query: the query, for a contract with a subscription.
  unfoldable pub block_query : BlockParams → Result BlockQuery
  block_query p = then_ok (check_range p.from_block p.to_block) (λ _.
      then_ok (chain_id_of p.chain) (λ chain.
        if is_contract_subscribed chain (to_lower p.contract_address) subs
        then ok (record {
          chain_id = chain;
          contract_address = to_lower p.contract_address;
          from_block = p.from_block;
          to_block = p.to_block;
          topics = p.topics;
        })
        else not_found "Contract is not subscribed to!" "NOT_FOUND"))

  -- The handler of `getContractEventLogs`. The message of its last error goes on with a URL.
  unfoldable pub get_contract_event_logs :
      BlockParams → List StoredLog → Result (List EventLogSchema)
  get_contract_event_logs p rows = then_ok (block_query p) (λ q. ok (
      map (λ (r : StoredLog). to_event_log_schema r.log)
        (get_contract_event_logs_by_block_and_topics q rows)))

  -- The handler of `getContractTransactionReceipts`, whose request has no topics
  unfoldable pub get_contract_transaction_receipts :
      BlockParams → List StoredReceipt → Result (List ReceiptSchema)
  get_contract_transaction_receipts p rows = then_ok (block_query p) (λ q. ok (
      map (λ (r : StoredReceipt). to_transaction_receipt_schema r.receipt)
        (get_contract_transaction_receipts_by_block q rows)))

-- The handler of `getEventLogs` by timestamp
unfoldable pub get_event_logs_by_timestamp : TimeQuery → List StoredLog → List EventLogSchema
get_event_logs_by_timestamp q rows =
    map (λ (r : StoredLog). to_event_log_schema r.log)
      (get_event_logs_by_block_timestamp
        (record q { contract_addresses = standardized q.contract_addresses }) rows)

-- The handler of `getContractTransactionReceiptsByTimestamp`
unfoldable pub get_transaction_receipts_by_timestamp :
    TimeQuery → List StoredReceipt → List ReceiptSchema
get_transaction_receipts_by_timestamp q rows =
    map (λ (r : StoredReceipt). to_transaction_receipt_schema r.receipt)
      (get_transaction_receipts_by_block_timestamp
        (record q { contract_addresses = standardized q.contract_addresses }) rows)

-- The query of a page: rows that were stored before the last seconds only.
abbrev pub page_query : ℕ → ℕ → PageParams → CursorQuery
page_query now cursor_delay_seconds p = record {
  cursor = p.cursor;
  limit = limit_of p.page_size;
  contract_addresses = standardized p.contract_addresses;
  topics = p.topics;
  max_created_at = some (now - cursor_delay_seconds * 1000);
}

module _ (B : Base64) (now cursor_delay_seconds : ℕ) where
  -- The handler of `pageEventLogs`
  unfoldable pub page_event_logs :
      PageParams → List StoredLog → Result (Option String × List EventLogSchema)
  page_event_logs p rows =
      then_ok (get_event_logs_by_cursor B (page_query now cursor_delay_seconds p) rows)
        (λ page. ok (page.0, map (λ (r : StoredLog). to_event_log_schema r.log) page.1))

  -- The handler of `pageTransactionReceipts`, whose request has no topics
  unfoldable pub page_transaction_receipts :
      PageParams → List StoredReceipt → Result (Option String × List ReceiptSchema)
  page_transaction_receipts p rows =
      then_ok (get_transaction_receipts_by_cursor B (page_query now cursor_delay_seconds p) rows)
        (λ page.
          ok (page.0, map (λ (r : StoredReceipt). to_transaction_receipt_schema r.receipt) page.1))

-- `!result.fromBlock || !result.toBlock`
abbrev pub both_blocks : Option ℕ × Option ℕ → Result (ℕ × ℕ)
both_blocks (some (suc from), some (suc to)) = ok (suc from, suc to)
both_blocks _ = not_found "No logs found" "LOG_NOT_FOUND"

-- The handler of `getContractIndexedBlockRange`
unfoldable pub get_contract_indexed_block_range :
    (String → Result ℕ) → String → Address → List StoredLog → Result (ℕ × ℕ)
get_contract_indexed_block_range chain_id_of chain address rows =
    then_ok (chain_id_of chain)
      (λ c. both_blocks (get_contract_event_logs_indexed_block_range c (to_lower address) rows))
