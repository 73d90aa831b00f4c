-- ===== src/Queries.antt =====
-- The queries of the stored event logs and receipts: src/db/contractEventLogs/getContractEventLogs.ts
-- and src/db/contractTransactionReceipts/getContractTransactionReceipts.ts. The rows of a table are
-- arguments; Prisma's `findMany` answers those that its `where` takes.
pub mod Order
pub mod Cursors
pub mod RoundTrip
pub mod Pages
pub mod Skipped
pub mod Routes
pub mod Answered
use thirdweb_engine.Base.{
  ℕ, zero, suc, Bool, true, false, ◌&&◌, ◌||◌, String, Option, none, some, List, [], ◌∷◌, leb, ◌==◌,
  any, filter, str_eq, if◌then◌else◌,
}
use thirdweb_engine.Transaction.{Address}
use thirdweb_engine.Subscriptions.{EventLog, ReceiptRow}

-- Rows with the time at which they were stored, `createdAt`.
pub record StoredLog : Type 0 where
  pub log : EventLog
  pub created_at : ℕ

pub record StoredReceipt : Type 0 where
  pub receipt : ReceiptRow
  pub created_at : ℕ

-- `{ in: texts }`, which takes no `null`
abbrev pub is_in : List String → Option String → Bool
is_in ts none = false
is_in ts (some s) = any (str_eq s) ts

-- `contractAddresses && contractAddresses.length > 0 ? … : {}`
abbrev pub address_is_in : Option (List Address) → Address → Bool
address_is_in none a = true
address_is_in (some []) a = true
address_is_in (some (b ∷ bs)) a = is_in (b ∷ bs) (some a)

-- The `OR` over the four topics.
abbrev pub has_topic_of : List String → EventLog → Bool
has_topic_of ts l =
    is_in ts l.topic0 || (is_in ts l.topic1 || (is_in ts l.topic2 || is_in ts l.topic3))

-- `topics && topics.length > 0 ? { OR: … } : {}`
abbrev pub topic_is_in : Option (List String) → EventLog → Bool
topic_is_in none l = true
topic_is_in (some []) l = true
topic_is_in (some (t ∷ ts)) l = has_topic_of (t ∷ ts) l

-- `bound ? { lte: bound } : {}`
abbrev pub is_up_to : Option ℕ → ℕ → Bool
is_up_to none n = true
is_up_to (some zero) n = true
is_up_to (some (suc b)) n = leb n (suc b)

pub record BlockQuery : Type 0 where
  pub chain_id : ℕ
  pub contract_address : Address
  pub from_block : ℕ
  pub to_block : Option ℕ
  pub topics : Option (List String)

-- `getContractEventLogsByBlockAndTopics`
unfoldable pub get_contract_event_logs_by_block_and_topics :
    BlockQuery → List StoredLog → List StoredLog
get_contract_event_logs_by_block_and_topics q = filter (λ r.
    r.log.chain_id == q.chain_id
    && (str_eq r.log.contract_address q.contract_address
        && (leb q.from_block r.log.block_number
            && (is_up_to q.to_block r.log.block_number && topic_is_in q.topics r.log))))

-- `getContractTransactionReceiptsByBlock`, which has no topics
unfoldable pub get_contract_transaction_receipts_by_block :
    BlockQuery → List StoredReceipt → List StoredReceipt
get_contract_transaction_receipts_by_block q = filter (λ r.
    r.receipt.chain_id == q.chain_id
    && (str_eq r.receipt.contract_address q.contract_address
        && (leb q.from_block r.receipt.block_number && is_up_to q.to_block r.receipt.block_number)))

pub record TimeQuery : Type 0 where
  pub from_block_timestamp : ℕ
  pub to_block_timestamp : Option ℕ
  pub contract_addresses : Option (List Address)
  pub topics : Option (List String)

-- `getEventLogsByBlockTimestamp`
unfoldable pub get_event_logs_by_block_timestamp : TimeQuery → List StoredLog → List StoredLog
get_event_logs_by_block_timestamp q = filter (λ r.
    leb q.from_block_timestamp r.log.timestamp
    && (is_up_to q.to_block_timestamp r.log.timestamp
        && (address_is_in q.contract_addresses r.log.contract_address
            && topic_is_in q.topics r.log)))

-- `getTransactionReceiptsByBlockTimestamp`, which has no topics
unfoldable pub get_transaction_receipts_by_block_timestamp :
    TimeQuery → List StoredReceipt → List StoredReceipt
get_transaction_receipts_by_block_timestamp q = filter (λ r.
    leb q.from_block_timestamp r.receipt.timestamp
    && (is_up_to q.to_block_timestamp r.receipt.timestamp
        && address_is_in q.contract_addresses r.receipt.contract_address))

-- The aggregates `_min` and `_max` of block numbers, which are null of no rows.
abbrev pub min_block : List StoredLog → Option ℕ
min_block [] = none
min_block (r ∷ rs) = elim (min_block rs) [
  | none ↦ some r.log.block_number
  | some n ↦ some (if leb n r.log.block_number then n else r.log.block_number)
]

abbrev pub max_block : List StoredLog → Option ℕ
max_block [] = none
max_block (r ∷ rs) = elim (max_block rs) [
  | none ↦ some r.log.block_number
  | some n ↦ some (if leb n r.log.block_number then r.log.block_number else n)
]

-- `getContractEventLogsIndexedBlockRange`
unfoldable pub get_contract_event_logs_indexed_block_range :
    ℕ → Address → List StoredLog → Option ℕ × Option ℕ
get_contract_event_logs_indexed_block_range chain address rows =
    let found =
      filter (λ r. r.log.chain_id == chain && str_eq r.log.contract_address address) rows in
    (min_block found, max_block found)
