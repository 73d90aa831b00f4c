-- ===== src/Queries/Cursors.antt =====
-- The queries by cursor: `getEventLogsByCursor` and `getTransactionReceiptsByCursor` of
-- src/db/contractEventLogs/getContractEventLogs.ts and
-- src/db/contractTransactionReceipts/getContractTransactionReceipts.ts. A cursor is the position of the
-- last row that was read, as a text in base 64.
use thirdweb_engine.Base.{
  ℕ, Bool, true, ◌&&◌, ◌||◌, String, Option, none, some, List, ◌∷◌, ltb, leb, ◌==◌, filter, take,
  map, or_else,
}
use thirdweb_engine.Base.Text.{◌+++◌}
use thirdweb_engine.Base.Decimal.{number_text, parse_int, split}
use thirdweb_engine.Transaction.{Address}
use thirdweb_engine.Errors.{truthy}
use thirdweb_engine.Engine.{Result, ok, error, then_ok}
use thirdweb_engine.Queries.{StoredLog, StoredReceipt, address_is_in, topic_is_in}
use thirdweb_engine.Queries.Order.{last}

-- The package base-64.
pub record Base64 : Type 0 where
  pub encode : String → String
  pub decode : String → Result String

pub record Cursor : Type 0 where
  pub created_at : ℕ
  pub chain_id : ℕ
  pub block_number : ℕ
  pub transaction_index : ℕ
  pub log_index : ℕ

-- A cursor of receipts has no log index.
pub record ReceiptCursor : Type 0 where
  pub created_at : ℕ
  pub chain_id : ℕ
  pub block_number : ℕ
  pub transaction_index : ℕ

-- The text of the template. The dash stands between two numbers.
unfoldable pub cursor_text : Cursor → String
cursor_text c =
    number_text c.created_at
    +++ "-"
    +++ number_text c.chain_id
    +++ "-"
    +++ number_text c.block_number
    +++ "-"
    +++ number_text c.transaction_index
    +++ "-"
    +++ number_text c.log_index

unfoldable pub receipt_cursor_text : ReceiptCursor → String
receipt_cursor_text c =
    number_text c.created_at
    +++ "-"
    +++ number_text c.chain_id
    +++ "-"
    +++ number_text c.block_number
    +++ "-"
    +++ number_text c.transaction_index

-- `CursorSchema.safeParse` of the first numbers, which takes no NaN and no `undefined`
abbrev pub parse_cursor : List (Option ℕ) → Result Cursor
parse_cursor (some t ∷ some c ∷ some b ∷ some i ∷ some l ∷ _) = ok (record {
  created_at = t;
  chain_id = c;
  block_number = b;
  transaction_index = i;
  log_index = l;
})
parse_cursor _ = error "Invalid cursor format"

abbrev pub parse_receipt_cursor : List (Option ℕ) → Result ReceiptCursor
parse_receipt_cursor (some t ∷ some c ∷ some b ∷ some i ∷ _) =
    ok (record { created_at = t; chain_id = c; block_number = b; transaction_index = i })
parse_receipt_cursor _ = error "Invalid cursor format"

-- `decodedCursor.split("-").map((val) => parseInt(val))`
unfoldable pub cursor_numbers : String → List (Option ℕ)
cursor_numbers s = map parse_int (split b'-' s)

-- The position of a row.
abbrev pub position : StoredLog → Cursor
position r = record {
  created_at = r.created_at;
  chain_id = r.log.chain_id;
  block_number = r.log.block_number;
  transaction_index = r.log.transaction_index;
  log_index = r.log.log_index;
}

abbrev pub receipt_position : StoredReceipt → ReceiptCursor
receipt_position r = record {
  created_at = r.created_at;
  chain_id = r.receipt.chain_id;
  block_number = r.receipt.block_number;
  transaction_index = r.receipt.transaction_index;
}

-- The five alternatives of the `OR`.
unfoldable pub is_after_cursor : Cursor → StoredLog → Bool
is_after_cursor c r =
    let at_time = r.created_at == c.created_at in
    let on_chain = r.log.chain_id == c.chain_id in
    let in_block = r.log.block_number == c.block_number in
    let in_transaction = r.log.transaction_index == c.transaction_index in
    ltb c.created_at r.created_at
    || ((at_time && ltb c.chain_id r.log.chain_id)
        || ((at_time && (on_chain && ltb c.block_number r.log.block_number))
            || ((at_time
                  && (on_chain && (in_block && ltb c.transaction_index r.log.transaction_index)))
                || (at_time
                    && (on_chain
                        && (in_block && (in_transaction && ltb c.log_index r.log.log_index)))))))

-- The four alternatives of the `OR`. The last one asks for a later block, too.
unfoldable pub is_after_receipt_cursor : ReceiptCursor → StoredReceipt → Bool
is_after_receipt_cursor c r =
    let at_time = r.created_at == c.created_at in
    let on_chain = r.receipt.chain_id == c.chain_id in
    let later_block = ltb c.block_number r.receipt.block_number in
    ltb c.created_at r.created_at
    || ((at_time && ltb c.chain_id r.receipt.chain_id)
        || ((at_time && (on_chain && later_block))
            || (at_time
                && (on_chain
                    && (later_block && ltb c.transaction_index r.receipt.transaction_index)))))

-- `maxCreatedAt ? [{ createdAt: { lte: maxCreatedAt } }] : []`. A date is never falsy.
abbrev pub is_created_by : Option ℕ → ℕ → Bool
is_created_by none t = true
is_created_by (some m) t = leb t m

pub record CursorQuery : Type 0 where
  pub cursor : Option String
  pub limit : ℕ
  pub contract_addresses : Option (List Address)
  pub topics : Option (List String)
  pub max_created_at : Option ℕ

-- What a query asks of a log but for its cursor.
abbrev pub matches : CursorQuery → StoredLog → Bool
matches q r =
    address_is_in q.contract_addresses r.log.contract_address
    && (is_created_by q.max_created_at r.created_at && topic_is_in q.topics r.log)

abbrev pub receipt_matches : CursorQuery → StoredReceipt → Bool
receipt_matches q r =
    address_is_in q.contract_addresses r.receipt.contract_address
    && is_created_by q.max_created_at r.created_at

abbrev pub is_after : Option Cursor → StoredLog → Bool
is_after none r = true
is_after (some c) r = is_after_cursor c r

abbrev pub is_after_receipt : Option ReceiptCursor → StoredReceipt → Bool
is_after_receipt none r = true
is_after_receipt (some c) r = is_after_receipt_cursor c r

module _ (B : Base64) where
  open B use {encode, decode}

  -- `cursorObj`
  unfoldable pub cursor_of : Option String → Result (Option Cursor)
  cursor_of cursor = read (truthy cursor)
    where
      read : Option String → Result (Option Cursor)
      read none = ok none
      read (some s) =
          then_ok (decode s) (λ d. then_ok (parse_cursor (cursor_numbers d)) (λ c. ok (some c)))

  unfoldable pub receipt_cursor_of : Option String → Result (Option ReceiptCursor)
  receipt_cursor_of cursor = read (truthy cursor)
    where
      read : Option String → Result (Option ReceiptCursor)
      read none = ok none
      read (some s) =
          then_ok (decode s)
            (λ d. then_ok (parse_receipt_cursor (cursor_numbers d)) (λ c. ok (some c)))

  -- The new cursor: that of the last row, and without rows the one of the query.
  unfoldable pub new_cursor : Option String → List StoredLog → Option String
  new_cursor cursor logs = or_else (cursor_at (last logs)) cursor
    where
      cursor_at : Option StoredLog → Option String
      cursor_at none = none
      cursor_at (some r) = some (encode (cursor_text (position r)))

  unfoldable pub new_receipt_cursor : Option String → List StoredReceipt → Option String
  new_receipt_cursor cursor receipts = or_else (cursor_at (last receipts)) cursor
    where
      cursor_at : Option StoredReceipt → Option String
      cursor_at none = none
      cursor_at (some r) = some (encode (receipt_cursor_text (receipt_position r)))

  -- `getEventLogsByCursor`, of the rows in the order of its `orderBy`
  unfoldable pub get_event_logs_by_cursor :
      CursorQuery → List StoredLog → Result (Option String × List StoredLog)
  get_event_logs_by_cursor q rows = then_ok (cursor_of q.cursor) (λ c.
      let logs = take q.limit (filter (λ r. matches q r && is_after c r) rows) in
      ok (new_cursor q.cursor logs, logs))

  -- `getTransactionReceiptsByCursor`, of the rows in the order of its `orderBy`
  unfoldable pub get_transaction_receipts_by_cursor :
      CursorQuery → List StoredReceipt → Result (Option String × List StoredReceipt)
  get_transaction_receipts_by_cursor q rows = then_ok (receipt_cursor_of q.cursor) (λ c.
      let receipts =
        take q.limit (filter (λ r. receipt_matches q r && is_after_receipt c r) rows) in
      ok (new_receipt_cursor q.cursor receipts, receipts))
