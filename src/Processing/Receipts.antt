-- ===== src/Processing/Receipts.antt =====
-- The worker that stores the receipts of the transactions to subscribed contracts in a range of
-- blocks: src/worker/tasks/processTransactionReceiptsWorker.ts. Its warning on receipts that an earlier
-- job missed is left out.
use thirdweb_engine.Base.{
  ℕ, zero, suc, ◌+◌, ◌-◌, ◌*◌, String, Option, none, some, List, [], ◌∷◌, ◌++◌, str_eq, is_empty,
  if◌then◌else◌,
}
use thirdweb_engine.Base.Text.{to_lower}
use thirdweb_engine.Transaction.{Address, Hex, OnchainStatus}
use thirdweb_engine.Engine.{Task, Result, ok, then_ok, Filter, RangeJob, pure, lift, ◌>>=◌}
use thirdweb_engine.Subscriptions.{WebhookRow, ContractSubscription, ReceiptRow}
use thirdweb_engine.Delivery.{JobQueue, Delivery, contract}
use thirdweb_engine.Delivery.Schemas.{status_number}
use thirdweb_engine.Processing.{
  ByAddress, lookup, assign, get_webhooks_by_contract_addresses, enqueue_rows,
}
use thirdweb_engine.Processing.Logs.{includes_text, all_ok, flat}

-- A transaction of a block.
pub record BlockTransaction : Type 0 where
  pub hash : Hex
  pub to : Option Address
  pub input : Hex
  pub value : ℕ

pub record Block : Type 0 where
  pub timestamp : ℕ
  pub transactions : List BlockTransaction

-- The result of `eth_getTransactionReceipt`.
pub record RawReceipt : Type 0 where
  pub block_number : ℕ
  pub block_hash : Hex
  pub transaction_hash : Hex
  pub from : Address
  pub transaction_index : ℕ
  pub gas_used : ℕ
  pub effective_gas_price : Option ℕ
  pub status : OnchainStatus

pub record ReceiptsEnv : Type 0 where
  pub block_by_number : ℕ → Result Block
  pub transaction_receipt : Hex → Result RawReceipt
  -- `getFunctionName`: the ABI of a contract, and `decodeFunctionData` by it
  pub function_name : Address → Hex → Result String
  -- `${chainId}:${contractAddress}`
  pub contract_id : ℕ → Address → String
  -- `createManyAndReturn` with `skipDuplicates`
  pub insert_receipts : List ReceiptRow → Result (List ReceiptRow)

-- `for (let i = fromBlock; i <= toBlock; i++)`: so many blocks from the first on.
abbrev pub blocks_from : ℕ → ℕ → List ℕ
blocks_from zero i = []
blocks_from (suc n) i = i ∷ blocks_from n (i + 1)

unfoldable pub block_range : ℕ → ℕ → List ℕ
block_range from to = blocks_from (to + 1 - from) from

-- The functions and the contract of an address. The functions that the first branch of the source
-- adds go to the array that the assignment after it replaces, so a filter replaces what an earlier
-- one of the address asked for.
unfoldable pub address_config : List Filter → ByAddress (List String) → ByAddress (List String)
address_config [] m = m
address_config (f ∷ fs) m = address_config fs (assign f.address f.names m)

-- What to do with a transaction of a block.
pub data Selection : Type 0 where
  skip : Selection
  store : Address → Option String → Selection

module _ (env : ReceiptsEnv) (chain : ℕ) where
  abbrev pub by_function : Address → List String → Hex → Result Selection
  by_function a names input =
      if is_empty names
      then ok (store a none)
      else then_ok (env.function_name a input)
          (λ n. ok (if includes_text names n then store a (some n) else skip))

  abbrev pub by_config : Address → Option (List String) → Hex → Result Selection
  by_config a none input = ok skip
  by_config a (some names) input = by_function a names input

  -- The tests of the loop, up to each `continue`.
  unfoldable pub select : ByAddress (List String) → BlockTransaction → Result Selection
  select m t = elim t.to [
    | none ↦ ok skip
    | some a ↦
        if str_eq a "" then ok skip else by_config (to_lower a) (lookup (to_lower a) m) t.input
  ]

  unfoldable pub receipt_row :
      ℕ → BlockTransaction → Address → Option String → RawReceipt → ReceiptRow
  receipt_row timestamp t a name r = record {
    chain_id = chain;
    block_number = r.block_number;
    contract_address = a;
    contract_id = env.contract_id chain a;
    block_hash = to_lower r.block_hash;
    transaction_hash = to_lower r.transaction_hash;
    timestamp = timestamp * 1000;
    to = a;
    from = to_lower r.from;
    value = t.value;
    data_text = t.input;
    function_name = name;
    transaction_index = r.transaction_index;
    gas_used = r.gas_used;
    effective_gas_price = r.effective_gas_price;
    status = status_number r.status;
  }

  abbrev pub selected_row : ℕ → BlockTransaction → Selection → Result (List ReceiptRow)
  selected_row timestamp t skip = ok []
  selected_row timestamp t (store a name) =
      then_ok (env.transaction_receipt t.hash) (λ r. ok (receipt_row timestamp t a name r ∷ []))

  -- The loop over the transactions of a block. An answer that fails ends it.
  unfoldable pub receipts_of :
      ByAddress (List String) → ℕ → List BlockTransaction → Result (List ReceiptRow)
  receipts_of m timestamp [] = ok []
  receipts_of m timestamp (t ∷ ts) =
      let rest = receipts_of m timestamp ts in
      then_ok (select m t) (λ s.
        then_ok (selected_row timestamp t s) (λ here. then_ok rest (λ more. ok (here ++ more))))

  -- `getFormattedTransactionReceiptsFromBlock`
  unfoldable pub receipts_from_block : ByAddress (List String) → ℕ → Result (List ReceiptRow)
  receipts_from_block m b =
      then_ok (env.block_by_number b) (λ block. receipts_of m block.timestamp block.transactions)

-- `getFormattedTransactionReceipts`
unfoldable pub get_formatted_transaction_receipts :
    ReceiptsEnv → RangeJob → Result (List ReceiptRow)
get_formatted_transaction_receipts env j =
    if is_empty j.filters
    then ok []
    else then_ok
        (all_ok (receipts_from_block env j.chain_id (address_config j.filters []))
          (block_range j.from_block j.to_block))
        (λ found. ok (flat found))

module _ (env : ReceiptsEnv) (Q : JobQueue) (rows : List WebhookRow)
    (subscriptions : List ContractSubscription) where
  -- `handler`
  unfoldable pub handle_receipts : RangeJob → Task (Delivery Q) (Unit {0})
  handle_receipts j = lift (get_formatted_transaction_receipts env j) >>= λ receipts.
      if is_empty receipts
      then pure tt
      else (lift (env.insert_receipts receipts) >>= λ inserted.
          enqueue_rows Q rows (λ (r : ReceiptRow). r.contract_address)
            (λ r w. contract w none (some r))
            (get_webhooks_by_contract_addresses j.chain_id subscriptions) inserted)
