-- ===== src/ChainIndexer.antt =====
-- The worker that looks for new blocks of a chain and hands their ranges to the queues:
-- src/worker/tasks/chainIndexer.ts, with the `add` of src/worker/queues/processEventLogsQueue.ts and
-- processTransactionReceiptsQueue.ts. Its log lines are left out.
pub mod Progress
pub mod Coverage
pub mod Registry
use thirdweb_engine.Base.{
  ℕ, ◌+◌, ◌-◌, ◌*◌, Bool, not, Option, none, some, List, [], ◌∷◌, leb, is_empty, filter, map,
  if◌then◌else◌,
}
use thirdweb_engine.Engine.{
  Task, Result, ok, error, RangeJob, RangeQueue, event_logs_queue, receipts_queue, JobOptions,
  Filter, range_job, pure, lift, gets, modify, emit, when, try_catch, ◌>>=◌, ◌>>◌,
}
use thirdweb_engine.Subscriptions.{
  Postgres, ContractSubscription, get_contract_subscriptions_by_chain_id,
}

-- What a run of an indexer meets outside.
pub record IndexerEnv : Type 0 where
  -- whether the row of a chain is locked by another run: `FOR UPDATE NOWAIT`
  pub is_locked : ℕ → Bool
  pub block_number : ℕ → Result ℕ
  -- whether `getBlockWithTransactions` finds the block
  pub has_block : ℕ → ℕ → Result Bool
  -- whether Postgres takes the update
  pub takes_update : ℕ → Bool
  -- the items of `contractSubscriptionsRequeryDelaySeconds`
  pub requery_delays : List ℕ

-- The delayed jobs. The last one has ten attempts.
abbrev pub delayed : List ℕ → List JobOptions
delayed [] = []
delayed (d ∷ ds) =
    record { delay = some (d * 1000); attempts = if is_empty ds then 10 else 0 } ∷ delayed ds

abbrev pub immediate : JobOptions
immediate = record { delay = none; attempts = 0 }

module _ {S : Type 0} where
  unfoldable pub add_all : RangeQueue → RangeJob → List JobOptions → Task S (Unit {0})
  add_all q j [] = pure tt
  add_all q j (o ∷ os) = emit (range_job q j o) >> add_all q j os

  -- `ProcessEventsLogQueue.add` and `ProcessTransactionReceiptsQueue.add`: one job at once, and one
  -- after each of the delays.
  unfoldable pub add_range_job : RangeQueue → List ℕ → RangeJob → Task S (Unit {0})
  add_range_job q delays j = add_all q j (immediate ∷ delayed delays)

-- `Math.min(currentBlockNumber, fromBlock + maxBlocksToIndex)`. An offset above the head makes the
-- source's number negative and this one 0: neither is above a block to start from.
unfoldable pub to_block : ℕ → ℕ → ℕ → ℕ → ℕ
to_block head offset from max =
    if leb (head - offset) (from + max) then head - offset else from + max

unfoldable pub event_log_filters : List ContractSubscription → List Filter
event_log_filters cs =
    map
      (λ (c : ContractSubscription). record {
        address = c.contract_address;
        names = c.filter_events;
      })
      (filter (λ c. c.process_event_logs) cs)

unfoldable pub receipt_filters : List ContractSubscription → List Filter
receipt_filters cs =
    map
      (λ (c : ContractSubscription). record {
        address = c.contract_address;
        names = c.filter_functions;
      })
      (filter (λ c. c.process_transaction_receipts) cs)

abbrev row_block : Bool → Option ℕ → Result ℕ
row_block locked row = if locked then error "could not obtain lock on row" else found row
  where
    found : Option ℕ → Result ℕ
    found none = error "Cannot read properties of undefined (reading 'lastIndexedBlock')"
    found (some n) = ok n

module _ (P : Postgres) (env : IndexerEnv) where
  open P use {Store, subscriptions, last_indexed_block, upsert}

  -- `getBlockForIndexing`. It throws if the row is locked, and if there is none.
  unfoldable pub get_block_for_indexing : ℕ → Task Store ℕ
  get_block_for_indexing chain =
      gets (λ s. last_indexed_block s chain) >>= λ row. lift (row_block (env.is_locked chain) row)

  -- `upsertChainIndexer`
  unfoldable pub upsert_chain_indexer : ℕ → ℕ → Task Store (Unit {0})
  upsert_chain_indexer chain n =
      if env.takes_update chain
      then modify (λ s. upsert s chain n)
      else lift (error "the update failed")

  -- The jobs of a range, and the update of the row, whose failure is only logged.
  unfoldable pub process_range : ℕ → ℕ → ℕ → Task Store (Unit {0})
  process_range chain from to = do
    rows ← gets (λ s. get_contract_subscriptions_by_chain_id chain (subscriptions s))
    let job : List Filter → RangeJob =
        λ fs. record { chain_id = chain; filters = fs; from_block = from; to_block = to }
    when (not (is_empty (event_log_filters rows)))
        (add_range_job event_logs_queue env.requery_delays (job (event_log_filters rows)))
    when (not (is_empty (receipt_filters rows)))
        (add_range_job receipts_queue env.requery_delays (job (receipt_filters rows)))
    try_catch (upsert_chain_indexer chain to) (λ _. pure tt) (λ _. pure tt)

  -- The body of the transaction, from the block that the last run ended with.
  unfoldable pub index_from : ℕ → ℕ → ℕ → ℕ → Task Store (Unit {0})
  index_from chain max offset from = do
    head ← lift (env.block_number chain)
    let to : ℕ = to_block head offset from max
    if leb to from
        then pure tt
        else lift (env.has_block chain to) >>= λ found.
            if found then process_range chain from to else pure tt

  -- `chainIndexerTask`. What is thrown is only logged.
  unfoldable pub chain_indexer_task : ℕ → ℕ → ℕ → Task Store (Unit {0})
  chain_indexer_task chain max offset =
      try_catch
        (try_catch (get_block_for_indexing chain) (λ _. pure tt) (index_from chain max offset))
        (λ _. pure tt) (λ _. pure tt)
