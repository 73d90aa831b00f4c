-- ===== src/Examples/Indexers.antt =====
-- Indexers and the webhooks that they feed, at concrete inputs.
use thirdweb_engine.Base.{ℕ, ◌≤◌, ◌<◌, ◌≡◌, refl, true, false, none, some, [], ◌∷◌, any, arith}
use thirdweb_engine.Engine.{ok, sent_tx}
use thirdweb_engine.Subscriptions.{get_contract_subscriptions_by_chain_id}
use thirdweb_engine.ChainIndexer.{IndexerEnv, event_log_filters}
use thirdweb_engine.ChainIndexer.Coverage.{run_all, run_all-covers, runs, runs-reach, logs_block}
use thirdweb_engine.ChainIndexer.Registry.{
  Settings, manage_chain_indexers, manage_chain_indexers_lem, is_registered,
}
use thirdweb_engine.Delivery.{transaction_id, contract, transaction, enqueue_webhook}
use thirdweb_engine.Delivery.Jobs.{has_job}
use thirdweb_engine.Delivery.Events.{of_log, count_told, enqueue_all, enqueue_all-once}
use thirdweb_engine.Delivery.Once.{enqueue_transaction_job-webhooks}
use thirdweb_engine.Delivery.Requests.{RequestEnv, handle_webhook_job}
use thirdweb_engine.Delivery.Responses.{succeeds, handle_webhook_job-settled}
use thirdweb_engine.Examples.Setup.{sent_one}
use thirdweb_engine.Examples.Tables.{
  tables, job_list, for_contracts, for_transactions, subscription, log, indexed, no_jobs,
}

-- A chain whose head is block 130.
abbrev pub indexer : IndexerEnv
indexer = record {
  is_locked = λ _. false;
  block_number = λ _. ok 130;
  has_block = λ _ _. ok true;
  takes_update = λ _. true;
  requery_delays = 2 ∷ 20 ∷ [];
}

run_all-covers_example :
    (n : ℕ) × ((run_all tables 1 20 0 (indexer ∷ indexer ∷ []) indexed).store.last_indexed_block 1
      ≡ some n)
    × ((b : ℕ)
        → 100 < b
        → b ≤ n
        → any (logs_block 1 b) (run_all tables 1 20 0 (indexer ∷ indexer ∷ []) indexed).effects
          ≡ true)
unfolding get_contract_subscriptions_by_chain_id event_log_filters
run_all-covers_example = run_all-covers tables 1 20 0 (indexer ∷ indexer ∷ []) 100 indexed refl refl

runs-reach_example : (runs tables 1 20 0 2 indexer indexed).store.last_indexed_block 1 ≡ some 130
runs-reach_example =
    runs-reach tables 1 20 0 indexer 130 refl refl (λ _. refl) refl 2 100 indexed refl (omega arith)
      (omega arith)

abbrev settings : Settings
settings = record { max_blocks_to_index = 20; to_block_offset = 0; schedule = "*/2 * * * * *" }

manage_chain_indexers_lem_example :
    is_registered 1
      (manage_chain_indexers
        (λ _. ok settings)
        (subscription ∷ [])
        (record { store = (5, settings) ∷ []; effects = [] })).1.store
    ≡ true
manage_chain_indexers_lem_example =
    (manage_chain_indexers_lem (λ _. ok settings) (λ _. settings) (λ _. refl) (subscription ∷ [])
        (record { store = (5, settings) ∷ []; effects = [] })).1
      1

enqueue_all-once_example :
    count_told "https://a.example"
      (of_log "0x1" 7)
      (enqueue_all job_list
        (([], contract for_contracts (some log) none)
          ∷ ([], contract for_contracts (some log) none)
          ∷ [])
        no_jobs).store.queue
    ≤ 1
enqueue_all-once_example =
    enqueue_all-once job_list
      (([], contract for_contracts (some log) none)
        ∷ ([], contract for_contracts (some log) none)
        ∷ [])
      no_jobs "https://a.example" (of_log "0x1" 7) refl

enqueue_transaction_job-webhooks_example :
    has_job
      (transaction_id "https://b.example" "sent_transaction" "q")
      (enqueue_webhook job_list
        (for_contracts ∷ for_transactions ∷ [])
        (transaction sent_tx "q")
        no_jobs).1.store.queue
    ≡ true
enqueue_transaction_job-webhooks_example =
    (enqueue_transaction_job-webhooks job_list (for_contracts ∷ for_transactions ∷ []) sent_tx "q"
      no_jobs "https://b.example" refl refl).1

-- A webhook that answers with an error of the server.
abbrev failing : RequestEnv
failing = record {
  now = 50_000;
  generate_signature = λ _ _ _. "0xsig";
  fetch = λ _ _ _. ok (record { is_ok = false; status = 503; body = "" });
  show_thrown = λ _. "Error";
}

handle_webhook_job-settled_example :
    succeeds (
      handle_webhook_job failing
        (λ _. some sent_one)
        (record { webhook_data = transaction sent_tx "q"; webhook = for_transactions }))
    ≡ false
handle_webhook_job-settled_example =
    handle_webhook_job-settled failing (λ _. some sent_one)
      (record { webhook_data = transaction sent_tx "q"; webhook = for_transactions }) _ refl
