-- ===== src/Examples/Tables.antt =====
-- The database and the queue of webhooks in memory, with the rows that the examples begin with.
use thirdweb_engine.Base.{
  ℕ, refl, true, false, Option, none, some, List, [], ◌∷◌, ◌++◌, ◌==◌, any, map, if◌then◌else◌,
}
use thirdweb_engine.Engine.{World}
use thirdweb_engine.Subscriptions.{WebhookRow, ContractSubscription, EventLog, Postgres}
use thirdweb_engine.Subscribing.{Writes, delete_row, revoke_row, revoke_joined}
use thirdweb_engine.Delivery.{JobQueue, JobId, WebhookJob, job_id_eq, Delivery}

pub record Tables : Type 0 where
  pub subscriptions : List ContractSubscription
  pub webhooks : List WebhookRow
  pub last_indexed_block : ℕ → Option ℕ

abbrev pub tables : Postgres
tables = record {
  Store = Tables;
  subscriptions = λ s. s.subscriptions;
  webhooks = λ s. s.webhooks;
  last_indexed_block = λ s. s.last_indexed_block;
  upsert = λ s c n. record s {
    last_indexed_block = λ d. if c == d then some n else s.last_indexed_block d;
  };
  last_indexed_block-upsert = λ s c n d. refl;
  subscriptions-upsert = λ s c n. refl;
}

abbrev pub writes : Writes tables
writes = record {
  create_subscription = λ s c. record s { subscriptions = s.subscriptions ++ c ∷ [] };
  create_webhook = λ s h. record s { webhooks = s.webhooks ++ h ∷ [] };
  delete_subscription =
      λ s id now. record s { subscriptions = map (delete_row id now) s.subscriptions };
  revoke_webhook = λ s id now. record s {
    subscriptions = map (revoke_joined id now) s.subscriptions;
    webhooks = map (revoke_row id now) s.webhooks;
  };
  subscriptions-create_subscription = λ s c. refl;
  subscriptions-create_webhook = λ s h. refl;
  subscriptions-delete_subscription = λ s id now. refl;
  subscriptions-revoke_webhook = λ s id now. refl;
  webhooks-delete_subscription = λ s id now. refl;
  webhooks-revoke_webhook = λ s id now. refl;
  last_indexed_block-create_subscription = λ s c d. refl;
  last_indexed_block-create_webhook = λ s h d. refl;
}

abbrev pub job_list : JobQueue
job_list = record {
  Queue = List (JobId × WebhookJob);
  jobs = λ q. q;
  add = λ q k j. if any (λ e. job_id_eq k e.0) q then q else q ++ (k, j) ∷ [];
  jobs-add = λ q k j. refl;
}

abbrev pub for_contracts : WebhookRow
for_contracts = record {
  id = 1;
  url = "https://a.example";
  secret = some "s";
  event_type = "contract_subscription";
  revoked_at = none;
}

abbrev pub for_transactions : WebhookRow
for_transactions = record {
  id = 2;
  url = "https://b.example";
  secret = none;
  event_type = "all_transactions";
  revoked_at = none;
}

abbrev pub subscription : ContractSubscription
subscription = record {
  id = "s1";
  chain_id = 1;
  contract_address = "0xc0";
  webhook = some for_contracts;
  process_event_logs = true;
  filter_events = [];
  process_transaction_receipts = false;
  filter_functions = [];
  deleted_at = none;
}

abbrev pub log : EventLog
log = record {
  chain_id = 1;
  block_number = 101;
  contract_address = "0xc0";
  transaction_hash = "0x1";
  topic0 = some "0xt";
  topic1 = none;
  topic2 = none;
  topic3 = none;
  data_text = "0x";
  event_name = some "Transfer";
  decoded_log = none;
  timestamp = 5000;
  transaction_index = 0;
  log_index = 7;
}

-- A database with one subscription, on a chain that is indexed up to block 100.
abbrev pub indexed : World Tables
indexed = record {
  store = record {
    subscriptions = subscription ∷ [];
    webhooks = for_contracts ∷ for_transactions ∷ [];
    last_indexed_block = λ c. if c == 1 then some 100 else none;
  };
  effects = [];
}

-- No job, and nothing cached.
abbrev pub no_jobs : World (Delivery job_list)
no_jobs = record { store = record { queue = []; cache = λ _. none }; effects = [] }
