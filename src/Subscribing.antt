-- ===== src/Subscribing.antt =====
-- The routes that add and remove a contract subscription:
-- src/server/routes/contract/subscriptions/addContractSubscription.ts and
-- removeContractSubscription.ts, with src/db/contractSubscriptions/createContractSubscription.ts and
-- deleteContractSubscription.ts, and src/db/webhooks/createWebhook.ts and revokeWebhook.ts.
pub mod Added
pub mod Indexed
pub mod Removed
use thirdweb_engine.Base.{
  ℕ, ◌≡◌, Bool, not, ◌&&◌, String, Option, none, some, List, [], ◌∷◌, ◌++◌, ◌==◌, map, str_eq,
  if◌then◌else◌,
}
use thirdweb_engine.Base.Text.{to_lower}
use thirdweb_engine.Transaction.{Address}
use thirdweb_engine.Errors.{truthy}
use thirdweb_engine.Engine.{
  Task, Result, error, bad_request, pure, lift, gets, modify, when, try_catch, ◌>>=◌, ◌>>◌,
}
use thirdweb_engine.Subscriptions.{
  Postgres, WebhookRow, ContractSubscription, get_contract_subscriptions_unique_chain_ids,
}
use thirdweb_engine.ChainIndexer.{IndexerEnv, upsert_chain_indexer}
use thirdweb_engine.ChainIndexer.Registry.{includes_id}

-- What an update of a row by its ID does to each row.
abbrev pub delete_row : String → ℕ → ContractSubscription → ContractSubscription
delete_row id now c = if str_eq c.id id then record c { deleted_at = some now } else c

abbrev pub revoke_row : ℕ → ℕ → WebhookRow → WebhookRow
revoke_row id now h = if h.id == id then record h { revoked_at = some now } else h

abbrev pub revoke_joined : ℕ → ℕ → ContractSubscription → ContractSubscription
revoke_joined id now c = record c {
  webhook = elim c.webhook [ none ↦ none | some h ↦ some (revoke_row id now h) ];
}

-- The writes of the routes to the database, and what they leave in its tables.
pub record Writes (P : Postgres) : Type 0 where
  pub create_subscription : P.Store → ContractSubscription → P.Store
  pub create_webhook : P.Store → WebhookRow → P.Store
  pub delete_subscription : P.Store → String → ℕ → P.Store
  pub revoke_webhook : P.Store → ℕ → ℕ → P.Store
  pub subscriptions-create_subscription :
      (s : P.Store) (c : ContractSubscription)
      → P.subscriptions (create_subscription s c) ≡ P.subscriptions s ++ c ∷ []
  pub subscriptions-create_webhook :
      (s : P.Store) (h : WebhookRow) → P.subscriptions (create_webhook s h) ≡ P.subscriptions s
  pub subscriptions-delete_subscription :
      (s : P.Store) (id : String) (now : ℕ)
      → P.subscriptions (delete_subscription s id now) ≡ map (delete_row id now) (P.subscriptions s)
  pub subscriptions-revoke_webhook :
      (s : P.Store) (id now : ℕ)
      → P.subscriptions (revoke_webhook s id now) ≡ map (revoke_joined id now) (P.subscriptions s)
  pub webhooks-delete_subscription :
      (s : P.Store) (id : String) (now : ℕ)
      → P.webhooks (delete_subscription s id now) ≡ P.webhooks s
  pub webhooks-revoke_webhook :
      (s : P.Store) (id now : ℕ)
      → P.webhooks (revoke_webhook s id now) ≡ map (revoke_row id now) (P.webhooks s)
  pub last_indexed_block-create_subscription :
      (s : P.Store) (c : ContractSubscription) (d : ℕ)
      → P.last_indexed_block (create_subscription s c) d ≡ P.last_indexed_block s d
  pub last_indexed_block-create_webhook :
      (s : P.Store) (h : WebhookRow) (d : ℕ)
      → P.last_indexed_block (create_webhook s h) d ≡ P.last_indexed_block s d

-- What the routes meet outside.
pub record RouteEnv : Type 0 where
  pub now : ℕ
  -- `getChainIdFromChain`
  pub chain_id_of : String → Result ℕ
  -- `getChain` and `isContractDeployed`
  pub is_contract_deployed : ℕ → Address → Result Bool
  -- the RPC, and whether Postgres takes an update of `chain_indexers`
  pub indexing : IndexerEnv
  pub is_valid_http_url : String → Bool
  -- the random secret of a webhook
  pub secret : String
  -- what Postgres answers to the creation of a row: its ID
  pub webhook_id : Result ℕ
  pub subscription_id : Result String

-- The body of a request. The filters are [] by default.
pub record SubscribeBody : Type 0 where
  pub chain : String
  pub contract_address : Address
  pub webhook_url : Option String
  pub process_event_logs : Bool
  pub filter_events : List String
  pub process_transaction_receipts : Bool
  pub filter_functions : List String

-- `prisma.contractSubscriptions.update`, which throws if there is no row with the ID.
abbrev pub find_row : String → List ContractSubscription → Result ContractSubscription
find_row id [] = error "Record to update not found."
find_row id (c ∷ cs) = let rest = find_row id cs in if str_eq c.id id then Result.ok c else rest

module _ (P : Postgres) (T : Writes P) (env : RouteEnv) where
  open P use {Store, subscriptions}

  -- A chain without a subscription begins at its current block. What is thrown is ignored.
  unfoldable pub start_indexing : ℕ → Task Store (Unit {0})
  start_indexing chain =
      gets (λ s. get_contract_subscriptions_unique_chain_ids (subscriptions s)) >>= λ ids.
      when (not (includes_id ids chain)) (
        try_catch
          (lift (env.indexing.block_number chain) >>= upsert_chain_indexer P env.indexing chain)
          (λ _. pure tt) (λ _. pure tt))

  -- `insertWebhook`, for the type of event of contract subscriptions; the name of the row is left out
  unfoldable pub insert_webhook : String → Task Store WebhookRow
  insert_webhook url = do
    id ← lift env.webhook_id
    let row : WebhookRow = record {
      id = id;
      url = url;
      secret = some env.secret;
      event_type = "contract_subscription";
      revoked_at = none;
    }
    modify (λ s. T.create_webhook s row)
    pure row

  -- The webhook of the body, for its URL if it has one that is not empty.
  unfoldable pub webhook_for : Option String → Task Store (Option WebhookRow)
  webhook_for none = pure none
  webhook_for (some url) =
      if env.is_valid_http_url url
      then (insert_webhook url >>= λ h. pure (some h))
      else lift
          (bad_request "Invalid webhook URL. Make sure it starts with 'https://'." "BAD_REQUEST")

  -- `createContractSubscription`
  unfoldable pub create_contract_subscription :
      SubscribeBody → ℕ → Option WebhookRow → Task Store ContractSubscription
  create_contract_subscription b chain h = do
    id ← lift env.subscription_id
    let row : ContractSubscription = record {
      id = id;
      chain_id = chain;
      contract_address = to_lower b.contract_address;
      webhook = h;
      process_event_logs = b.process_event_logs;
      filter_events = b.filter_events;
      process_transaction_receipts = b.process_transaction_receipts;
      filter_functions = b.filter_functions;
      deleted_at = none;
    }
    modify (λ s. T.create_subscription s row)
    pure row

  -- The checks of the body, which give the chain ID.
  unfoldable pub check_body : SubscribeBody → Task Store ℕ
  check_body b = lift (env.chain_id_of b.chain) >>= λ chain.
      if not b.process_event_logs && not b.process_transaction_receipts
      then lift (
          bad_request "Contract Subscriptions must parse event logs and/or receipts." "BAD_REQUEST")
      else lift (env.is_contract_deployed chain b.contract_address) >>= λ valid.
          if valid then pure chain else lift (bad_request "Invalid contract." "INVALID_CONTRACT")

  -- The handler of POST /contract-subscriptions/add
  unfoldable pub add_contract_subscription : SubscribeBody → Task Store ContractSubscription
  add_contract_subscription b = do
    chain ← check_body b
    start_indexing chain
    h ← webhook_for (truthy b.webhook_url)
    create_contract_subscription b chain h

  -- `deleteContractSubscription`
  unfoldable pub delete_contract_subscription : String → Task Store ContractSubscription
  delete_contract_subscription id = do
    row ← gets (λ s. find_row id (subscriptions s)) >>= lift
    modify (λ s. T.delete_subscription s id env.now)
    pure (record row { deleted_at = some env.now })

  -- The handler of POST /contract-subscriptions/remove
  unfoldable pub remove_contract_subscription : String → Task Store (Unit {0})
  remove_contract_subscription id = delete_contract_subscription id >>= λ row. elim row.webhook [
    | none ↦ pure tt
    -- `deleteWebhook`
    | some h ↦ when (not (h.id == 0)) (modify (λ s. T.revoke_webhook s h.id env.now))
  ]
