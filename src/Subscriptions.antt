-- ===== src/Subscriptions.antt =====
-- The subscriptions to contracts and the webhooks, as rows of the Postgres database, and the queries
-- of src/db/contractSubscriptions/getContractSubscriptions.ts, src/db/webhooks/getAllWebhooks.ts and
-- src/db/chainIndexers/. The database is a parameter, with what its queries answer.
use thirdweb_engine.Base.{
  ℕ, ◌≡◌, Bool, String, Option, List, [], ◌∷◌, ◌&&◌, not, is_some, ◌==◌, any, str_eq, filter, map,
  if◌then◌else◌,
}
use thirdweb_engine.Transaction.{Address}

-- A row of `webhooks`.
pub record WebhookRow : Type 0 where
  pub id : ℕ
  pub url : String
  pub secret : Option String
  pub event_type : String
  pub revoked_at : Option ℕ

-- A row of `contract_subscriptions`, with the row of its webhook.
pub record ContractSubscription : Type 0 where
  pub id : String
  pub chain_id : ℕ
  pub contract_address : Address
  pub webhook : Option WebhookRow
  pub process_event_logs : Bool
  pub filter_events : List String
  pub process_transaction_receipts : Bool
  pub filter_functions : List String
  pub deleted_at : Option ℕ

-- A row of `contract_event_logs`. A decoded log has a type and a text for each name.
pub record EventLog : Type 0 where
  pub chain_id : ℕ
  pub block_number : ℕ
  pub contract_address : Address
  pub transaction_hash : String
  pub topic0 : Option String
  pub topic1 : Option String
  pub topic2 : Option String
  pub topic3 : Option String
  pub data_text : String
  pub event_name : Option String
  pub decoded_log : Option (List (String × (String × String)))
  pub timestamp : ℕ
  pub transaction_index : ℕ
  pub log_index : ℕ

-- A row of `contract_transaction_receipts`.
pub record ReceiptRow : Type 0 where
  pub chain_id : ℕ
  pub block_number : ℕ
  pub contract_address : Address
  pub contract_id : String
  pub block_hash : String
  pub transaction_hash : String
  pub timestamp : ℕ
  pub to : Address
  pub from : Address
  pub value : ℕ
  pub data_text : String
  pub function_name : Option String
  pub transaction_index : ℕ
  pub gas_used : ℕ
  pub effective_gas_price : Option ℕ
  pub status : ℕ

-- The tables that the indexers read and write. `last_indexed_block` is that of the row of a chain in
-- `chain_indexers`, if there is one.
pub record Postgres : Type 1 where
  pub Store : Type 0
  pub subscriptions : Store → List ContractSubscription
  pub webhooks : Store → List WebhookRow
  pub last_indexed_block : Store → ℕ → Option ℕ
  -- an upsert of `chain_indexers`
  pub upsert : Store → ℕ → ℕ → Store
  pub last_indexed_block-upsert :
      (s : Store) (c n d : ℕ)
      → last_indexed_block (upsert s c n) d
        ≡ (if c == d then Option.some n else last_indexed_block s d)
  pub subscriptions-upsert : (s : Store) (c n : ℕ) → subscriptions (upsert s c n) ≡ subscriptions s

-- `isContractSubscribed`
unfoldable pub is_contract_subscribed : ℕ → Address → List ContractSubscription → Bool
is_contract_subscribed chain address =
    any (λ c.
      c.chain_id == chain && (str_eq c.contract_address address && not (is_some c.deleted_at)))

-- `getContractSubscriptionsByChainId`
unfoldable pub get_contract_subscriptions_by_chain_id :
    ℕ → List ContractSubscription → List ContractSubscription
get_contract_subscriptions_by_chain_id chain =
    filter (λ c. c.chain_id == chain && not (is_some c.deleted_at))

-- `distinct: ["chainId"]`
abbrev pub distinct : List ℕ → List ℕ
distinct [] = []
distinct (c ∷ cs) = c ∷ filter (λ d. not (d == c)) (distinct cs)

-- `getContractSubscriptionsUniqueChainIds`
unfoldable pub get_contract_subscriptions_unique_chain_ids : List ContractSubscription → List ℕ
get_contract_subscriptions_unique_chain_ids cs = distinct (
    map (λ (c : ContractSubscription). c.chain_id)
      (filter (λ (c : ContractSubscription). not (is_some c.deleted_at)) cs))

-- `getAllWebhooks`, of rows in the order of their IDs
unfoldable pub get_all_webhooks : List WebhookRow → List WebhookRow
get_all_webhooks = filter (λ w. not (is_some w.revoked_at))
