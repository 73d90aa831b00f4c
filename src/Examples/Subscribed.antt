-- ===== src/Examples/Subscribed.antt =====
-- Requests that add and remove a contract subscription, at concrete inputs.
use thirdweb_engine.Base.{ℕ, ◌≡◌, ◌⊎◌, true, false, not, none, some, [], ◌∷◌, ◌==◌, filter, str_eq}
use thirdweb_engine.Engine.{ok, err, Thrown}
use thirdweb_engine.Subscriptions.{WebhookRow, ContractSubscription}
use thirdweb_engine.Subscribing.{RouteEnv, SubscribeBody, find_row, remove_contract_subscription}
use thirdweb_engine.Subscribing.Removed.{live_ids, is_active, remove_contract_subscription-cases}
use thirdweb_engine.Examples.Tables.{tables, writes, indexed, for_contracts}
use thirdweb_engine.Examples.Indexers.{indexer}

abbrev route : RouteEnv
route = record {
  now = 1000;
  chain_id_of = λ _. ok 5;
  is_contract_deployed = λ _ _. ok true;
  indexing = indexer;
  is_valid_http_url = λ u. str_eq u "https://c.example";
  secret = "s3";
  webhook_id = ok 3;
  subscription_id = ok "s2";
}

abbrev body : SubscribeBody
body = record {
  chain = "5";
  contract_address = "0xC1";
  webhook_url = some "https://c.example";
  process_event_logs = true;
  filter_events = "Transfer" ∷ [];
  process_transaction_receipts = false;
  filter_functions = [];
}

abbrev new_row : ContractSubscription
new_row = record {
  id = "s2";
  chain_id = 5;
  contract_address = "0xc1";
  webhook = some (record for_contracts { id = 3; url = "https://c.example"; secret = some "s3" });
  process_event_logs = true;
  filter_events = "Transfer" ∷ [];
  process_transaction_receipts = false;
  filter_functions = [];
  deleted_at = none;
}

remove_contract_subscription-cases_example :
    let (res, w') = remove_contract_subscription tables writes route "s1" indexed in
    ((e : Thrown) × (find_row "s1" indexed.store.subscriptions ≡ err e)
      × (res ≡ err e)
      × (w' ≡ indexed))
    ⊎ ((row : ContractSubscription) × (find_row "s1" indexed.store.subscriptions ≡ ok row)
        × (res ≡ ok tt)
        × ((chain : ℕ)
            → live_ids chain w'.store.subscriptions
              ≡ filter (λ i. not (str_eq i "s1")) (live_ids chain indexed.store.subscriptions))
        × ((h : WebhookRow)
            → row.webhook ≡ some h
            → (h.id == 0) ≡ false
            → is_active h.id w'.store.webhooks ≡ false))
remove_contract_subscription-cases_example =
    remove_contract_subscription-cases tables writes route "s1" indexed
