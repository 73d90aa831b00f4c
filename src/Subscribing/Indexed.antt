-- ===== src/Subscribing/Indexed.antt =====
-- Where the indexer of a chain begins after a request to add a contract subscription, and what it
-- reads: src/server/routes/contract/subscriptions/addContractSubscription.ts.
use thirdweb_engine.Base.{is_some, List, ◌==◌, is_some, List, ◌==◌}
use thirdweb_engine.Subscriptions.{
  get_contract_subscriptions_by_chain_id, get_contract_subscriptions_by_chain_id,
}
