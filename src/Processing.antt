-- ===== src/Processing.antt =====
-- The webhooks that the rows of new event logs and receipts go to: getWebhooksByContractAddresses of
-- src/worker/tasks/processEventLogsWorker.ts, and the loop that it shares with
-- processTransactionReceiptsWorker.ts.
pub mod Logs
pub mod Receipts
pub mod Notified
pub mod Selected
use thirdweb_engine.Base.{
  ℕ, Bool, true, false, String, Option, none, some, List, [], ◌∷◌, ◌++◌, str_eq, if◌then◌else◌,
}
use thirdweb_engine.Transaction.{Address}
use thirdweb_engine.Engine.{Task, pure, ◌>>◌}
use thirdweb_engine.Subscriptions.{
  WebhookRow, ContractSubscription, get_contract_subscriptions_by_chain_id,
}
use thirdweb_engine.Delivery.{WebhookData, JobQueue, Delivery, enqueue_webhook}

-- An object whose keys are addresses.
abbrev pub ByAddress {ℓ} : Type ℓ → Type ℓ
ByAddress A = List (Address × A)

-- `record[address]`
unfoldable pub lookup {ℓ} : {A : Type ℓ} → Address → ByAddress A → Option A
lookup a [] = none
lookup a ((b, x) ∷ m) = let rest = lookup a m in if str_eq a b then some x else rest

-- `list ?? []`
abbrev pub or_empty {ℓ} : {A : Type ℓ} → Option (List A) → List A
or_empty none = []
or_empty (some l) = l

-- `record[address] ?? []`
abbrev pub list_at {ℓ} : {A : Type ℓ} → Address → ByAddress (List A) → List A
list_at a m = or_empty (lookup a m)

-- `record[address] = x`
abbrev pub assign {ℓ} : {A : Type ℓ} → Address → A → ByAddress A → ByAddress A
assign a x m = (a, x) ∷ m

-- One round of the loop: the webhook comes last in its contract's array, which is made if there is
-- none.
abbrev pub push_webhook :
    Address → Option WebhookRow → ByAddress (List WebhookRow) → ByAddress (List WebhookRow)
push_webhook a none m = m
push_webhook a (some w) m = assign a (list_at a m ++ w ∷ []) m

unfoldable pub collect_webhooks :
    List ContractSubscription → ByAddress (List WebhookRow) → ByAddress (List WebhookRow)
collect_webhooks [] m = m
collect_webhooks (c ∷ cs) m = collect_webhooks cs (push_webhook c.contract_address c.webhook m)

-- `getWebhooksByContractAddresses`
unfoldable pub get_webhooks_by_contract_addresses :
    ℕ → List ContractSubscription → ByAddress (List WebhookRow)
get_webhooks_by_contract_addresses chain rows =
    collect_webhooks (get_contract_subscriptions_by_chain_id chain rows) []

module _ (Q : JobQueue) (rows : List WebhookRow) where
  unfoldable pub enqueue_each :
      List WebhookRow → (WebhookRow → WebhookData) → Task (Delivery Q) (Unit {0})
  enqueue_each [] data_for = pure tt
  enqueue_each (w ∷ ws) data_for = enqueue_webhook Q rows (data_for w) >> enqueue_each ws data_for

  -- The loop over the inserted rows and the webhooks of the contract of each.
  unfoldable pub enqueue_rows {ℓ} :
      {A : Type ℓ}
      → (A → Address)
      → (A → WebhookRow → WebhookData)
      → ByAddress (List WebhookRow)
      → List A
      → Task (Delivery Q) (Unit {0})
  enqueue_rows address data_for m [] = pure tt
  enqueue_rows address data_for m (x ∷ xs) =
      enqueue_each (list_at (address x) m) (data_for x) >> enqueue_rows address data_for m xs
