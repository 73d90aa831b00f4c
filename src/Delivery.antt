-- ===== src/Delivery.antt =====
-- The queue of webhooks to send: src/worker/queues/sendWebhookQueue.ts, with the cache of
-- src/utils/cache/getWebhook.ts. The queue of BullMQ is a parameter: a job whose ID a kept job has
-- is not added. The text of a job's ID is left out, and its parts are kept.
pub mod Jobs
pub mod Once
pub mod Events
pub mod Requests
pub mod Schemas
pub mod Responses
use thirdweb_engine.Base.{
  ℕ, ◌≡◌, Bool, true, false, not, String, Option, none, some, List, [], ◌∷◌, ◌++◌, ◌==◌, ◌&&◌,
  str_eq, is_some, any, filter, if◌then◌else◌,
}
use thirdweb_engine.Engine.{
  Task, Result, ok, err, EventType, sent_tx, mined_tx, errored_tx, cancelled_tx, pure, lift, gets,
  modify, ◌>>=◌, ◌>>◌,
}
use thirdweb_engine.Subscriptions.{WebhookRow, EventLog, ReceiptRow, get_all_webhooks}

-- `WebhooksEventTypes`
pub data WebhooksEventType : Type 0 where
  transaction_event : EventType → WebhooksEventType
  queued_tx all_tx backend_wallet_balance auth contract_subscription : WebhooksEventType

abbrev pub type_text : WebhooksEventType → String
type_text (transaction_event sent_tx) = "sent_transaction"
type_text (transaction_event mined_tx) = "mined_transaction"
type_text (transaction_event errored_tx) = "errored_transaction"
type_text (transaction_event cancelled_tx) = "cancelled_transaction"
type_text queued_tx = "queued_transaction"
type_text all_tx = "all_transactions"
type_text backend_wallet_balance = "backend_wallet_balance"
type_text auth = "auth"
type_text contract_subscription = "contract_subscription"

-- `EnqueueWebhookData`
pub data WebhookData : Type 0 where
  contract : WebhookRow → Option EventLog → Option ReceiptRow → WebhookData
  transaction : EventType → String → WebhookData

pub record WebhookJob : Type 0 where
  pub webhook_data : WebhookData
  pub webhook : WebhookRow

-- The idempotency keys. The first part is the webhook's URL.
pub data JobId : Type 0 where
  log_id : String → String → ℕ → JobId
  receipt_id : String → String → JobId
  transaction_id : String → String → String → JobId

unfoldable pub job_id_eq : JobId → JobId → Bool
job_id_eq (log_id u h i) (log_id v k j) = str_eq u v && (str_eq h k && i == j)
job_id_eq (receipt_id u h) (receipt_id v k) = str_eq u v && str_eq h k
job_id_eq (transaction_id u t q) (transaction_id v s p) = str_eq u v && (str_eq t s && str_eq q p)
job_id_eq _ _ = false

-- The queue `send-webhook`: the jobs that it keeps.
pub record JobQueue : Type 1 where
  pub Queue : Type 0
  pub jobs : Queue → List (JobId × WebhookJob)
  pub add : Queue → JobId → WebhookJob → Queue
  pub jobs-add :
      (q : Queue) (k : JobId) (j : WebhookJob)
      → jobs (add q k j)
        ≡ (if any (λ e. job_id_eq k e.0) (jobs q) then jobs q else jobs q ++ (k, j) ∷ [])

-- A thrown text has no message of its own.
abbrev pub missing_event {ℓ} : {A : Type ℓ} → Result A
missing_event = err (record { message = none; code = none; status_code = none })

-- `_getContractSubscriptionWebhookIdempotencyKey`
unfoldable pub contract_job_id : WebhookRow → Option EventLog → Option ReceiptRow → Result JobId
contract_job_id w (some l) _ = ok (log_id w.url l.transaction_hash l.log_index)
contract_job_id w none (some r) = ok (receipt_id w.url r.transaction_hash)
contract_job_id w none none = missing_event

-- `_getTransactionWebhookIdempotencyKey`
abbrev pub transaction_job_id : WebhookRow → EventType → String → JobId
transaction_job_id w t q = transaction_id w.url (type_text (transaction_event t)) q

module _ (Q : JobQueue) where
  open Q use {Queue, add}

  -- The queue, and `webhookCache`.
  pub record Delivery : Type 0 where
    pub queue : Queue
    pub cache : String → Option (List WebhookRow)

  abbrev pub add_job : JobId → WebhookJob → Task Delivery (Unit {0})
  add_job k j = modify (λ s. record s { queue = add s.queue k j })

  -- The rows of the database at the time of the call.
  module _ (rows : List WebhookRow) where
    -- `getWebhooksByEventType`
    unfoldable pub get_webhooks_by_event_type :
        WebhooksEventType → Bool → Task Delivery (List WebhookRow)
    get_webhooks_by_event_type t retrieve_from_cache =
        gets (λ s. s.cache (type_text t)) >>= λ cached.
        elim (if retrieve_from_cache then cached else none) [
          | some ws ↦ pure ws
          | none ↦
              let ws = filter (λ w. str_eq w.event_type (type_text t)) (get_all_webhooks rows) in
              modify (λ s. record s {
                cache = λ k. if str_eq k (type_text t) then some ws else s.cache k;
              })
              >> pure ws
        ]

    unfoldable pub add_transaction_jobs :
        EventType → String → List WebhookRow → Task Delivery (Unit {0})
    add_transaction_jobs t q [] = pure tt
    add_transaction_jobs t q (w ∷ ws) =
        add_job (transaction_job_id w t q) (record { webhook_data = transaction t q; webhook = w })
        >> add_transaction_jobs t q ws

    -- `_enqueueTransactionWebhook`
    unfoldable pub enqueue_transaction_job : EventType → String → Task Delivery (Unit {0})
    enqueue_transaction_job t q = do
      for_all ← get_webhooks_by_event_type all_tx true
      for_type ← get_webhooks_by_event_type (transaction_event t) true
      add_transaction_jobs t q (for_all ++ for_type)

    -- `_enqueueContractSubscriptionWebhook`
    unfoldable pub enqueue_contract_job :
        WebhookRow → Option EventLog → Option ReceiptRow → Task Delivery (Unit {0})
    enqueue_contract_job w log receipt =
        if not (is_some log) && not (is_some receipt)
        then lift missing_event
        else if not (is_some w.revoked_at) && str_eq (type_text contract_subscription) w.event_type
        then (lift (contract_job_id w log receipt) >>= λ k.
            add_job k (record { webhook_data = contract w log receipt; webhook = w }))
        else pure tt

    -- `enqueueWebhook`
    unfoldable pub enqueue_webhook : WebhookData → Task Delivery (Unit {0})
    enqueue_webhook (contract w log receipt) = enqueue_contract_job w log receipt
    enqueue_webhook (transaction t q) = enqueue_transaction_job t q
