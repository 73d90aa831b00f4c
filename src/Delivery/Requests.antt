-- ===== src/Delivery/Requests.antt =====
-- The requests to webhooks: src/worker/tasks/sendWebhookWorker.ts and src/utils/webhook.ts. The HTTP
-- client, the signature and the text of a body are parameters.
use Prim.Native.String
use thirdweb_engine.Base.{
  ℕ, ◌+◌, ◌-◌, ◌/◌, Bool, true, false, String, Option, none, some, List, [], ◌∷◌, ◌&&◌, leb, ltb,
  suc, is_some, if◌then◌else◌,
}
use thirdweb_engine.Base.Int.{ℤ, pos, negsuc}
use thirdweb_engine.Transaction.{Transaction}
use thirdweb_engine.Engine.{
  Task, Result, ok, err, error, Thrown, pure, lift, gets, emit, modify, try_catch, webhook_request,
  ◌>>=◌, ◌>>◌,
}
use thirdweb_engine.Subscriptions.{WebhookRow, EventLog, ReceiptRow}
use thirdweb_engine.Delivery.{contract, transaction, WebhookJob}
use thirdweb_engine.Delivery.Schemas.{
  EventLogSchema, ReceiptSchema, TransactionSchema, to_event_log_schema,
  to_transaction_receipt_schema, to_transaction_schema, truthy,
}

pub data WebhookBody : Type 0 where
  event_log_body : EventLogSchema → WebhookBody
  receipt_body : ReceiptSchema → WebhookBody
  transaction_body : TransactionSchema → WebhookBody
  -- `WalletBalanceWebhookSchema`, as a text
  balance_body : String → WebhookBody

-- The headers of a request that depend on the webhook.
pub record Headers : Type 0 where
  pub authorization : Option String
  pub signature : Option String
  pub timestamp : Option ℕ

pub record WebhookResponse : Type 0 where
  pub is_ok : Bool
  pub status : ℕ
  pub body : String

-- What a request meets outside.
pub record RequestEnv : Type 0 where
  -- `Date.now()`
  pub now : ℕ
  -- `generateSignature`: the HMAC of the time and the body under the secret
  pub generate_signature : WebhookBody → ℕ → String → String
  pub fetch : String → Headers → WebhookBody → Result WebhookResponse
  pub show_thrown : Thrown → String

module _ (env : RequestEnv) where
  abbrev pub signed : WebhookBody → Bool → Option String → Headers
  signed b true (some secret) = record {
    authorization = some (String.◌++◌ "Bearer " secret);
    signature = some (env.generate_signature b (env.now / 1000) secret);
    timestamp = some (env.now / 1000);
  }
  signed b _ _ = record { authorization = none; signature = none; timestamp = none }

  -- `createWebhookRequestHeaders`
  unfoldable pub create_webhook_request_headers : WebhookRow → WebhookBody → Headers
  create_webhook_request_headers w b = signed b (truthy w.secret) w.secret

  abbrev pub response_of : Result WebhookResponse → WebhookResponse
  response_of (ok r) = r
  response_of (err e) = record { is_ok = false; status = 500; body = env.show_thrown e }

  -- `sendWebhookRequest`
  unfoldable pub send_webhook_request : WebhookRow → WebhookBody → WebhookResponse
  send_webhook_request w b = response_of (env.fetch w.url (create_webhook_request_headers w b) b)

  -- `shouldRetry`, of a response that there is
  abbrev pub should_retry : WebhookResponse → Bool
  should_retry r = leb 500 r.status && leb r.status 599

  abbrev pub check_response : WebhookResponse → Result (Unit {0})
  check_response r = if should_retry r then error "Received a 5xx status" else ok tt

  abbrev pub event_body : Option EventLog → Option ReceiptRow → Result WebhookBody
  event_body (some l) _ = ok (event_log_body (to_event_log_schema l))
  event_body none (some r) = ok (receipt_body (to_transaction_receipt_schema r))
  event_body none none =
      error "Missing \"eventLog\" or \"transactionReceipt\" for CONTRACT_SUBSCRIPTION webhook."

  -- `handler`, where `find` is TransactionDB.get
  unfoldable pub handle_webhook_job : (String → Option Transaction) → WebhookJob → Result (Unit {0})
  handle_webhook_job find job = elim job.webhook_data [
    | contract _ log receipt ↦ elim (event_body log receipt) [
      | err e ↦ err e
      | ok b ↦ check_response (send_webhook_request job.webhook b)
    ]
    | transaction _ id ↦ elim (find id) [
      | none ↦ ok tt
      | some t ↦
          check_response
            (send_webhook_request job.webhook (transaction_body (to_transaction_schema t)))
    ]
  ]

-- `balanceNotificationLastSentAt` plus 30 seconds
abbrev pub quiet_until : ℤ → ℕ
quiet_until (pos n) = n + 30000
quiet_until (negsuc n) = 30000 - suc n

module _ (env : RequestEnv) (data_text : String) where
  -- The requests of a notice: one to each webhook that is not revoked. The object that
  -- `sendWebhookRequest` returns counts as a success whatever it says, so that the time is set.
  unfoldable pub notify_all : List WebhookRow → Task ℤ (Unit {0})
  notify_all [] = pure tt
  notify_all (w ∷ ws) =
      (if is_some w.revoked_at
        then pure tt
        else (emit
              (webhook_request w.url (send_webhook_request env w (balance_body data_text)).status)
            >> modify (λ _. pos env.now)))
      >> notify_all ws

  -- `sendBalanceWebhook`, with the answer of getWebhooksByEventType. The state is
  -- `balanceNotificationLastSentAt`; the requests, which the source does not wait for, are made at once.
  unfoldable pub send_balance_webhook : Result (List WebhookRow) → Task ℤ (Unit {0})
  send_balance_webhook webhooks = gets (λ last. ltb env.now (quiet_until last)) >>= λ quiet.
      if quiet then pure tt else try_catch (lift webhooks) (λ _. pure tt) notify_all
