-- ===== src/Webhook.antt =====
-- The notice that a transaction changed its status: src/utils/transaction/webhook.ts. The job is
-- handed to SendWebhookQueue.
use thirdweb_engine.Base.{Option, none, some}
use thirdweb_engine.Transaction.{Transaction, Status, queued, sent, mined, cancelled, errored}
use thirdweb_engine.Engine.{
  Task, EventType, sent_tx, mined_tx, errored_tx, cancelled_tx, webhook, pure, emit,
}

unfoldable pub event_type : Status → Option EventType
event_type sent = some sent_tx
event_type mined = some mined_tx
event_type cancelled = some cancelled_tx
event_type errored = some errored_tx
event_type queued = none

unfoldable pub enqueue_transaction_webhook : {S : Type 0} → Transaction → Task S (Unit {0})
enqueue_transaction_webhook t = elim (event_type t.status) [
  | none ↦ pure tt
  | some e ↦ emit (webhook e t.queue_id)
]
