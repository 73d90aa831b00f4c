-- ===== src/Delivery/Responses.antt =====
-- When a webhook's job is tried again, and what a webhook is shown of a transaction:
-- src/worker/tasks/sendWebhookWorker.ts, src/utils/webhook.ts and src/server/schemas/transaction/index.ts.
use thirdweb_engine.Base.{
  ◌+◌, ◌≤◌, ◌<◌, ◌≡◌, refl, ◌∙◌, Bool, true, false, not, String, Option, none, some, List, [], ◌∷◌,
  ◌||◌, ltb, any, is_some, if◌then◌else◌, arith, Bool-cases, Option-cases, inl, inr,
}
use thirdweb_engine.Base.Int.{ℤ, pos}
use thirdweb_engine.Transaction.{Transaction}
use thirdweb_engine.Engine.{World, Result, ok, err}
use thirdweb_engine.Subscriptions.{WebhookRow}
use thirdweb_engine.Delivery.{WebhookData, contract, transaction, WebhookJob}
use thirdweb_engine.Delivery.Schemas.{
  to_event_log_schema, to_transaction_receipt_schema, to_transaction_schema,
}
use thirdweb_engine.Delivery.Requests.{
  RequestEnv, WebhookBody, event_log_body, receipt_body, transaction_body, WebhookResponse,
  create_webhook_request_headers, send_webhook_request, handle_webhook_job, notify_all,
  send_balance_webhook, quiet_until, check_response, response_of,
}

-- What a job has to send, if there is something: the log before the receipt, and the transaction as
-- it is when the job runs.
abbrev pub body_of : (String → Option Transaction) → WebhookData → Option WebhookBody
body_of find (contract _ (some l) _) = some (event_log_body (to_event_log_schema l))
body_of find (contract _ none (some r)) = some (receipt_body (to_transaction_receipt_schema r))
body_of find (contract _ none none) = none
body_of find (transaction _ id) = body_in (find id)
  where
    body_in : Option Transaction → Option WebhookBody
    body_in none = none
    body_in (some t) = some (transaction_body (to_transaction_schema t))

-- The webhook answered, and not with a status from 500 to 599.
abbrev pub is_settled : Result WebhookResponse → Bool
is_settled (ok r) = ltb r.status 500 || ltb 599 r.status
is_settled (err _) = false

abbrev pub succeeds : Result (Unit {0}) → Bool
succeeds (ok _) = true
succeeds (err _) = false

some_inj {ℓ} : {A : Type ℓ} {a b : A} → some a ≡ some b → a ≡ b
some_inj e = cc

module _ (env : RequestEnv) (find : String → Option Transaction) where
  abbrev answer : WebhookRow → WebhookBody → Result WebhookResponse
  answer w b = env.fetch w.url (create_webhook_request_headers env w b) b

  settled_lem :
      (r : Result WebhookResponse)
      → succeeds (check_response env (response_of env r)) ≡ is_settled r
  settled_lem (ok r) = ground arith
  settled_lem (err e) = refl

  -- A job that has something to send succeeds, so that it is not tried again, exactly if its request
  -- is answered and the status is not one from 500 to 599.
  pub handle_webhook_job-settled :
      (job : WebhookJob) (b : WebhookBody)
      → body_of find job.webhook_data ≡ some b
      → succeeds (handle_webhook_job env find job)
        ≡ is_settled
            (env.fetch job.webhook.url (create_webhook_request_headers env job.webhook b) b)
  unfolding handle_webhook_job send_webhook_request
  handle_webhook_job-settled job b h =
      elim job.webhook_data
          as (λ d.
            body_of find d ≡ some b
            → succeeds (handle_webhook_job env find (record job { webhook_data = d }))
              ≡ is_settled (answer job.webhook b)) [
                | contract w (some l) r ↦
                    λ e. rw (← some_inj e) (settled_lem (answer job.webhook _))
                | contract w none (some r) ↦
                    λ e. rw (← some_inj e) (settled_lem (answer job.webhook _))
                | contract w none none ↦ λ e. cc
                | transaction t id ↦ λ e. elim (Option-cases (find id)) [
                  | inl gone ↦ cc (simp gone at e)
                  | inr (x, there) ↦
                      simp (handle_webhook_job, there)
                        (rw (← some_inj (simp there at e)) (settled_lem (answer job.webhook _)))
                ]
              ]
        h

module _ (data_text : String) where
  notify_all-time :
      (env : RequestEnv) (ws : List WebhookRow) (w : World ℤ)
      → (notify_all env data_text ws w).1.store
        ≡ (if any (λ h. not (is_some h.revoked_at)) ws then pos env.now else w.store)
  unfolding notify_all
  notify_all-time env [] w = refl
  notify_all-time env (h ∷ ws) w = elim (Bool-cases (is_some h.revoked_at)) [
    | inl gone ↦ simp gone (notify_all-time env ws w)
    | inr here ↦ simp here (elim (Bool-cases (any (λ h. not (is_some h.revoked_at)) ws)) [
      | inl more ↦ notify_all-time env ws _ ∙ simp more
      | inr last ↦ notify_all-time env ws _ ∙ simp last
    ])
  ]

  -- After a notice of a low balance was sent to at least one webhook that is not revoked, whatever
  -- the responses were, a later one within 30 seconds sends nothing and changes nothing.
  pub send_balance_webhook-throttled :
      (env later : RequestEnv) (ws : List WebhookRow) (next : Result (List WebhookRow))
      (w : World ℤ)
      → any (λ h. not (is_some h.revoked_at)) ws ≡ true
      → quiet_until w.store ≤ env.now
      → later.now < env.now + 30000
      → let w₁ = (send_balance_webhook env data_text (ok ws) w).1 in
        send_balance_webhook later data_text next w₁ ≡ (ok tt, w₁)
  unfolding send_balance_webhook
  send_balance_webhook-throttled env later ws next w h past soon =
      let loud : ltb env.now (quiet_until w.store) ≡ false = ground arith in
      let time : (notify_all env data_text ws w).1.store ≡ pos env.now =
        notify_all-time env ws w ∙ simp h in
      let quiet : ltb later.now (env.now + 30000) ≡ true = ground arith in simp (loud, time, quiet)
