-- ===== src/Delivery/Once.antt =====
-- For which webhooks the queue gets the jobs of an event of a transaction: src/worker/queues/sendWebhookQueue.ts.
use thirdweb_engine.Base.{
  ◌≡◌, refl, ap, ◌∙◌, true, false, String, Option, none, some, List, [], ◌∷◌, ◌++◌, ◌||◌, str_eq,
  is_some, any, any-append, filter, arith, Bool-cases, Option-cases, inl, inr,
}
use thirdweb_engine.Engine.{
  World, continue-ok, ok, EventType, sent_tx, mined_tx, errored_tx, cancelled_tx,
}
use thirdweb_engine.Subscriptions.{WebhookRow, get_all_webhooks}
use thirdweb_engine.Delivery.{
  WebhooksEventType, transaction_event, all_tx, type_text, transaction, JobId, transaction_id,
  job_id_eq, JobQueue, transaction_job_id, Delivery, get_webhooks_by_event_type,
  add_transaction_jobs, enqueue_transaction_job, enqueue_webhook,
}
use thirdweb_engine.Delivery.Jobs.{
  has_job, with_jobs, has_job-with_jobs, job_id_eq-transaction, is_target,
}

module _ (Q : JobQueue) where
  open Q use {Queue, jobs, add}

  module _ (rows : List WebhookRow) where
    -- The active webhooks of a type.
    abbrev pub active_webhooks : WebhooksEventType → List WebhookRow
    active_webhooks t = filter (λ w. str_eq w.event_type (type_text t)) (get_all_webhooks rows)

    abbrev pub or_active : WebhooksEventType → Option (List WebhookRow) → List WebhookRow
    or_active t (some ws) = ws
    or_active t none = active_webhooks t

    get_webhooks_lem :
        (t : WebhooksEventType) (w : World (Delivery Q))
        → let (r, w') = get_webhooks_by_event_type Q rows t true w in
          (r ≡ ok (or_active t (w.store.cache (type_text t))))
          × (w'.store.queue ≡ w.store.queue)
          × ((k : String) → str_eq k (type_text t) ≡ false → w'.store.cache k ≡ w.store.cache k)
    unfolding get_webhooks_by_event_type
    get_webhooks_lem t w = elim (Option-cases (w.store.cache (type_text t))) [
      | inl e ↦ simp e (refl, refl, λ k ne. simp ne)
      | inr (ws, e) ↦ simp e (refl, refl, λ k ne. refl)
    ]

    add_transaction_jobs_lem :
        (t : EventType) (i : String) (ws : List WebhookRow) (w : World (Delivery Q))
        → add_transaction_jobs Q rows t i ws w ≡ (
          ok tt,
          record w { store = record (w.store) { queue = with_jobs Q t i ws w.store.queue } },
        )
    unfolding add_transaction_jobs
    add_transaction_jobs_lem t i [] w = refl
    add_transaction_jobs_lem t i (x ∷ ws) w = add_transaction_jobs_lem t i ws _

    not_all_tx :
        (t : EventType) → str_eq (type_text (transaction_event t)) (type_text all_tx) ≡ false
    not_all_tx sent_tx = refl
    not_all_tx mined_tx = refl
    not_all_tx errored_tx = refl
    not_all_tx cancelled_tx = refl

    -- The webhooks that an event of a transaction is sent to.
    abbrev pub targets : EventType → (String → Option (List WebhookRow)) → List WebhookRow
    targets t cache =
        or_active all_tx (cache (type_text all_tx))
        ++ or_active (transaction_event t) (cache (type_text (transaction_event t)))

    pub enqueue_transaction_job_lem :
        (t : EventType) (i : String) (w : World (Delivery Q))
        → let (r, w') = enqueue_transaction_job Q rows t i w in
          (r ≡ ok tt) × (w'.store.queue ≡ with_jobs Q t i (targets t w.store.cache) w.store.queue)
    unfolding enqueue_transaction_job
    enqueue_transaction_job_lem t i w =
        let w₁ : World (Delivery Q) = (get_webhooks_by_event_type Q rows all_tx true w).1 in
        let w₂ : World (Delivery Q) =
          (get_webhooks_by_event_type Q rows (transaction_event t) true w₁).1 in
        let (a, b, c) = get_webhooks_lem all_tx w in
        let (d, e, _) = get_webhooks_lem (transaction_event t) w₁ in
        let first : enqueue_transaction_job Q rows t i w ≡ _ =
          continue-ok (get_webhooks_by_event_type Q rows all_tx true w) _ a in
        let then_type =
          continue-ok (get_webhooks_by_event_type Q rows (transaction_event t) true w₁) _ d in
        rw (first ∙ then_type ∙ add_transaction_jobs_lem t i _ w₂)
          (refl, rw (e ∙ b, c _ (not_all_tx t)) refl)

  any-targets :
      (url : String) (t : EventType) (i : String) (rows : List WebhookRow)
      → (any
            (λ w.
              job_id_eq
                (transaction_id url (type_text (transaction_event t)) i)
                (transaction_job_id w t i))
            (active_webhooks rows all_tx)
          || any
              (λ w.
                job_id_eq
                  (transaction_id url (type_text (transaction_event t)) i)
                  (transaction_job_id w t i))
              (active_webhooks rows (transaction_event t)))
        ≡ any (is_target url t) rows
  unfolding get_all_webhooks
  any-targets url t i [] = refl
  any-targets url t i (h ∷ rows) = elim (Bool-cases (is_some h.revoked_at)) [
    | inl gone ↦ simp (gone, any-targets url t i rows)
    | inr here ↦
        simp (here, ← any-targets url t i rows)
          (elim (Bool-cases (str_eq h.event_type "all_transactions")) [
            | inl p ↦ elim (Bool-cases (str_eq h.event_type (type_text (transaction_event t)))) [
              | inl q ↦ simp (p, q, job_id_eq-transaction) (ground arith)
              | inr q ↦ simp (p, q, job_id_eq-transaction) (ground arith)
            ]
            | inr p ↦ elim (Bool-cases (str_eq h.event_type (type_text (transaction_event t)))) [
              | inl q ↦ simp (p, q, job_id_eq-transaction) (ground arith)
              | inr q ↦ simp (p, q, job_id_eq-transaction) (ground arith)
            ]
          ])
  ]

  -- With nothing cached for the two types, after an event of a transaction the queue has the job for
  -- a URL exactly if it had it before or some webhook with that URL is not revoked and is for all
  -- transactions or for this type of event.
  pub enqueue_transaction_job-webhooks :
      (rows : List WebhookRow) (t : EventType) (i : String) (w : World (Delivery Q)) (url : String)
      → w.store.cache (type_text all_tx) ≡ none
      → w.store.cache (type_text (transaction_event t)) ≡ none
      → let (r, w') = enqueue_webhook Q rows (transaction t i) w in
        let k = transaction_id url (type_text (transaction_event t)) i in
        (r ≡ ok tt)
        × (has_job k (jobs w'.store.queue)
            ≡ (has_job k (jobs w.store.queue) || any (is_target url t) rows))
  unfolding enqueue_webhook
  enqueue_transaction_job-webhooks rows t i w url a b =
      let k : JobId = transaction_id url (type_text (transaction_event t)) i in
      let (c, d) = enqueue_transaction_job_lem rows t i w in
      (
        c,
        rw (d, has_job-with_jobs Q k t i _ w.store.queue, a, b)
            (ap (λ x. has_job k (jobs w.store.queue) || x)
              (any-append _ (active_webhooks rows all_tx) _ ∙ any-targets url t i rows)),
      )
