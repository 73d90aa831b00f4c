-- ===== src/Processing/Notified.antt =====
-- Which webhooks get a job for the new event logs and receipts of contracts:
-- src/worker/tasks/processEventLogsWorker.ts and processTransactionReceiptsWorker.ts.
use thirdweb_engine.Base.{
  ℕ, ◌≡◌, refl, sym, ◌∙◌, Bool, true, false, String, Option, none, some, List, [], ◌∷◌, ◌++◌, ◌&&◌,
  ◌||◌, str_eq, eq_iff, is_empty, any, or_assoc, append_assoc, append-nil, if◌then◌else◌, arith,
  Bool-cases, inl, inr,
}
use thirdweb_engine.Transaction.{Address}
use thirdweb_engine.Engine.{World, ok, RangeJob, continue-ok}
use thirdweb_engine.Subscriptions.{
  WebhookRow, ContractSubscription, ReceiptRow, get_contract_subscriptions_by_chain_id,
}
use thirdweb_engine.Delivery.{
  WebhookData, contract, WebhookJob, JobId, receipt_id, job_id_eq, JobQueue, Delivery,
  enqueue_webhook, enqueue_contract_job, contract_job_id,
}
use thirdweb_engine.Delivery.Jobs.{has_job, has_job-add, listens}
use thirdweb_engine.Processing.{
  ByAddress, lookup, list_at, push_webhook, collect_webhooks, get_webhooks_by_contract_addresses,
  enqueue_each, enqueue_rows,
}
use thirdweb_engine.Processing.Receipts.{
  ReceiptsEnv, get_formatted_transaction_receipts, handle_receipts,
}

abbrev pub as_list {ℓ} : {A : Type ℓ} → Option A → List A
as_list none = []
as_list (some x) = x ∷ []

-- The webhooks of the subscriptions to an address, in their order.
abbrev pub webhooks_of : Address → List ContractSubscription → List WebhookRow
webhooks_of a [] = []
webhooks_of a (c ∷ cs) =
    (if str_eq a c.contract_address then as_list c.webhook else []) ++ webhooks_of a cs

list_at-push :
    (a b : Address) (h : Option WebhookRow) (m : ByAddress (List WebhookRow))
    → list_at a (push_webhook b h m) ≡ list_at a m ++ (if str_eq a b then as_list h else [])
unfolding lookup
list_at-push a b none m = elim (Bool-cases (str_eq a b)) [
  | inl e ↦ simp (e, append-nil)
  | inr e ↦ simp (e, append-nil)
]
list_at-push a b (some w) m = elim (Bool-cases (str_eq a b)) [
  | inl e ↦ let same : a ≡ b = (eq_iff a b).0 e in simp e (rw same refl)
  | inr e ↦ simp (e, append-nil)
]

list_at-collect :
    (a : Address) (cs : List ContractSubscription) (m : ByAddress (List WebhookRow))
    → list_at a (collect_webhooks cs m) ≡ list_at a m ++ webhooks_of a cs
unfolding collect_webhooks
list_at-collect a [] m = sym (append-nil _)
list_at-collect a (c ∷ cs) m =
    list_at-collect a cs _
    ∙ rw (list_at-push a c.contract_address c.webhook m) (
        append_assoc (list_at a m) (if str_eq a c.contract_address then as_list c.webhook else [])
          (webhooks_of a cs))

-- The webhooks of an address are those of the chain's subscriptions to it, in their order.
pub get_webhooks_by_contract_addresses_lem :
    (chain : ℕ) (rows : List ContractSubscription) (a : Address)
    → list_at a (get_webhooks_by_contract_addresses chain rows)
      ≡ webhooks_of a (get_contract_subscriptions_by_chain_id chain rows)
unfolding get_webhooks_by_contract_addresses lookup
get_webhooks_by_contract_addresses_lem chain rows a = list_at-collect a _ []

module _ (Q : JobQueue) (rows : List WebhookRow) where
  open Q use {Queue, jobs, add}

  -- What a call of enqueueWebhook with an event does.
  abbrev Adds : WebhookRow → WebhookData → JobId → Type 0
  Adds w d k =
      (W : World (Delivery Q))
      → enqueue_webhook Q rows d W ≡ (
        ok tt,
        record W {
          store = record (W.store) {
            queue =
                if listens w
                then add W.store.queue k (record { webhook_data = d; webhook = w })
                else W.store.queue;
          };
        },
      )

  Adds-receipt :
      (w : WebhookRow) (r : ReceiptRow)
      → Adds w (contract w none (some r)) (receipt_id w.url r.transaction_hash)
  unfolding enqueue_webhook enqueue_contract_job contract_job_id
  Adds-receipt w r W = elim (Bool-cases (listens w)) [ inl e ↦ simp e | inr e ↦ simp e ]

  has_job-if :
      (k l : JobId) (j : WebhookJob) (b : Bool) (q : Queue)
      → has_job k (jobs (if b then add q l j else q)) ≡ (has_job k (jobs q) || (b && job_id_eq k l))
  has_job-if k l j true q = has_job-add Q k l j q
  has_job-if k l j false q = ground arith

  module _ (k : JobId) where
    -- Whether the ID is that of an event for one of some webhooks that listen.
    abbrev pub goes_to : (WebhookRow → JobId) → List WebhookRow → Bool
    goes_to id = any (λ w. listens w && job_id_eq k (id w))

    has_job-each :
        (data_for : WebhookRow → WebhookData) (id : WebhookRow → JobId)
        → ((w : WebhookRow) → Adds w (data_for w) (id w))
        → (ws : List WebhookRow) (W : World (Delivery Q))
        → let (r, W') = enqueue_each Q rows ws data_for W in
          (r ≡ ok tt)
          × (has_job k (jobs W'.store.queue) ≡ (has_job k (jobs W.store.queue) || goes_to id ws))
    unfolding enqueue_each
    has_job-each data_for id adds [] W = (refl, ground arith)
    has_job-each data_for id adds (w ∷ ws) W =
        let (a, b) = has_job-each data_for id adds ws (enqueue_webhook Q rows (data_for w) W).1 in
        rw (adds w W) (
          rw (adds w W) at a,
          (rw (adds w W) at b)
              ∙ rw (has_job-if k (id w) _ (listens w) W.store.queue) (
                  sym (
                    or_assoc (has_job k (jobs W.store.queue)) (listens w && job_id_eq k (id w)) _)),
        )

    has_job-rows :
        {A : Type 0} (address : A → Address) (data_for : A → WebhookRow → WebhookData)
        (id : A → WebhookRow → JobId)
        → ((x : A) (w : WebhookRow) → Adds w (data_for x w) (id x w))
        → (m : ByAddress (List WebhookRow)) (xs : List A) (W : World (Delivery Q))
        → let (r, W') = enqueue_rows Q rows address data_for m xs W in
          (r ≡ ok tt)
          × (has_job k (jobs W'.store.queue) ≡ (
              has_job k (jobs W.store.queue)
              || any (λ x. goes_to (id x) (list_at (address x) m)) xs))
    unfolding enqueue_rows
    has_job-rows address data_for id adds m [] W = (refl, ground arith)
    has_job-rows address data_for id adds m (x ∷ xs) W =
        let ws = list_at (address x) m in
        let (a, b) = has_job-each (data_for x) (id x) (adds x) ws W in
        let (c, d) =
          has_job-rows address data_for id adds m xs (enqueue_each Q rows ws (data_for x) W).1 in
        rw (continue-ok (enqueue_each Q rows ws (data_for x) W) _ a)
          (c, d ∙ rw b (sym (or_assoc (has_job k (jobs W.store.queue)) (goes_to (id x) ws) _)))

  -- The same for receipts: the queue has the job for a URL and a transaction hash exactly if it had it
  -- before or an inserted receipt with that hash is of a contract of a subscription with such a webhook.
  pub handle_receipts-notified :
      (env : ReceiptsEnv) (subs : List ContractSubscription) (j : RangeJob)
      (receipts inserted : List ReceiptRow) (W : World (Delivery Q)) (url hash : String)
      → get_formatted_transaction_receipts env j ≡ ok receipts
      → is_empty receipts ≡ false
      → env.insert_receipts receipts ≡ ok inserted
      → let k = receipt_id url hash in
        let (r, W') = handle_receipts env Q rows subs j W in
        (r ≡ ok tt)
        × (has_job k (jobs W'.store.queue) ≡ (
            has_job k (jobs W.store.queue)
            || any
                (λ l.
                  any
                    (λ w. listens w && job_id_eq k (receipt_id w.url l.transaction_hash))
                    (webhooks_of l.contract_address
                      (get_contract_subscriptions_by_chain_id j.chain_id subs)))
                inserted))
  unfolding handle_receipts
  handle_receipts-notified env subs j receipts inserted W url hash found some_receipts stored =
      simp (found, some_receipts, stored, ← get_webhooks_by_contract_addresses_lem j.chain_id subs)
        (has_job-rows (receipt_id url hash) (λ (l : ReceiptRow). l.contract_address)
          (λ l w. contract w none (some l)) (λ l w. receipt_id w.url l.transaction_hash)
          (λ l w. Adds-receipt w l) (get_webhooks_by_contract_addresses j.chain_id subs) inserted W)
