-- ===== src/Delivery/Events.antt =====
-- The events that the jobs of the queue of webhooks are about: src/worker/queues/sendWebhookQueue.ts.
use thirdweb_engine.Base.{
  ℕ, ◌+◌, ◌≤◌, ◌≡◌, refl, sym, Bool, true, false, ◌&&◌, String, Option, none, some, List, [], ◌∷◌,
  ◌++◌, ◌==◌, All, str_eq, any, arith, if◌then◌else◌, Bool-cases, inl, inr,
}
use thirdweb_engine.Engine.{World, EventType, sent_tx, mined_tx, errored_tx, cancelled_tx}
use thirdweb_engine.Subscriptions.{WebhookRow, EventLog, ReceiptRow}
use thirdweb_engine.Delivery.{
  transaction_event, type_text, WebhookData, contract, transaction, WebhookJob, JobId, log_id,
  receipt_id, transaction_id, job_id_eq, JobQueue, contract_job_id, transaction_job_id, Delivery,
  enqueue_contract_job, enqueue_webhook,
}
use thirdweb_engine.Delivery.Jobs.{count_jobs, AtMostOnce, AtMostOnce-add, with_jobs, listens}
use thirdweb_engine.Delivery.Once.{targets, enqueue_transaction_job_lem}

-- What a job tells to a URL: a log, a receipt, or an event of a transaction.
pub data Subject : Type 0 where
  -- the hash of the transaction and the index of the log
  of_log : String → ℕ → Subject
  of_receipt : String → Subject
  -- the event and the queue ID
  of_transaction : EventType → String → Subject

abbrev pub same_event : EventType → EventType → Bool
same_event sent_tx sent_tx = true
same_event mined_tx mined_tx = true
same_event errored_tx errored_tx = true
same_event cancelled_tx cancelled_tx = true
same_event _ _ = false

abbrev pub tells : Subject → WebhookData → Bool
tells (of_log h i) (contract _ (some l) _) = str_eq h l.transaction_hash && i == l.log_index
tells (of_receipt h) (contract _ none (some r)) = str_eq h r.transaction_hash
tells (of_transaction t q) (transaction s p) = same_event t s && str_eq q p
tells _ _ = false

-- How many jobs of a list tell a subject to the webhooks with a URL.
abbrev pub count_told : String → Subject → List (JobId × WebhookJob) → ℕ
count_told url x [] = 0
count_told url x (e ∷ es) =
    (if str_eq url e.1.webhook.url && tells x e.1.webhook_data then 1 else 0) + count_told url x es

-- The key of a subject and a URL.
abbrev id_of : String → Subject → JobId
id_of url (of_log h i) = log_id url h i
id_of url (of_receipt h) = receipt_id url h
id_of url (of_transaction t q) = transaction_id url (type_text (transaction_event t)) q

-- The key of an entry is that of what its job tells, and to whom.
abbrev IsNamed : JobId × WebhookJob → Type 0
IsNamed (k, j) =
    (url : String) (x : Subject)
    → job_id_eq (id_of url x) k ≡ (str_eq url j.webhook.url && tells x j.webhook_data)

count_told-named :
    (url : String) (x : Subject) (es : List (JobId × WebhookJob))
    → All IsNamed es
    → count_told url x es ≡ count_jobs (id_of url x) es
count_told-named url x [] h = refl
count_told-named url x (e ∷ es) (h, hs) = rw (h url x, count_told-named url x es hs) refl

same_event-type_text :
    (t s : EventType)
    → str_eq (type_text (transaction_event t)) (type_text (transaction_event s)) ≡ same_event t s
same_event-type_text sent_tx sent_tx = refl
same_event-type_text sent_tx mined_tx = refl
same_event-type_text sent_tx errored_tx = refl
same_event-type_text sent_tx cancelled_tx = refl
same_event-type_text mined_tx sent_tx = refl
same_event-type_text mined_tx mined_tx = refl
same_event-type_text mined_tx errored_tx = refl
same_event-type_text mined_tx cancelled_tx = refl
same_event-type_text errored_tx sent_tx = refl
same_event-type_text errored_tx mined_tx = refl
same_event-type_text errored_tx errored_tx = refl
same_event-type_text errored_tx cancelled_tx = refl
same_event-type_text cancelled_tx sent_tx = refl
same_event-type_text cancelled_tx mined_tx = refl
same_event-type_text cancelled_tx errored_tx = refl
same_event-type_text cancelled_tx cancelled_tx = refl

and_false : (a : Bool) → (a && false) ≡ false
and_false true = refl
and_false false = refl

transaction_job-IsNamed :
    (w : WebhookRow) (t : EventType) (q : String)
    → IsNamed (transaction_job_id w t q, record { webhook_data = transaction t q; webhook = w })
unfolding job_id_eq
transaction_job-IsNamed w t q url (of_log h i) = sym (and_false _)
transaction_job-IsNamed w t q url (of_receipt h) = sym (and_false _)
transaction_job-IsNamed w t q url (of_transaction s p) = rw (same_event-type_text s t) refl

log_job-IsNamed :
    (w : WebhookRow) (l : EventLog) (r : Option ReceiptRow)
    → IsNamed (
      log_id w.url l.transaction_hash l.log_index,
      record { webhook_data = contract w (some l) r; webhook = w },
    )
unfolding job_id_eq
log_job-IsNamed w l r url (of_log h i) = refl
log_job-IsNamed w l r url (of_receipt h) = sym (and_false _)
log_job-IsNamed w l r url (of_transaction s p) = sym (and_false _)

receipt_job-IsNamed :
    (w : WebhookRow) (r : ReceiptRow)
    → IsNamed (
      receipt_id w.url r.transaction_hash,
      record { webhook_data = contract w none (some r); webhook = w },
    )
unfolding job_id_eq
receipt_job-IsNamed w r url (of_log h i) = sym (and_false _)
receipt_job-IsNamed w r url (of_receipt h) = refl
receipt_job-IsNamed w r url (of_transaction s p) = sym (and_false _)

All-append_one :
    {A : Type 0} (P : A → Type 0) (xs : List A) (x : A) → All P xs → P x → All P (xs ++ x ∷ [])
All-append_one P [] x h p = (p, tt)
All-append_one P (y ∷ xs) x (h, hs) p = (h, All-append_one P xs x hs p)

module _ (Q : JobQueue) where
  open Q use {Queue, jobs, add, jobs-add}

  -- Every job stands under its own key, and no key twice.
  abbrev IsOrderly : Queue → Type 0
  IsOrderly q = All IsNamed (jobs q) × ((k : JobId) → AtMostOnce Q k q)

  IsOrderly-add :
      (k : JobId) (j : WebhookJob) (q : Queue)
      → IsNamed (k, j)
      → IsOrderly q
      → IsOrderly (add q k j)
  IsOrderly-add k j q n (h, o) = (named, λ l. AtMostOnce-add Q l k j q (o l))
    where
      named : All IsNamed (jobs (add q k j))
      named = rw (jobs-add q k j) (elim (Bool-cases (any (λ e. job_id_eq k e.0) (jobs q))) [
        | inl there ↦ rw there h
        | inr new ↦ rw new (All-append_one IsNamed (jobs q) (k, j) h n)
      ])

  IsOrderly-with_jobs :
      (t : EventType) (i : String) (ws : List WebhookRow) (q : Queue)
      → IsOrderly q
      → IsOrderly (with_jobs Q t i ws q)
  IsOrderly-with_jobs t i [] q h = h
  IsOrderly-with_jobs t i (w ∷ ws) q h = IsOrderly-with_jobs t i ws _ (
      IsOrderly-add (transaction_job_id w t i)
        (record { webhook_data = transaction t i; webhook = w }) q (transaction_job-IsNamed w t i)
        h)

  enqueue_contract_job-IsOrderly :
      (rows : List WebhookRow) (h : WebhookRow) (log : Option EventLog)
      (receipt : Option ReceiptRow) (w : World (Delivery Q))
      → IsOrderly w.store.queue
      → IsOrderly (enqueue_contract_job Q rows h log receipt w).1.store.queue
  unfolding enqueue_contract_job contract_job_id
  enqueue_contract_job-IsOrderly rows h none none w o = o
  enqueue_contract_job-IsOrderly rows h (some l) receipt w o = elim (Bool-cases (listens h)) [
    | inl a ↦ simp a (IsOrderly-add _ _ w.store.queue (log_job-IsNamed h l receipt) o)
    | inr a ↦ simp a o
  ]
  enqueue_contract_job-IsOrderly rows h none (some r) w o = elim (Bool-cases (listens h)) [
    | inl a ↦ simp a (IsOrderly-add _ _ w.store.queue (receipt_job-IsNamed h r) o)
    | inr a ↦ simp a o
  ]

  IsOrderly-enqueue :
      (rows : List WebhookRow) (d : WebhookData) (w : World (Delivery Q))
      → IsOrderly w.store.queue
      → IsOrderly (enqueue_webhook Q rows d w).1.store.queue
  unfolding enqueue_webhook
  IsOrderly-enqueue rows (contract h log receipt) w o =
      enqueue_contract_job-IsOrderly rows h log receipt w o
  IsOrderly-enqueue rows (transaction t i) w o =
      rw ((enqueue_transaction_job_lem Q rows t i w).1)
        (IsOrderly-with_jobs t i (targets Q rows t w.store.cache) w.store.queue o)

  -- Calls one after the other, each with the webhooks that the database holds then. A call that
  -- throws does not stop the next.
  abbrev pub enqueue_all :
      List (List WebhookRow × WebhookData) → World (Delivery Q) → World (Delivery Q)
  enqueue_all [] w = w
  enqueue_all ((rows, d) ∷ calls) w = enqueue_all calls (enqueue_webhook Q rows d w).1

  enqueue_all-IsOrderly :
      (calls : List (List WebhookRow × WebhookData)) (w : World (Delivery Q))
      → IsOrderly w.store.queue
      → IsOrderly (enqueue_all calls w).store.queue
  enqueue_all-IsOrderly [] w o = o
  enqueue_all-IsOrderly ((rows, d) ∷ calls) w o =
      enqueue_all-IsOrderly calls _ (IsOrderly-enqueue rows d w o)

  -- From an empty queue, after any calls, whatever webhooks there are at each, at most one job of
  -- the queue tells the same URL of the same event log, the same receipt, or the same event of the
  -- same transaction, as long as the queue keeps its jobs.
  pub enqueue_all-once :
      (calls : List (List WebhookRow × WebhookData)) (w : World (Delivery Q)) (url : String)
      (x : Subject)
      → jobs w.store.queue ≡ []
      → count_told url x (jobs (enqueue_all calls w).store.queue) ≤ 1
  enqueue_all-once calls w url x e =
      let start : IsOrderly w.store.queue = (
        rw e tt,
        λ k. let none_yet : count_jobs k (jobs w.store.queue) ≡ 0 = rw e refl in omega arith,
      ) in
      let (named, once) = enqueue_all-IsOrderly calls w start in
      rw (count_told-named url x _ named) (once (id_of url x))
