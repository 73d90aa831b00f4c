-- ===== src/Delivery/Jobs.antt =====
-- The jobs of the queue of webhooks, by their IDs: src/worker/queues/sendWebhookQueue.ts.
use thirdweb_engine.Base.{
  ℕ, ◌+◌, ◌≤◌, ◌≡◌, refl, ap, sym, ◌∙◌, Bool, true, false, not, String, List, [], ◌∷◌, ◌++◌, ◌&&◌,
  ◌||◌, str_eq, eq_iff, is_some, any, any-append, or_assoc, if◌then◌else◌, arith, Bool-cases, inl,
  inr,
}
use thirdweb_engine.Engine.{EventType}
use thirdweb_engine.Subscriptions.{WebhookRow}
use thirdweb_engine.Delivery.{
  transaction_event, contract_subscription, type_text, transaction, WebhookJob, JobId, log_id,
  receipt_id, transaction_id, job_id_eq, JobQueue, transaction_job_id,
}

job_id_eq_sound : (k l : JobId) → job_id_eq k l ≡ true → k ≡ l
unfolding job_id_eq
job_id_eq_sound (log_id u h i) (log_id v k j) e = ground (arith, eq_iff u v, eq_iff h k)
job_id_eq_sound (receipt_id u h) (receipt_id v k) e = ground (arith, eq_iff u v, eq_iff h k)
job_id_eq_sound (transaction_id u t q) (transaction_id v s p) e =
    ground (arith, eq_iff u v, eq_iff t s, eq_iff q p)
job_id_eq_sound _ _ e = cc

or_right_false : (a : Bool) → (a || false) ≡ a
or_right_false true = refl
or_right_false false = refl

and_right_true : (a : Bool) → (a && true) ≡ a
and_right_true true = refl
and_right_true false = refl

abbrev pub has_job : JobId → List (JobId × WebhookJob) → Bool
has_job k = any (λ e. job_id_eq k e.0)

-- How many jobs of a list have an ID.
abbrev pub count_jobs : JobId → List (JobId × WebhookJob) → ℕ
count_jobs k [] = 0
count_jobs k (e ∷ es) = (if job_id_eq k e.0 then 1 else 0) + count_jobs k es

count_jobs-append :
    (k : JobId) (xs ys : List (JobId × WebhookJob))
    → count_jobs k (xs ++ ys) ≡ count_jobs k xs + count_jobs k ys
count_jobs-append k [] ys = omega arith
count_jobs-append k (x ∷ xs) ys = omega (arith, count_jobs-append k xs ys)

count_jobs-none :
    (k : JobId) (xs : List (JobId × WebhookJob)) → has_job k xs ≡ false → count_jobs k xs ≡ 0
count_jobs-none k [] h = refl
count_jobs-none k (x ∷ xs) h = ground (arith, count_jobs-none k xs)

-- Whether a webhook is active and for the events of contracts.
abbrev pub listens : WebhookRow → Bool
listens h = not (is_some h.revoked_at) && str_eq (type_text contract_subscription) h.event_type

str_eq_refl : (s : String) → str_eq s s ≡ true
str_eq_refl s = (eq_iff s s).1 refl

pub job_id_eq-transaction :
    (url type i : String) (w : WebhookRow)
    → job_id_eq (transaction_id url type i) (transaction_id w.url type i) ≡ str_eq url w.url
unfolding job_id_eq
job_id_eq-transaction url type i w =
    simp (str_eq_refl type, str_eq_refl i) (and_right_true (str_eq url w.url))

-- The active webhooks for all transactions or for one type of them that have a URL.
abbrev pub is_target : String → EventType → WebhookRow → Bool
is_target url t h =
    not (is_some h.revoked_at)
    && (str_eq url h.url
        && (str_eq h.event_type "all_transactions"
            || str_eq h.event_type (type_text (transaction_event t))))

module _ (Q : JobQueue) where
  open Q use {Queue, jobs, add, jobs-add}

  -- No more than one job of the queue has the ID.
  abbrev pub AtMostOnce : JobId → Queue → Type 0
  AtMostOnce k q = count_jobs k (jobs q) ≤ 1

  pub AtMostOnce-add :
      (k l : JobId) (j : WebhookJob) (q : Queue) → AtMostOnce k q → AtMostOnce k (add q l j)
  AtMostOnce-add k l j q h = rw (jobs-add q l j) (elim (Bool-cases (has_job l (jobs q))) [
    | inl there ↦ simp there h
    | inr new ↦
        simp (new, count_jobs-append)
          (elim (Bool-cases (job_id_eq k l)) [
            | inl same ↦
                let none_yet : count_jobs k (jobs q) ≡ 0 =
                  count_jobs-none k (jobs q) (rw (job_id_eq_sound k l same) new) in
                simp same (omega arith)
            | inr other ↦ simp other (omega arith)
          ])
  ])

  pub has_job-add :
      (k l : JobId) (j : WebhookJob) (q : Queue)
      → has_job k (jobs (add q l j)) ≡ (has_job k (jobs q) || job_id_eq k l)
  has_job-add k l j q = rw (jobs-add q l j) (elim (Bool-cases (has_job l (jobs q))) [
    | inl there ↦ simp there (elim (Bool-cases (job_id_eq k l)) [
      | inl same ↦
          let at_k : has_job k (jobs q) ≡ true = rw (job_id_eq_sound k l same) there in
          simp (same, at_k)
      | inr other ↦ simp other (sym (or_right_false _))
    ])
    | inr new ↦ simp (new, any-append) (ap (λ b. has_job k (jobs q) || b) (or_right_false _))
  ])

  -- The queue after a job for each of some webhooks.
  abbrev pub with_jobs : EventType → String → List WebhookRow → Queue → Queue
  with_jobs t i [] q = q
  with_jobs t i (w ∷ ws) q =
      with_jobs t i ws
        (add q (transaction_job_id w t i) (record { webhook_data = transaction t i; webhook = w }))

  pub has_job-with_jobs :
      (k : JobId) (t : EventType) (i : String) (ws : List WebhookRow) (q : Queue)
      → has_job k (jobs (with_jobs t i ws q))
        ≡ (has_job k (jobs q) || any (λ w. job_id_eq k (transaction_job_id w t i)) ws)
  has_job-with_jobs k t i [] q = sym (or_right_false _)
  has_job-with_jobs k t i (w ∷ ws) q =
      has_job-with_jobs k t i ws _
      ∙ rw has_job-add
          (sym (or_assoc (has_job k (jobs q)) (job_id_eq k (transaction_job_id w t i)) _))

  pub AtMostOnce-with_jobs :
      (k : JobId) (t : EventType) (i : String) (ws : List WebhookRow) (q : Queue)
      → AtMostOnce k q
      → AtMostOnce k (with_jobs t i ws q)
  AtMostOnce-with_jobs k t i [] q h = h
  AtMostOnce-with_jobs k t i (w ∷ ws) q h =
      AtMostOnce-with_jobs k t i ws _ (AtMostOnce-add k _ _ q h)
