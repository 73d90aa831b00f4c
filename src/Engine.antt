-- ===== src/Engine.antt =====
-- What a handler of the program does: it reads and writes the Redis store, hands jobs to the queues
-- and notices to the outside, and it may throw. A `Task` is one run of such code from its first line
-- to its return; what was written before a throw stays written.
use thirdweb_engine.Base.{
  ℕ, ◌≡◌, refl, ap, ◌⊎◌, inl, inr, Bool, true, false, String, Option, none, some, List, [], ◌∷◌,
  ◌++◌, if◌then◌else◌,
}
use thirdweb_engine.Transaction.{Address, Hex, Fees, Nonce}

-- A thrown value: what the program reads of it.
pub record Thrown : Type 0 where
  pub message : Option String
  pub code : Option String
  pub status_code : Option ℕ

pub data Result {ℓ} (A : Type ℓ) : Type ℓ where
  ok : A → Result A
  err : Thrown → Result A

pub Result-cases {ℓ} :
    {A : Type ℓ} (r : Result A) → ((a : A) × (r ≡ ok a)) ⊎ ((e : Thrown) × (r ≡ err e))
Result-cases (ok a) = inl (a, refl)
Result-cases (err e) = inr (e, refl)

-- What follows an answer, or its error.
abbrev pub then_ok {ℓ κ} : {A : Type ℓ} {B : Type κ} → Result A → (A → Result B) → Result B
then_ok (ok a) f = f a
then_ok (err e) f = err e

-- `throw new Error(message)`
abbrev pub error {ℓ} : {A : Type ℓ} → String → Result A
error m = err (record { message = some m; code = none; status_code = none })

-- `throw createCustomError(message, StatusCodes.BAD_REQUEST, code)`
abbrev pub bad_request {ℓ} : {A : Type ℓ} → String → String → Result A
bad_request m c = err (record { message = some m; code = some c; status_code = some 400 })

-- The result of `toSerializableTransaction`.
pub record Populated : Type 0 where
  pub chain_id : ℕ
  pub nonce : Option Nonce
  pub to : Option Address
  pub value : Option ℕ
  pub call_data : Option Hex
  pub fees : Fees

-- `WebhooksEventTypes` of transactions.
pub data EventType : Type 0 where
  sent_tx mined_tx errored_tx cancelled_tx : EventType

pub data UsageAction : Type 0 where
  queue_tx send_tx mine_tx cancel_tx error_tx : UsageAction

pub data Metric : Type 0 where
  transaction_queued : Metric
  transaction_sent : Bool → Metric
  transaction_mined : Metric

-- A subscribed contract, with the names of the events or functions that are asked for.
pub record Filter : Type 0 where
  pub address : Address
  pub names : List String

-- `EnqueueProcessEventLogsData` and `EnqueueProcessTransactionReceiptsData`: a range of blocks, both
-- ends included.
pub record RangeJob : Type 0 where
  pub chain_id : ℕ
  pub filters : List Filter
  pub from_block : ℕ
  pub to_block : ℕ

-- `ProcessEventsLogQueue` and `ProcessTransactionReceiptsQueue`.
pub data RangeQueue : Type 0 where
  event_logs_queue receipts_queue : RangeQueue

-- The options of a job that differ from job to job: its delay in milliseconds, and its attempts.
pub record JobOptions : Type 0 where
  pub delay : Option ℕ
  pub attempts : ℕ

-- What a handler hands to BullMQ, to the RPC and to the usage and metrics services, in order.
pub data Effect : Type 0 where
  send_job : String → ℕ → Effect
  remove_send_job : String → ℕ → Effect
  mine_job : String → Effect
  remove_mine_job : String → Effect
  webhook : EventType → String → Effect
  usage : UsageAction → String → Effect
  metric : Metric → String → Effect
  -- `account.sendTransaction`, from a wallet
  broadcast : Address → Populated → Effect
  -- `bundleUserOp`
  bundle : String → Effect
  range_job : RangeQueue → RangeJob → JobOptions → Effect
  -- `cron.schedule` and the `stop` of what it gave, for the indexer of a chain
  start_indexer stop_indexer : ℕ → Effect
  -- a request to the URL of a webhook, and the status of its response
  webhook_request : String → ℕ → Effect
  -- the update of `transactions` in Postgres that sets `cancelledAt` of some rows
  cancel_rows : List String → Effect

pub record World (S : Type 0) : Type 0 where
  pub store : S
  pub effects : List Effect

abbrev pub Task : Type 0 → Type 0 → Type 0
Task S A = World S → Result A × World S

module _ {S A : Type 0} where
  abbrev pub pure : A → Task S A
  pure a w = (ok a, w)

  -- The answer of something outside, or of a check.
  abbrev pub lift : Result A → Task S A
  lift r w = (r, w)

  abbrev pub gets : (S → A) → Task S A
  gets f w = (ok (f w.store), w)

pub ok_inj {ℓ} : {A : Type ℓ} {a b : A} → ok a ≡ ok b → a ≡ b
ok_inj e = cc

pub ok-ne-err {ℓ} : {A : Type ℓ} {a : A} {e : Thrown} → err e ≡ ok a → ⊥
ok-ne-err e = cc

module _ {S A B : Type 0} where
  -- What follows a run: the rest on its value, or its error.
  abbrev pub continue : Result A × World S → (A → Task S B) → Result B × World S
  continue (ok a, w) f = f a w
  continue (err e, w) f = (err e, w)

  pub continue-ok :
      (r : Result A × World S) (f : A → Task S B) {a : A} → r.0 ≡ ok a → continue r f ≡ f a r.1
  continue-ok (ok b, w) f e = ap (λ c. f c w) (ok_inj e)
  continue-ok (err b, w) f e = absurd (ok-ne-err e)

  pub continue-err :
      (r : Result A × World S) (f : A → Task S B) {e : Thrown}
      → r.0 ≡ err e
      → continue r f ≡ (err e, r.1)
  continue-err (ok b, w) f h = cc
  continue-err (err b, w) f h = cc

  abbrev pub recover :
      Result A × World S → (Thrown → Task S B) → (A → Task S B) → Result B × World S
  recover (ok a, w) h f = f a w
  recover (err e, w) h f = h e w

  infixl 5 ◌>>=◌ ◌>>◌
  abbrev pub ◌>>=◌ : Task S A → (A → Task S B) → Task S B
  ◌>>=◌ m f w = continue (m w) f

  abbrev pub ◌>>◌ : Task S A → Task S B → Task S B
  m >> k = m >>= λ _. k

  -- `try { … } catch (e) { … }`
  abbrev pub try_catch : Task S A → (Thrown → Task S B) → (A → Task S B) → Task S B
  try_catch m h f w = recover (m w) h f

module _ {S : Type 0} where
  abbrev pub modify : (S → S) → Task S (Unit {0})
  modify f w = (ok tt, record w { store = f w.store })

  abbrev pub emit : Effect → Task S (Unit {0})
  emit e w = (ok tt, record w { effects = w.effects ++ e ∷ [] })

  -- `if (c) { … }`
  abbrev pub when : Bool → Task S (Unit {0}) → Task S (Unit {0})
  when c m = if c then m else pure tt

  -- A job that is handed out under a condition.
  pub when-emit :
      (c : Bool) (e : Effect) (w : World S)
      → when c (emit e) w
        ≡ (ok tt, record w { effects = if c then w.effects ++ e ∷ [] else w.effects })
  when-emit true e w = refl
  when-emit false e w = refl
