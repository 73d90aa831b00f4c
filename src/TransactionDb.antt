-- ===== src/TransactionDb.antt =====
-- The store of transactions: the class TransactionDB of src/db/transactions/db.ts. A transaction is
-- held in JSON under its queue ID, which superjson reads back as it was; the queue IDs of each status
-- but `sent` stand in a sorted set, by time. Times are in milliseconds: the source divides them all
-- by 1000, which keeps their order.
pub mod Stored
pub mod Batches
use thirdweb_engine.Base.{
  ℕ, zero, suc, ◌+◌, ◌-◌, ◌*◌, Bool, String, Option, none, some, List, [], ◌∷◌, ◌++◌, take, drop,
  length, if◌then◌else◌,
}
use thirdweb_engine.Base.Int.{ℤ, pos}
use thirdweb_engine.Transaction.{
  Transaction, Status, queued, sent, mined, cancelled, errored, MinedDetails,
}
use thirdweb_engine.Redis.{Redis}
use thirdweb_engine.Redis.Values.{
  Key, details, queued_list, mined_list, cancelled_list, errored_list, Member, nonce, queue_id,
  json, get_json, exists, entries,
}
use thirdweb_engine.Engine.{Task, pure, gets, modify, ◌>>=◌, ◌>>◌}

-- The sorted set and the score that `set` adds a transaction to, by its status. A date that is not
-- there makes the source throw; a well-formed transaction has it.
abbrev pub or_zero : Option ℕ → ℕ
or_zero none = 0
or_zero (some n) = n

abbrev mined_time : Option MinedDetails → ℕ
mined_time none = 0
mined_time (some d) = d.mined_at

unfoldable pub listing : ℕ → Status → Transaction → Option (Key × ℕ)
listing now queued t = some (queued_list, t.queued_at)
listing now mined t = some (mined_list, mined_time t.mined_details)
listing now cancelled t = some (cancelled_list, or_zero t.cancelled_at)
listing now errored t = some (errored_list, now)
listing now sent t = none

-- The statuses that `getTransactionListByStatus` takes.
pub data ListedStatus : Type 0 where
  queued_txs mined_txs cancelled_txs errored_txs : ListedStatus

unfoldable pub list_key : ListedStatus → Key
list_key mined_txs = mined_list
list_key cancelled_txs = cancelled_list
list_key errored_txs = errored_list
list_key queued_txs = queued_list

abbrev pub member_ids : List (ℤ × Member) → List String
member_ids [] = []
member_ids ((_, queue_id i) ∷ l) = i ∷ member_ids l
member_ids ((_, nonce _) ∷ l) = member_ids l

abbrev pub keep_found : List (Option Transaction) → List Transaction
keep_found [] = []
keep_found (none ∷ l) = keep_found l
keep_found (some t ∷ l) = t ∷ keep_found l

abbrev reversed_onto {ℓ} : {A : Type ℓ} → List A → List A → List A
reversed_onto [] acc = acc
reversed_onto (x ∷ xs) acc = reversed_onto xs (x ∷ acc)

module _ (R : Redis) where
  open R use {Store, at, set, del, zadd, zremrange}

  -- `TransactionDB.set`; `now` is read for an errored transaction only.
  unfoldable pub set_transaction : ℕ → Transaction → Task Store (Unit {0})
  set_transaction now t = do
    modify (λ s. set s (details t.queue_id) (json t))
    elim (listing now t.status t) [
      | none ↦ pure tt
      | some (k, time) ↦ modify (λ s. zadd s k (pos time) (queue_id t.queue_id))
    ]

  -- `TransactionDB.get`
  unfoldable pub get_transaction : String → Task Store (Option Transaction)
  get_transaction id = gets (λ s. get_json (at s (details id)))

  -- `TransactionDB.exists`
  unfoldable pub exists_transaction : String → Task Store Bool
  exists_transaction id = gets (λ s. exists (at s (details id)))

  -- MGET of one batch.
  unfoldable pub mget : Store → List String → List (Option Transaction)
  mget s [] = []
  mget s (id ∷ ids) = get_json (at s (details id)) ∷ mget s ids

  -- The loop of `bulkGet`, in batches of `__EXPERIMENTAL_REDIS_BATCH_SIZE`; the fuel bounds the number
  -- of rounds.
  unfoldable pub bulk_get_from : ℕ → ℕ → Store → List String → List Transaction
  bulk_get_from zero batch s ids = []
  bulk_get_from (suc fuel) batch s [] = []
  bulk_get_from (suc fuel) batch s (id ∷ ids) =
      keep_found (mget s (take batch (id ∷ ids)))
      ++ bulk_get_from fuel batch s (drop batch (id ∷ ids))

  unfoldable pub bulk_get : ℕ → List String → Task Store (List Transaction)
  bulk_get batch ids = gets (λ s. bulk_get_from (length ids) batch s ids)

  -- UNLINK of one batch: the number of keys that were there, and the store without them.
  unfoldable pub unlink : Store → List String → ℕ × Store
  unlink s [] = (0, s)
  unlink s (id ∷ ids) =
      let (n, s') = unlink (del s (details id)) ids in
      ((if exists (at s (details id)) then suc n else n), s')

  unfoldable pub bulk_delete_from : ℕ → ℕ → Store → List String → ℕ × Store
  bulk_delete_from zero batch s ids = (0, s)
  bulk_delete_from (suc fuel) batch s [] = (0, s)
  bulk_delete_from (suc fuel) batch s (id ∷ ids) =
      let (n, s') = unlink s (take batch (id ∷ ids)) in
      let (m, s'') = bulk_delete_from fuel batch s' (drop batch (id ∷ ids)) in (n + m, s'')

  unfoldable pub bulk_delete : ℕ → List String → Task Store ℕ
  bulk_delete batch ids = do
    deleted ← gets (λ s. bulk_delete_from (length ids) batch s ids)
    modify (λ _. deleted.1)
    pure deleted.0

  -- `getTransactionListByStatus`: ZREVRANGE from `(page - 1) * limit`, `limit` queue IDs. Pages and
  -- limits are positive (the routes' schemas have minimum 1).
  unfoldable pub get_transaction_list_by_status :
      ℕ → ListedStatus → ℕ → ℕ → Task Store (List Transaction × ℕ)
  get_transaction_list_by_status batch status page limit = do
    all_entries ← gets (λ s. entries (at s (list_key status)))
    let newest_first = member_ids (reversed_onto all_entries [])
    transactions ← bulk_get batch (take limit (drop ((page - 1) * limit) newest_first))
    pure (transactions, length all_entries)

  -- `pruneTransactionDetailsAndLists`: the details of all queued entries but the latest `keep`, and
  -- the entries of each list but its latest `keep`.
  unfoldable pub prune_transaction_details_and_lists : ℕ → ℕ → Task Store ℕ
  prune_transaction_details_and_lists batch keep = do
    queued_entries ← gets (λ s. entries (at s queued_list))
    let oldest = member_ids (take (length queued_entries - keep) queued_entries)
    pruned ← bulk_delete batch oldest
    modify (λ s. zremrange s queued_list keep)
    modify (λ s. zremrange s mined_list keep)
    modify (λ s. zremrange s cancelled_list keep)
    modify (λ s. zremrange s errored_list keep)
    pure pruned
