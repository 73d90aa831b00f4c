-- ===== src/NonceMap.antt =====
-- The transactions of a wallet by nonce: `getNonceMap` of src/db/wallets/nonceMap.ts, and the route of
-- src/server/routes/backend-wallet/getTransactionsByNonce.ts.
pub mod Hydrated
use thirdweb_engine.Base.{
  ℕ, Bool, true, false, ◌&&◌, String, Option, none, some, List, [], ◌∷◌, map, filter, str_eq,
  or_else, if◌then◌else◌,
}
use thirdweb_engine.Base.Int.{ℤ, pos, leb_ℤ}
use thirdweb_engine.Base.Text.{to_lower}
use thirdweb_engine.Transaction.{Transaction, Address}
use thirdweb_engine.Redis.{Redis}
use thirdweb_engine.Redis.Values.{Wallet, Member, nonce, queue_id, nonce_map, entries}
use thirdweb_engine.Engine.{Task, Result, pure, lift, gets, ◌>>=◌}
use thirdweb_engine.Nonce.{wallet_key}
use thirdweb_engine.TransactionDb.{bulk_get}
use thirdweb_engine.Delivery.Schemas.{TransactionSchema, to_transaction_schema}

-- A nonce and the queue ID that acquired it.
abbrev pub NonceEntry : Type 0
NonceEntry = ℤ × String

-- The members of the set, which are all queue IDs.
abbrev pub pairs : List (ℤ × Member) → List NonceEntry
pairs [] = []
pairs ((n, queue_id i) ∷ l) = (n, i) ∷ pairs l
pairs ((_, nonce _) ∷ l) = pairs l

-- The bounds of ZRANGEBYSCORE
abbrev pub is_between : ℕ → Option ℕ → NonceEntry → Bool
is_between from none e = leb_ℤ (pos from) e.0
is_between from (some to) e = leb_ℤ (pos from) e.0 && leb_ℤ e.0 (pos to)

-- A transaction, or its queue ID if it is not there any more.
pub data Shown : Type 0 where
  shown_transaction : TransactionSchema → Shown
  shown_queue_id : String → Shown

abbrev pub shown : String → Option Transaction → Shown
shown id none = shown_queue_id id
shown id (some t) = shown_transaction (to_transaction_schema t)

-- `transactionsMap.get(…)`: of the transactions with an ID, the last that was set.
unfoldable pub transactions_map : List Transaction → String → Option Transaction
transactions_map [] id = none
transactions_map (t ∷ ts) id =
    or_else (transactions_map ts id) (if str_eq id t.queue_id then some t else none)

abbrev pub hydrate : List Transaction → NonceEntry → ℤ × Shown
hydrate ts e = (e.0, shown e.1 (transactions_map ts e.1))

module _ (R : Redis) (batch : ℕ) (chain_id_of : String → Result ℕ) where
  open R use {Store, at}

  -- `getNonceMap`
  unfoldable pub get_nonce_map : Wallet → ℕ → Option ℕ → Task Store (List NonceEntry)
  get_nonce_map w from to =
      gets (λ s. filter (is_between from to) (pairs (entries (at s (nonce_map w)))))

  -- The handler of the route, with the size of a batch of `bulkGet`
  unfoldable pub get_transactions_by_nonce :
      String → Address → ℕ → Option ℕ → Task Store (List (ℤ × Shown))
  get_transactions_by_nonce chain address from to = do
    chain_id ← lift (chain_id_of chain)
    found ← get_nonce_map (wallet_key chain_id (to_lower address)) from to
    transactions ← bulk_get R batch (map (λ (e : NonceEntry). e.1) found)
    pure (map (hydrate transactions) found)
