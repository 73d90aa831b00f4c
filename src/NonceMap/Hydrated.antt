-- ===== src/NonceMap/Hydrated.antt =====
-- Which transaction a nonce is shown with: the route of
-- src/server/routes/backend-wallet/getTransactionsByNonce.ts.
use thirdweb_engine.Base.{
  ◌≡◌, refl, ◌∙◌, ap, ℕ, ◌<◌, Bool, true, false, String, Option, none, some, List, [], ◌∷◌, map,
  filter, any, All, str_eq, eq_iff, or_else, if◌then◌else◌, Bool-cases, Option-cases, inl, inr,
  arith,
}
use thirdweb_engine.Base.Text.{to_lower}
use thirdweb_engine.Transaction.{Transaction, Address}
use thirdweb_engine.Redis.{Redis}
use thirdweb_engine.Redis.Values.{details, nonce_map, entries, get_json}
use thirdweb_engine.Engine.{World, Result, ok}
use thirdweb_engine.Nonce.{wallet_key}
use thirdweb_engine.TransactionDb.{mget, keep_found}
use thirdweb_engine.TransactionDb.Batches.{bulk_get_lem}
use thirdweb_engine.NonceMap.{
  NonceEntry, pairs, is_between, shown, transactions_map, hydrate, get_nonce_map,
  get_transactions_by_nonce,
}

or_else-none : {A : Type 0} (o : Option A) → or_else o none ≡ o
or_else-none none = refl
or_else-none (some a) = refl

if_same : {A : Type 0} (b : Bool) (a : A) → (if b then a else a) ≡ a
if_same true a = refl
if_same false a = refl

or_else-again :
    {A : Type 0} (b : Bool) (a : A) → or_else (if b then some a else none) (some a) ≡ some a
or_else-again true a = refl
or_else-again false a = refl

All-listed_more :
    (es : List NonceEntry) (x : String) (ids : List String)
    → All (λ e. any (str_eq e.1) ids ≡ true) es
    → All (λ e. any (str_eq e.1) (x ∷ ids) ≡ true) es
All-listed_more [] x ids h = tt
All-listed_more (e ∷ es) x ids (h, hs) = (ground (arith, h), All-listed_more es x ids hs)

All-listed :
    (es : List NonceEntry)
    → All (λ e. any (str_eq e.1) (map (λ (d : NonceEntry). d.1) es) ≡ true) es
All-listed [] = tt
All-listed (e ∷ es) = (
  ground (arith, eq_iff e.1 e.1),
  All-listed_more es e.1 (map (λ (d : NonceEntry). d.1) es) (All-listed es),
)

module _ (R : Redis) where
  open R use {Store, at}

  abbrev pub stored_transaction : Store → String → Option Transaction
  stored_transaction s id = get_json (at s (details id))

  -- A transaction is stored under its own queue ID.
  abbrev pub IsKeyed : Store → Type 0
  IsKeyed s = (id : String) (t : Transaction) → stored_transaction s id ≡ some t → t.queue_id ≡ id

  transactions_map-mget :
      (s : Store) (id : String) (ids : List String)
      → IsKeyed s
      → transactions_map (keep_found (mget R s ids)) id
        ≡ (if any (str_eq id) ids then stored_transaction s id else none)
  unfolding transactions_map mget
  transactions_map-mget s id [] keyed = refl
  transactions_map-mget s id (x ∷ ids) keyed =
      let others = transactions_map-mget s id ids keyed in
      elim (Bool-cases (str_eq id x)) [
        | inr other ↦ elim (Option-cases (stored_transaction s x)) [
          | inl n ↦ rw (n, other) others
          | inr (t, e) ↦ rw (e, keyed x t e, other) (or_else-none _ ∙ others)
        ]
        | inl same ↦
            let is_x : id ≡ x = ground (arith, same, eq_iff id x) in
            elim (Option-cases (stored_transaction s x)) [
              | inl n ↦
                  let e : stored_transaction s id ≡ none = rw is_x n in
                  rw (n, same, others, e) (if_same (any (str_eq id) ids) none)
              | inr (t, k) ↦
                  let e : stored_transaction s id ≡ some t = rw is_x k in
                  let named : str_eq id t.queue_id ≡ true = rw (keyed x t k) same in
                  rw (k, named, same, others, e) (or_else-again (any (str_eq id) ids) t)
            ]
      ]

  module _ (batch : ℕ) (chain_id_of : String → Result ℕ) where
    hydrated :
        (s : Store) (ids : List String) (es : List NonceEntry)
        → IsKeyed s
        → All (λ e. any (str_eq e.1) ids ≡ true) es
        → map (hydrate (keep_found (mget R s ids))) es
          ≡ map (λ (e : NonceEntry). (e.0, shown e.1 (stored_transaction s e.1))) es
    hydrated s ids [] keyed h = refl
    hydrated s ids (e ∷ es) keyed (h, hs) =
        rw (transactions_map-mget s e.1 ids keyed, h, hydrated s ids es keyed hs) refl

    -- When the chain is known, the size of a batch is one or more, and every transaction is stored
    -- under its own queue ID, the route shows each nonce of the map within the bounds, in the order
    -- of the map, which is ascending, with the transaction that is stored under its queue ID, or
    -- with the queue ID if there is none; and the store stays as it is.
    pub get_transactions_by_nonce_lem :
        (chain : String) (address : Address) (from : ℕ) (to : Option ℕ) (c : ℕ) (w : World Store)
        → 0 < batch
        → chain_id_of chain ≡ ok c
        → IsKeyed w.store
        → let key = nonce_map (wallet_key c (to_lower address)) in
          let found = filter (is_between from to) (pairs (entries (at w.store key))) in
          get_transactions_by_nonce R batch chain_id_of chain address from to w ≡ (
            ok (map (λ (e : NonceEntry). (e.0, shown e.1 (stored_transaction w.store e.1))) found),
            w,
          )
    unfolding get_transactions_by_nonce get_nonce_map
    get_transactions_by_nonce_lem chain address from to c w pos h keyed =
        let found =
          filter (is_between from to)
            (pairs (entries (at w.store (nonce_map (wallet_key c (to_lower address)))))) in
        rw (h, bulk_get_lem R batch (map (λ (e : NonceEntry). e.1) found) w pos)
          (ap (λ l. (ok l, w)) (hydrated w.store _ found keyed (All-listed found)))
