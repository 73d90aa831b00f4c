-- ===== src/Nonce.antt =====
-- The nonces of the backend wallets: src/db/wallets/walletNonce.ts and src/db/wallets/nonceMap.ts.
-- For each wallet the store holds the last used nonce, a sorted set of recycled nonces that can be
-- used again, a set of nonces that are sent and not yet mined, and a map from queue IDs to nonces.
pub mod Acquire
pub mod Frame
pub mod Sync
use thirdweb_engine.Base.{
  ◌+◌, ◌-◌, length, ℕ, Bool, false, String, Option, none, some, List, [], ◌∷◌, ◌++◌, if◌then◌else◌,
}
use thirdweb_engine.Base.Int.{ℤ, pos, ◌==ℤ◌, pred_ℕ, max_ℤ}
use thirdweb_engine.Base.Text.{to_lower}
use thirdweb_engine.Transaction.{Address}
use thirdweb_engine.Redis.{Redis}
use thirdweb_engine.Redis.Values.{
  Wallet, Key, last_used, recycled, sent_nonces, nonce_map, Member, nonce, queue_id, number,
  get_number, has, entries,
}
use thirdweb_engine.Engine.{Task, ok, error, pure, lift, gets, modify, ◌>>=◌, ◌>>◌}
use thirdweb_engine.Env.{Env}

-- `lastUsedNonceKey`, `recycledNoncesKey`, `sentNoncesKey` and `nonceMapKey` put the address in lower
-- case; the kind of the key is the constructor of `Key`.
unfoldable pub wallet_key : ℕ → Address → Wallet
wallet_key chain from = record { chain_id = chain; address = to_lower from }

-- `parseInt` of a member of the recycled nonces, which are all nonces.
abbrev pub first_nonce : List (ℤ × Member) → Option ℤ
first_nonce ((_, nonce n) ∷ _) = some n
first_nonce _ = none

module _ (R : Redis) where
  open R use {Store, at, set, del, incr, sadd, srem, zadd, zpopmin, zremrange, keys}

  unfoldable pub add_sent_nonce : Wallet → ℤ → Task Store (Unit {0})
  add_sent_nonce w n = modify (λ s. sadd s (sent_nonces w) (nonce n))

  -- Whether the nonce was in the set.
  unfoldable pub remove_sent_nonce : Wallet → ℤ → Task Store Bool
  remove_sent_nonce w n = do
    removed ← gets (λ s. has (nonce n) (at s (sent_nonces w)))
    modify (λ s. srem s (sent_nonces w) (nonce n))
    pure removed

  unfoldable pub is_sent_nonce : Wallet → ℤ → Task Store Bool
  is_sent_nonce w n = gets (λ s. has (nonce n) (at s (sent_nonces w)))

  -- `none` stands for NaN.
  unfoldable pub recycle_nonce : Wallet → Option ℤ → Task Store (Unit {0})
  recycle_nonce w none = pure tt
  recycle_nonce w (some n) = modify (λ s. zadd s (recycled w) n (nonce n))

  -- `_acquireRecycledNonce`
  unfoldable pub acquire_recycled_nonce : Wallet → Task Store (Option ℤ)
  acquire_recycled_nonce w = do
    result ← gets (λ s. first_nonce (entries (at s (recycled w))))
    modify (λ s. zpopmin s (recycled w))
    pure result

  -- `redis.incr(key)`, which fails if the key holds anything but a number.
  unfoldable pub incr_last_used : Wallet → Task Store ℤ
  incr_last_used w = do
    modify (λ s. incr s (last_used w))
    found ← gets (λ s. get_number (at s (last_used w)))
    lift (elim found [ some n ↦ ok n | none ↦ error "WRONGTYPE" ])

  unfoldable pub update_nonce_map : Wallet → ℤ → String → Task Store (Unit {0})
  update_nonce_map w n id = modify (λ s. zadd s (nonce_map w) n (queue_id id))

  unfoldable pub inspect_nonce : Wallet → Task Store ℤ
  inspect_nonce w = do
    found ← gets (λ s. get_number (at s (last_used w)))
    pure (elim found [ some n ↦ n | none ↦ pos 0 ])

  -- One round of the pipeline of `pruneNonceMaps` for each key: the number of members removed, and the
  -- store without them.
  unfoldable pub prune_keys : ℕ → List Key → Store → ℕ × Store
  prune_keys keep [] s = (0, s)
  prune_keys keep (k ∷ ks) s =
      let (n, s') = prune_keys keep ks (zremrange s k keep) in
      ((length (entries (at s k)) - keep) + n, s')

  -- `pruneNonceMaps` for a `NONCE_MAP_COUNT` of one or more. The last rank that is removed is
  -- `-NONCE_MAP_COUNT`, so one member less than that number is kept.
  unfoldable pub prune_nonce_maps : ℕ → Task Store ℕ
  prune_nonce_maps nonce_map_count = do
    pruned ← gets (λ s. prune_keys (nonce_map_count - 1) (keys s "nonce-map:") s)
    modify (λ _. pruned.1)
    pure pruned.0

  -- `redis.del(keys)`
  unfoldable pub del_all : List Key → Store → Store
  del_all [] s = s
  del_all (k ∷ ks) s = del_all ks (del s k)

  unfoldable pub delete_all_nonces : Task Store (Unit {0})
  delete_all_nonces =
      modify λ s. del_all (keys s "nonce:" ++ (keys s "nonce-recycled:" ++ keys s "sent-nonce:")) s

  module _ (env : Env) where
    open env use {transaction_count}

    unfoldable pub sync_latest_nonce_from_onchain : ℕ → Address → Task Store (Unit {0})
    sync_latest_nonce_from_onchain chain from = do
      count ← lift (transaction_count chain from)
      modify (λ s. set s (last_used (wallet_key chain from)) (number (pred_ℕ count)))

    -- The Lua script of `syncLatestNonceFromOnchainIfHigher`.
    abbrev pub next_nonce : ℕ → Option ℤ → ℤ
    next_nonce count found = max_ℤ (pred_ℕ count) (elim found [ some n ↦ n | none ↦ pos 0 ])

    unfoldable pub sync_latest_nonce_from_onchain_if_higher : ℕ → Address → Task Store ℤ
    sync_latest_nonce_from_onchain_if_higher chain from = do
      let key = last_used (wallet_key chain from)
      count ← lift (transaction_count chain from)
      found ← gets (λ s. get_number (at s key))
      modify (λ s. set s key (number (next_nonce count found)))
      pure (next_nonce count found)

    -- The nonce for a transaction with no recycled nonce to use: INCR, and for a result of 1, which
    -- a wallet without a counter gets, the onchain value and INCR again.
    unfoldable pub fresh_nonce : ℕ → Address → Task Store ℤ
    fresh_nonce chain from = do
      n ← incr_last_used (wallet_key chain from)
      let again = do
        sync_latest_nonce_from_onchain chain from
        incr_last_used (wallet_key chain from)
      if n ==ℤ pos 1 then again else pure n

    -- The nonce and `isRecycledNonce`. The source computes the flag in a variable and returns `false`.
    unfoldable pub acquire_nonce : String → ℕ → Address → Task Store (ℤ × Bool)
    acquire_nonce id chain from = do
      found ← acquire_recycled_nonce (wallet_key chain from)
      n ← elim found [ some n ↦ pure n | none ↦ fresh_nonce chain from ]
      update_nonce_map (wallet_key chain from) n id
      pure (n, false)
