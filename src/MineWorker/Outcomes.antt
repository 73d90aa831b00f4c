-- ===== src/MineWorker/Outcomes.antt =====
-- What the mine worker's handler does with a sent transaction of a wallet:
-- src/worker/tasks/mineTransactionWorker.ts.
use thirdweb_engine.Base.{
  ℕ, suc, ◌+◌, ◌≤◌, ◌<◌, ◌≡◌, refl, Bool, true, false, String, Option, none, some, List, All, [],
  ◌∷◌, ◌++◌, append_assoc, ◌==◌, leb, arith, if◌then◌else◌,
}
use thirdweb_engine.Base.Int.{ℤ, pos}
use thirdweb_engine.Transaction.{
  Transaction, sent, mined, number, Hex, OnchainStatus, success, reverted,
}
use thirdweb_engine.Redis.{Redis}
use thirdweb_engine.Redis.Values
use thirdweb_engine.Redis.Values.{
  Wallet, Key, key_eq, wallet_eq_refl, id_eq, id_eq_refl, has, details, recycled, sent_nonces,
  nonce, latest_block, json, get_number, zadd_value, srem_value,
}
use thirdweb_engine.Engine.{
  World, Thrown, when-emit, ok, err, error, send_job, mine_tx, error_tx, mined_tx, errored_tx,
  transaction_mined, webhook, usage, metric,
}
use thirdweb_engine.Env.{Env, Receipt}
use thirdweb_engine.Block.{get_block_numberish}
use thirdweb_engine.Nonce.{wallet_key, remove_sent_nonce, recycle_nonce}
use thirdweb_engine.TransactionDb.{get_transaction, or_zero}
use thirdweb_engine.TransactionDb.Stored.{
  set_transaction_lem, at-put, sent_nonces-put, recycled-put,
}
use thirdweb_engine.Webhook.{enqueue_transaction_webhook, event_type}
use thirdweb_engine.SendWorker.Prepare.{hashes_of}
use thirdweb_engine.MineWorker.{
  revert_message, backoff_strategy, first_receipt, mined_transaction, handle_mine, mine_transaction,
  release_sent, resend_if_late, release_nonce, timed_out, on_mine_failed,
}

==_refl : (n : ℕ) → (n == n) ≡ true
==_refl n = ground arith

-- After one attempt or more the wait before the next one is 2 to 10 seconds, and not longer than the
-- wait after it.
pub backoff_strategy_lem :
    (attempts_made : ℕ)
    → 0 < attempts_made
    → (2000 ≤ backoff_strategy attempts_made)
      × (backoff_strategy attempts_made ≤ 10000)
      × (backoff_strategy attempts_made ≤ backoff_strategy (suc attempts_made))
unfolding backoff_strategy
backoff_strategy_lem n h = ground arith

-- The error message that stands with a status onchain.
abbrev pub failure_text : OnchainStatus → Option String
failure_text success = none
failure_text reverted =
    some "The transaction failed onchain. See: https://portal.thirdweb.com/engine/troubleshooting"

failure_text-revert_message : (s : OnchainStatus) → revert_message s ≡ failure_text s
failure_text-revert_message success = refl
failure_text-revert_message reverted = refl

module _ (R : Redis) (env : Env) (w : World (Redis.Store R)) (t : Transaction)
    (stored : Redis.at R w.store (details t.queue_id) ≡ json t) (is_sent : t.status ≡ sent)
    (is_eoa : t.inserted.is_user_op ≡ false) (n : ℤ) (has_nonce : t.nonce ≡ some (number n)) where
  open R use {Store, at, set, at-set, at-zadd, at-srem, lex}

  -- The request for the receipt of every hash failed.
  abbrev pub Unanswered : List Hex → Type 0
  Unanswered =
      All (λ hash. (e : Thrown) × (env.transaction_receipt t.inserted.chain_id hash ≡ err e))

  first_receipt-append :
      (before after : List Hex) (hash : Hex) (receipt : Receipt)
      → Unanswered before
      → env.transaction_receipt t.inserted.chain_id hash ≡ ok receipt
      → first_receipt env t.inserted.chain_id (before ++ hash ∷ after) ≡ some receipt
  unfolding first_receipt
  first_receipt-append [] after hash receipt failed answer = rw answer refl
  first_receipt-append (h ∷ before) after hash receipt ((e, fails), failed) answer =
      rw fails (first_receipt-append before after hash receipt failed answer)

  abbrev key : Wallet
  key = wallet_key t.inserted.chain_id t.inserted.from

  abbrev released : World Store → World Store
  released v = record v { store = R.srem v.store (sent_nonces key) (nonce n) }

  release_sent_lem :
      (v : World Store)
      → release_sent R env t v ≡ (ok (has (nonce n) (at v.store (sent_nonces key))), released v)
  unfolding release_sent remove_sent_nonce
  release_sent_lem v = rw (release_sent, has_nonce)

  mine_transaction-mined :
      (receipt : Receipt)
      → first_receipt env t.inserted.chain_id (hashes_of t.sent_transaction_hashes) ≡ some receipt
      → mine_transaction R env t w ≡ (ok (some (mined_transaction env t receipt)), released w)
  unfolding mine_transaction
  mine_transaction-mined receipt found = rw (mine_transaction, found, release_sent_lem)

  abbrev late : ℕ → Bool
  late block = leb (env.min_ellapsed_blocks_before_retry + or_zero t.sent_at_block) block

  abbrev resent : ℕ → World Store
  resent block = record w {
    store = set w.store (latest_block t.inserted.chain_id) (Values.number (pos block));
    effects =
        if late block
        then w.effects ++ send_job t.queue_id (t.resend_count + 1) ∷ []
        else w.effects;
  }

  mine_transaction-waits :
      (block : ℕ)
      → first_receipt env t.inserted.chain_id (hashes_of t.sent_transaction_hashes) ≡ none
      → env.block_number t.inserted.chain_id ≡ ok block
      → mine_transaction R env t w ≡ (ok none, resent block)
  unfolding mine_transaction resend_if_late get_block_numberish
  mine_transaction-waits block missing counted =
      let h : resend_if_late R env t w ≡ (ok tt, resent block) =
        rw (resend_if_late, counted)
          (when-emit (late block) (send_job t.queue_id (t.resend_count + 1)) _) in
      rw (mine_transaction, missing, h)

  release_nonce_lem :
      (v : World Store)
      → release_nonce R env t v
        ≡ (ok tt, released (record v { store = R.zadd v.store (recycled key) n (nonce n) }))
  unfolding release_nonce recycle_nonce
  release_nonce_lem v = simp (has_nonce, release_sent_lem)

  -- The transaction as it is stored once it is mined.
  abbrev as_mined : Receipt → Transaction
  as_mined receipt = record t {
    status = mined;
    mined_details = some (record {
      transaction_hash = receipt.transaction_hash;
      mined_at = env.now;
      mined_at_block = receipt.block_number;
      transaction_type = receipt.type_name;
      onchain_status = receipt.status;
      gas_used = receipt.gas_used;
      effective_gas_price = receipt.effective_gas_price;
      cumulative_gas_used = receipt.cumulative_gas_used;
    });
    error_message = failure_text receipt.status;
  }

  mined-as_mined : (receipt : Receipt) → mined_transaction env t receipt ≡ as_mined receipt
  unfolding mined_transaction
  mined-as_mined receipt = rw (failure_text-revert_message receipt.status) refl

  found_receipt :
      (before after : List Hex) (hash : Hex) (receipt : Receipt)
      → t.sent_transaction_hashes ≡ some (before ++ hash ∷ after)
      → Unanswered before
      → env.transaction_receipt t.inserted.chain_id hash ≡ ok receipt
      → first_receipt env t.inserted.chain_id (hashes_of t.sent_transaction_hashes) ≡ some receipt
  found_receipt before after hash receipt hashes failed answer =
      rw hashes (first_receipt-append before after hash receipt failed answer)

  -- A sent transaction of a wallet one of whose hashes has a receipt, where the requests for the
  -- hashes before it fail: the job succeeds; the transaction is stored as mined, with the details of
  -- that receipt, its status onchain among them, the time, and the error message if the receipt is
  -- of a revert, and is else as it was; its nonce is taken off the sent ones; other transactions are
  -- as they were; and the webhook, the usage and the metric are handed out.
  pub handle_mine-mined :
      (before after : List Hex) (hash : Hex) (receipt : Receipt)
      → t.sent_transaction_hashes ≡ some (before ++ hash ∷ after)
      → Unanswered before
      → env.transaction_receipt t.inserted.chain_id hash ≡ ok receipt
      → let (r, w') = handle_mine R env t.queue_id w in
        (r ≡ ok tt)
        × (at w'.store (details t.queue_id) ≡ json (as_mined receipt))
        × (at w'.store (sent_nonces key) ≡ srem_value (nonce n) (at w.store (sent_nonces key)))
        × ((j : String)
            → at w'.store (details j)
              ≡ (if id_eq j t.queue_id then json (as_mined receipt) else at w.store (details j)))
        × (w'.effects
            ≡ w.effects
              ++ webhook mined_tx t.queue_id
                ∷ usage mine_tx t.queue_id
                ∷ metric transaction_mined t.queue_id
                ∷ [])
  unfolding handle_mine get_transaction enqueue_transaction_webhook event_type key_eq
  handle_mine-mined before after hash receipt hashes failed answer =
      let found = found_receipt before after hash receipt hashes failed answer in
      simp
        (
          stored,
          is_sent,
          is_eoa,
          mine_transaction-mined receipt found,
          mined-as_mined,
          set_transaction_lem,
          at-put,
          sent_nonces-put,
          id_eq_refl,
          at-srem,
          wallet_eq_refl,
          append_assoc,
        )
        (refl, refl, refl, λ j. refl, refl)

  -- A sent transaction of a wallet none of whose hashes has a receipt, when a block number is known:
  -- the job throws, so that it is tried again; no transaction and no nonce of the wallet changes;
  -- and a send job with the next resend count is handed out exactly if enough blocks have passed.
  pub handle_mine-waits :
      (block : ℕ)
      → first_receipt env t.inserted.chain_id (hashes_of t.sent_transaction_hashes) ≡ none
      → env.block_number t.inserted.chain_id ≡ ok block
      → let (r, w') = handle_mine R env t.queue_id w in
        (r ≡ error "NOT_CONFIRMED_YET")
        × ((j : String) → at w'.store (details j) ≡ at w.store (details j))
        × (at w'.store (sent_nonces key) ≡ at w.store (sent_nonces key))
        × (at w'.store (recycled key) ≡ at w.store (recycled key))
        × (w'.effects ≡ (
            if late block
            then w.effects ++ send_job t.queue_id (t.resend_count + 1) ∷ []
            else w.effects))
  unfolding handle_mine get_transaction key_eq
  handle_mine-waits block missing counted =
      simp (stored, is_sent, is_eoa, mine_transaction-waits block missing counted, at-set)
        (refl, λ j. refl, refl, refl, refl)

  -- After the last attempt to mine a sent transaction of a wallet the stored transaction is errored,
  -- its nonce is taken off the sent ones and added to the recycled ones, and the webhook and the
  -- usage are handed out.
  pub on_mine_failed-last :
      (attempts : ℕ)
      → let (r, w') = on_mine_failed R env attempts attempts t.queue_id w in
        (r ≡ ok tt)
        × (at w'.store (details t.queue_id) ≡ json (timed_out R env t))
        × (at w'.store (sent_nonces key) ≡ srem_value (nonce n) (at w.store (sent_nonces key)))
        × (at w'.store (recycled key) ≡ zadd_value lex n (nonce n) (at w.store (recycled key)))
        × (w'.effects ≡ w.effects ++ webhook errored_tx t.queue_id ∷ usage error_tx t.queue_id ∷ [])
  unfolding on_mine_failed get_transaction enqueue_transaction_webhook event_type key_eq
  on_mine_failed-last attempts =
      simp
        (
          stored, is_sent, is_eoa, ==_refl, release_nonce_lem, set_transaction_lem, at-put,
          sent_nonces-put, recycled-put, id_eq_refl, at-srem, at-zadd, wallet_eq_refl, append_assoc,
        )
        (refl, refl, refl, refl, refl)
