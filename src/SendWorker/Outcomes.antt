-- ===== src/SendWorker/Outcomes.antt =====
-- What the send worker's handler does with each stored transaction:
-- src/worker/tasks/sendTransactionWorker.ts.
use thirdweb_engine.Base.{
  if◌then◌else◌, ℕ, zero, suc, ◌≡◌, refl, ap, ◌∙◌, Bool, true, false, String, none, some, [], ◌∷◌,
  ◌++◌, append_assoc, ◌||◌, ◌⊎◌, inl, inr,
}
use thirdweb_engine.Base.Int.{ℤ, pos}
use thirdweb_engine.Transaction.{Transaction, queued, sent, mined, cancelled, number, Hex}
use thirdweb_engine.Redis.{Redis}
use thirdweb_engine.Redis.Values
use thirdweb_engine.Redis.Values.{
  Wallet, Key, key_eq, wallet_eq_refl, id_eq, id_eq_refl, Value, details, recycled, sent_nonces,
  nonce, latest_block, json, get_number, zadd_value, sadd_value,
}
use thirdweb_engine.Engine.{
  World, Thrown, ok, err, error, Populated, broadcast, send_tx, sent_tx, transaction_sent, mine_job,
  webhook, usage, metric,
}
use thirdweb_engine.Env.{Env}
use thirdweb_engine.Errors.{is_nonce_already_used_error, is_replacement_gas_fee_too_low}
use thirdweb_engine.Block.{get_block_numberish}
use mathlib.Core.Path.{subst}
use thirdweb_engine.Nonce.Frame.{IsSame, acquire_nonce-IsSame}
use thirdweb_engine.Nonce.{wallet_key, acquire_nonce, add_sent_nonce, recycle_nonce}
use thirdweb_engine.TransactionDb.{get_transaction}
use thirdweb_engine.TransactionDb.Stored.{set_transaction_lem, at-put, sent_nonces-put}
use thirdweb_engine.Webhook.{enqueue_transaction_webhook, event_type}
use thirdweb_engine.SendWorker.{
  handle_send, attempt, finish, send_transaction, submit, on_send_error,
}
use thirdweb_engine.SendWorker.Prepare.{
  populated, resolve_deployed_contract_address, get_populated_or_errored_transaction,
  on_manual_retry,
}

module _ (R : Redis) (env : Env) (w : World (Redis.Store R)) where
  open R use {Store, at, set, at-set, at-zadd, at-sadd, lex}

  not_retried :
      (now resend_count : ℕ) (t : Transaction) → on_manual_retry now resend_count queued t ≡ t
  unfolding on_manual_retry
  not_retried now zero t = refl
  not_retried now (suc n) t = refl

  module _ (id : String) (t : Transaction) (stored : at w.store (details id) ≡ json t) where
    -- A job whose transaction is mined or cancelled does nothing, whatever its resend count: it
    -- succeeds, stores nothing and hands out nothing.
    pub handle_send-final :
        (resend_count : ℕ)
        → (t.status ≡ mined) ⊎ (t.status ≡ cancelled)
        → handle_send R env id resend_count w ≡ (ok tt, w)
    unfolding handle_send get_transaction attempt on_manual_retry
    handle_send-final zero (inl st) = simp (stored, st)
    handle_send-final zero (inr st) = simp (stored, st)
    handle_send-final (suc n) (inl st) = simp (stored, st)
    handle_send-final (suc n) (inr st) = simp (stored, st)

  -- A queued transaction of a wallet, sent as `p` with the nonce `n`.
  module _ (t : Transaction) (stored : at w.store (details t.queue_id) ≡ json t)
      (is_queued : t.status ≡ queued) (is_eoa : t.inserted.is_user_op ≡ false) (p : Populated)
      (prepared : get_populated_or_errored_transaction env t ≡ populated p) (n : ℤ) (flag : Bool)
      (w₁ : World Store)
      (acquired : acquire_nonce R env t.queue_id t.inserted.chain_id t.inserted.from w
        ≡ (ok (n, flag), w₁))
      (is_wallet : env.get_account t.inserted.chain_id t.inserted.from ≡ ok tt) where
    abbrev key : Wallet
    key = wallet_key t.inserted.chain_id t.inserted.from

    abbrev request : Populated
    request = record p { nonce = some (number n) }

    unchanged : IsSame R env w.store w₁.store
    unchanged =
        subst (λ r. IsSame R env w.store r.1.store) acquired
          (acquire_nonce-IsSame R env t.queue_id t.inserted.chain_id t.inserted.from w)

    abbrev submitted : World Store
    submitted = record w₁ { effects = w₁.effects ++ broadcast t.inserted.from request ∷ [] }

    -- The transaction as it is stored once it is sent.
    abbrev as_sent : Hex → ℕ → Transaction
    as_sent hash block = record t {
      status = sent;
      nonce = some (number n);
      sent_transaction_hashes = some (hash ∷ []);
      resend_count = 0;
      sent_at = some env.now;
      sent_at_block = some block;
      fees = p.fees;
      inserted = record (t.inserted) {
        deployed_contract_address = resolve_deployed_contract_address env t n;
      };
    }

    abbrev noted : Store
    noted = R.sadd w₁.store (sent_nonces key) (nonce n)

    submit_lem :
        submit R env t request w₁ ≡ (env.send_transaction t.inserted.from request, submitted)
    unfolding submit
    submit_lem = simp is_wallet

    send_transaction-refused :
        (e : Thrown)
        → env.send_transaction t.inserted.from request ≡ err e
        → (is_nonce_already_used_error e || is_replacement_gas_fee_too_low e) ≡ false
        → send_transaction R env t w
          ≡ (err e, record submitted { store = R.zadd w₁.store (recycled key) n (nonce n) })
    unfolding send_transaction on_send_error recycle_nonce
    send_transaction-refused e refused plain =
        rw (send_transaction, prepared, acquired, submit_lem, refused, plain)

    send_transaction-sent :
        (hash : Hex) (block : ℕ)
        → env.send_transaction t.inserted.from request ≡ ok hash
        → env.block_number t.inserted.chain_id ≡ ok block
        → send_transaction R env t w ≡ (
          ok (as_sent hash block),
          record submitted {
            store = set noted (latest_block t.inserted.chain_id) (Values.number (pos block));
          },
        )
    unfolding send_transaction add_sent_nonce get_block_numberish
    send_transaction-sent hash block taken counted =
        rw (send_transaction, prepared, acquired, submit_lem, taken, counted)

    send_transaction-lost :
        (hash : Hex) (e : Thrown)
        → env.send_transaction t.inserted.from request ≡ ok hash
        → env.block_number t.inserted.chain_id ≡ err e
        → get_number (at w₁.store (latest_block t.inserted.chain_id)) ≡ none
        → send_transaction R env t w
          ≡ (error "Error getting latest block number.", record submitted { store = noted })
    unfolding send_transaction add_sent_nonce get_block_numberish key_eq
    send_transaction-lost hash e taken failed none_cached =
        simp (send_transaction, prepared, acquired, submit_lem, taken, failed, at-sadd, none_cached)

    -- A queued transaction of a wallet that is valid, gets a nonce and is refused by the RPC with an
    -- error that is not about its nonce or its replacement: the error is thrown, the nonce is added
    -- to the recycled nonces, every transaction and every set of sent nonces is as it was, and only
    -- the broadcast is handed out.
    pub handle_send-refused :
        (resend_count : ℕ) (e : Thrown)
        → env.send_transaction t.inserted.from request ≡ err e
        → (is_nonce_already_used_error e || is_replacement_gas_fee_too_low e) ≡ false
        → let (r, w') = handle_send R env t.queue_id resend_count w in
          (r ≡ err e)
          × (at w'.store (recycled key) ≡ zadd_value lex n (nonce n) (at w₁.store (recycled key)))
          × ((j : String) → at w'.store (details j) ≡ at w.store (details j))
          × ((v : Wallet) → at w'.store (sent_nonces v) ≡ at w.store (sent_nonces v))
          × (w'.effects ≡ w₁.effects ++ broadcast t.inserted.from request ∷ [])
    unfolding handle_send get_transaction attempt key_eq
    handle_send-refused resend_count e refused plain =
        simp
          (
            stored,
            not_retried,
            is_queued,
            is_eoa,
            send_transaction-refused e refused plain,
            at-zadd,
            wallet_eq_refl,
          )
          (refl, refl, unchanged.0, unchanged.1, refl)

    -- A queued transaction of a wallet that is valid, gets a nonce and is taken by the RPC, which
    -- tells a block number: the job succeeds; the transaction is stored with the status sent, the
    -- nonce, the hash as its only one, the resend count 0, the time, the block, the fees it was
    -- prepared with and the address that `resolveDeployedContractAddress` finds for a contract that
    -- it deploys, and is else as it was; the nonce is among the sent ones; every other transaction
    -- is as it was; and what is handed out is the broadcast, the webhook, the mine job, the usage
    -- and the metric, in this order.
    pub handle_send-sent :
        (resend_count : ℕ) (hash : Hex) (block : ℕ)
        → env.send_transaction t.inserted.from request ≡ ok hash
        → env.block_number t.inserted.chain_id ≡ ok block
        → let (r, w') = handle_send R env t.queue_id resend_count w in
          (r ≡ ok tt)
          × (at w'.store (details t.queue_id) ≡ json (as_sent hash block))
          × (at w'.store (sent_nonces key) ≡ sadd_value (nonce n) (at w.store (sent_nonces key)))
          × ((j : String)
              → at w'.store (details j) ≡ (
                  if id_eq j t.queue_id then json (as_sent hash block) else at w.store (details j)))
          × (w'.effects
              ≡ w₁.effects
                ++ broadcast t.inserted.from request
                  ∷ webhook sent_tx t.queue_id
                  ∷ mine_job t.queue_id
                  ∷ usage send_tx t.queue_id
                  ∷ metric (transaction_sent true) t.queue_id
                  ∷ [])
    unfolding handle_send get_transaction attempt finish enqueue_transaction_webhook event_type
        key_eq
    handle_send-sent resend_count hash block taken counted =
        simp
          (
            stored,
            not_retried,
            is_queued,
            is_eoa,
            send_transaction-sent hash block taken counted,
            set_transaction_lem,
            at-put,
            sent_nonces-put,
            id_eq_refl,
            at-set,
            at-sadd,
            wallet_eq_refl,
            append_assoc,
          )
          (refl, refl, ap (sadd_value (nonce n)) (unchanged.1 key), λ j. rw (unchanged.0 j), refl)

    -- A queued transaction of a wallet that is valid, gets a nonce and is taken by the RPC, after
    -- which neither the RPC nor the cache has a block number: the job throws after the broadcast,
    -- and the stored transaction is still queued, although its nonce is among the sent ones.
    pub handle_send-lost :
        (resend_count : ℕ) (hash : Hex) (e : Thrown)
        → env.send_transaction t.inserted.from request ≡ ok hash
        → env.block_number t.inserted.chain_id ≡ err e
        → get_number (at w₁.store (latest_block t.inserted.chain_id)) ≡ none
        → let (r, w') = handle_send R env t.queue_id resend_count w in
          (r ≡ error "Error getting latest block number.")
          × (at w'.store (details t.queue_id) ≡ json t)
          × (at w'.store (sent_nonces key) ≡ sadd_value (nonce n) (at w.store (sent_nonces key)))
          × (w'.effects ≡ w₁.effects ++ broadcast t.inserted.from request ∷ [])
    unfolding handle_send get_transaction attempt key_eq
    handle_send-lost resend_count hash e taken failed none_cached =
        simp
          (
            stored,
            not_retried,
            is_queued,
            is_eoa,
            send_transaction-lost hash e taken failed none_cached,
            at-sadd,
            wallet_eq_refl,
          )
          (refl, unchanged.0 t.queue_id ∙ stored, ap (sadd_value (nonce n)) (unchanged.1 key), refl)
