-- ===== src/Cancel/Outcomes.antt =====
-- What the route POST /transaction/cancel does with each stored transaction:
-- src/server/routes/transaction/cancel.ts.
use thirdweb_engine.Base.{
  if◌then◌else◌, ℕ, zero, suc, ◌+◌, ◌≡◌, refl, true, false, String, none, some, List, [], ◌∷◌, ◌++◌,
  append_assoc, append-nil, ◌∙◌, Bool-cases, ◌⊎◌, inl, inr,
}
use thirdweb_engine.Base.Int.{pos, negsuc}
use thirdweb_engine.Transaction.{Transaction, queued, sent, mined, cancelled, errored, number, Hex}
use thirdweb_engine.Redis.{Redis}
use thirdweb_engine.Redis.Values
use thirdweb_engine.Redis.Values.{
  Wallet, key_eq, id_eq, id_eq_refl, details, recycled, sent_nonces, latest_block, json,
}
use thirdweb_engine.Engine.{
  World, Effect, ok, bad_request, Populated, broadcast, remove_send_job, cancelled_tx, cancel_tx,
  webhook, usage,
}
use thirdweb_engine.Env.{Env}
use thirdweb_engine.Block.{get_block_numberish}
use thirdweb_engine.TransactionDb.{get_transaction}
use thirdweb_engine.TransactionDb.Stored.{
  set_transaction_lem, at-put, sent_nonces-put, recycled-put,
}
use thirdweb_engine.Webhook.{enqueue_transaction_webhook, event_type}
use thirdweb_engine.SendWorker.Prepare.{no_fees}
use thirdweb_engine.Cancel.{
  raise_fees, cancel_transaction, cancel_by_status, cancel_queued, cancel_sent, remove_send_jobs,
  send_cancellation_transaction,
}

-- The removals of the send jobs of a transaction with resend counts from `i` on.
abbrev removals : String → ℕ → ℕ → List Effect
removals id zero i = []
removals id (suc rounds) i = remove_send_job id i ∷ removals id rounds (i + 1)

module _ (R : Redis) (env : Env) where
  open R use {Store, at, set, at-set}

  remove_send_jobs_lem :
      (id : String) (rounds i : ℕ) (w : World Store)
      → remove_send_jobs R env id rounds i w
        ≡ (ok tt, record w { effects = w.effects ++ removals id rounds i })
  unfolding remove_send_jobs
  remove_send_jobs_lem id zero i w = rw (append-nil w.effects)
  remove_send_jobs_lem id (suc rounds) i w =
      remove_send_jobs_lem id rounds (i + 1)
        (record w { effects = w.effects ++ remove_send_job id i ∷ [] })
      ∙ rw append_assoc

  cancel_by_status-final :
      (t : Transaction) (w : World Store)
      → (t.status ≡ mined) ⊎ ((t.status ≡ cancelled) ⊎ (t.status ≡ errored))
      → cancel_by_status R env t.status t w ≡ (ok none, w)
  unfolding cancel_by_status
  cancel_by_status-final t w (inl h) = rw h
  cancel_by_status-final t w (inr (inl h)) = rw h
  cancel_by_status-final t w (inr (inr h)) = rw h

  module _ (w : World Store) (t : Transaction)
      (stored : at w.store (details t.queue_id) ≡ json t) where
    -- A userOp, or a transaction that is mined, cancelled or errored, cannot be cancelled: the route
    -- answers with an error, and nothing is stored or handed out.
    pub cancel_transaction-refused :
        (t.inserted.is_user_op ≡ true)
          ⊎ ((t.status ≡ mined) ⊎ ((t.status ≡ cancelled) ⊎ (t.status ≡ errored)))
        → cancel_transaction R env t.queue_id w
          ≡ (bad_request "Transaction cannot be cancelled." "TRANSACTION_CANNOT_BE_CANCELLED", w)
    unfolding cancel_transaction get_transaction
    cancel_transaction-refused (inl h) = simp (stored, h)
    cancel_transaction-refused (inr h) = elim (Bool-cases t.inserted.is_user_op) [
      | inl op ↦ simp (stored, op)
      | inr eoa ↦ simp (stored, eoa, cancel_by_status-final t w h)
    ]

    module _ (is_eoa : t.inserted.is_user_op ≡ false) where
      abbrev withdrawn : ℕ → Transaction
      withdrawn block = record t {
        status = cancelled;
        cancelled_at = some env.now;
        sent_at = some env.now;
        sent_at_block = some block;
        nonce = some (number (negsuc 0));
        sent_transaction_hashes = some [];
      }

      cancel_queued_lem :
          (block : ℕ)
          → env.block_number t.inserted.chain_id ≡ ok block
          → cancel_queued R env t w ≡ (
            ok (some (withdrawn block)),
            record w {
              store = set w.store (latest_block t.inserted.chain_id) (Values.number (pos block));
              effects = w.effects ++ removals t.queue_id env.max_retries_per_tx 0;
            },
          )
      unfolding cancel_queued get_block_numberish
      cancel_queued_lem block counted = rw (cancel_queued, remove_send_jobs_lem, counted)

      -- A queued transaction of a wallet, when a block number is known: it is stored as cancelled
      -- with the nonce -1 and no hash; the send jobs of every resend count that is tried are
      -- removed; no set of nonces and no other transaction changes; and the webhook and the usage
      -- are handed out.
      pub cancel_transaction-queued :
          (block : ℕ)
          → t.status ≡ queued
          → env.block_number t.inserted.chain_id ≡ ok block
          → let (r, w') = cancel_transaction R env t.queue_id w in
            (r ≡ ok (record { queue_id = t.queue_id; transaction_hash = none }))
            × (at w'.store (details t.queue_id) ≡ json (withdrawn block))
            × ((v : Wallet) → at w'.store (sent_nonces v) ≡ at w.store (sent_nonces v))
            × ((v : Wallet) → at w'.store (recycled v) ≡ at w.store (recycled v))
            × ((j : String)
                → at w'.store (details j)
                  ≡ (if id_eq j t.queue_id then json (withdrawn block) else at w.store (details j)))
            × (w'.effects
                ≡ w.effects
                  ++ (removals t.queue_id env.max_retries_per_tx 0
                      ++ webhook cancelled_tx t.queue_id ∷ usage cancel_tx t.queue_id ∷ []))
      unfolding cancel_transaction get_transaction cancel_by_status enqueue_transaction_webhook
          event_type key_eq
      cancel_transaction-queued block is_queued counted =
          simp
            (
              stored,
              is_eoa,
              is_queued,
              cancel_queued_lem block counted,
              set_transaction_lem,
              at-put,
              sent_nonces-put,
              recycled-put,
              id_eq_refl,
              at-set,
              append_assoc,
            )
            (refl, refl, λ v. refl, λ v. refl, λ j. refl, refl)

      module _ (p : Populated)
          (serialized : env.to_serializable_transaction (record {
            from = env.checksum t.inserted.from;
            chain_id = t.inserted.chain_id;
            to = some t.inserted.from;
            value = some 0;
            call_data = some "0x";
            nonce = t.nonce;
            fees = no_fees;
          })
            ≡ ok p)
          (is_wallet : env.get_account t.inserted.chain_id t.inserted.from ≡ ok tt) where
        abbrev replaced : Hex → Transaction
        replaced hash = record t {
          status = cancelled;
          cancelled_at = some env.now;
          sent_transaction_hashes = some (hash ∷ []);
        }

        cancel_sent_lem :
            (hash : Hex)
            → env.send_transaction t.inserted.from (raise_fees p) ≡ ok hash
            → cancel_sent R env t w ≡ (
              ok (some (replaced hash)),
              record w { effects = w.effects ++ broadcast t.inserted.from (raise_fees p) ∷ [] },
            )
        unfolding cancel_sent send_cancellation_transaction
        cancel_sent_lem hash taken = simp (serialized, is_wallet, taken)

        -- A sent transaction of a wallet, if the RPC takes the null transaction with its nonce: the
        -- hash of that is answered and stored, with the status cancelled; the sets of sent nonces
        -- are as they were, so its nonce stays among them; and the broadcast, the webhook and the
        -- usage are handed out.
        pub cancel_transaction-sent :
            (hash : Hex)
            → t.status ≡ sent
            → env.send_transaction t.inserted.from (raise_fees p) ≡ ok hash
            → let (r, w') = cancel_transaction R env t.queue_id w in
              (r ≡ ok (record { queue_id = t.queue_id; transaction_hash = some hash }))
              × (at w'.store (details t.queue_id) ≡ json (replaced hash))
              × ((v : Wallet) → at w'.store (sent_nonces v) ≡ at w.store (sent_nonces v))
              × (w'.effects
                  ≡ w.effects
                    ++ broadcast t.inserted.from (raise_fees p)
                      ∷ webhook cancelled_tx t.queue_id
                      ∷ usage cancel_tx t.queue_id
                      ∷ [])
        unfolding cancel_transaction get_transaction cancel_by_status enqueue_transaction_webhook
            event_type key_eq
        cancel_transaction-sent hash is_sent taken =
            simp
              (
                stored,
                is_eoa,
                is_sent,
                cancel_sent_lem hash taken,
                set_transaction_lem,
                at-put,
                sent_nonces-put,
                id_eq_refl,
                append_assoc,
              )
              (refl, refl, λ v. refl, refl)
