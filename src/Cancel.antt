-- ===== src/Cancel.antt =====
-- Cancelling: the null transaction of src/utils/transaction/cancelTransaction.ts, the route
-- POST /transaction/cancel of src/server/routes/transaction/cancel.ts, and the worker that cancels
-- recycled nonces, src/worker/tasks/cancelRecycledNoncesWorker.ts.
pub mod Outcomes
use thirdweb_engine.Base.{
  ℕ, zero, suc, ◌+◌, ◌*◌, String, Option, none, some, List, [], ◌∷◌, if◌then◌else◌,
}
use thirdweb_engine.Base.Int.{ℤ, negsuc}
use thirdweb_engine.Transaction.{
  Transaction, Status, queued, sent, cancelled, Nonce, number, Address, Hex,
}
use thirdweb_engine.Redis.{Redis}
use thirdweb_engine.Redis.Values.{Wallet, Key, recycled, Member, nonce, queue_id, entries}
use thirdweb_engine.Engine.{
  Task, bad_request, Populated, cancel_tx, remove_send_job, usage, broadcast, pure, lift, gets,
  modify, emit, try_catch, ◌>>=◌, ◌>>◌,
}
use thirdweb_engine.Env.{Env}
use thirdweb_engine.Errors.{is_nonce_already_used_error}
use thirdweb_engine.Block.{get_block_numberish}
use thirdweb_engine.Nonce.{recycle_nonce}
use thirdweb_engine.TransactionDb.{get_transaction, set_transaction}
use thirdweb_engine.Webhook.{enqueue_transaction_webhook}
use thirdweb_engine.SendWorker.Prepare.{no_fees, hashes_of}

abbrev twice : Option ℕ → Option ℕ
twice none = none
twice (some n) = some (n * 2)

-- The three `if`s that raise the gas: the last two both test and double `maxFeePerGas`.
unfoldable pub raise_fees : Populated → Populated
raise_fees p = record p {
  fees = record {
    gas = p.fees.gas;
    gas_price = twice p.fees.gas_price;
    max_fee_per_gas = twice (twice p.fees.max_fee_per_gas);
    max_priority_fee_per_gas = p.fees.max_priority_fee_per_gas;
  };
}

-- The nonces of a sorted set, in ascending order.
abbrev pub member_nonces : List (ℤ × Member) → List ℤ
member_nonces [] = []
member_nonces ((_, nonce n) ∷ l) = n ∷ member_nonces l
member_nonces ((_, queue_id _) ∷ l) = member_nonces l

-- The response of the route.
pub record CancelResponse : Type 0 where
  pub queue_id : String
  pub transaction_hash : Option Hex

-- `hashes.at(-1)`
abbrev last_hash : List Hex → Option Hex
last_hash [] = none
last_hash (h ∷ []) = some h
last_hash (_ ∷ hs) = last_hash hs

module _ (R : Redis) (env : Env) where
  open R use {Store, at, del, keys}
  open env use {now}

  -- `sendCancellationTransaction`: a transaction of the wallet to itself with no value and no data.
  unfoldable pub send_cancellation_transaction : ℕ → Address → Option Nonce → Task Store Hex
  send_cancellation_transaction chain from n = do
    p ← lift (
        env.to_serializable_transaction (record {
          from = env.checksum from;
          chain_id = chain;
          to = some from;
          value = some 0;
          call_data = some "0x";
          nonce = n;
          fees = no_fees;
        }))
    lift (env.get_account chain from)
    emit (broadcast from (raise_fees p))
    lift (env.send_transaction from (raise_fees p))

  -- The loop that removes the send jobs with resend counts from `i` on, `rounds` of them.
  unfoldable pub remove_send_jobs : String → ℕ → ℕ → Task Store (Unit {0})
  remove_send_jobs id zero i = pure tt
  remove_send_jobs id (suc rounds) i =
      emit (remove_send_job id i) >> remove_send_jobs id rounds (i + 1)

  -- A queued transaction is taken out of the queue, and gets the nonce -1.
  unfoldable pub cancel_queued : Transaction → Task Store (Option Transaction)
  cancel_queued t = do
    remove_send_jobs t.queue_id env.max_retries_per_tx 0
    block ← get_block_numberish R env t.inserted.chain_id
    pure (
        some (record t {
          status = cancelled;
          cancelled_at = some now;
          sent_at = some now;
          sent_at_block = some block;
          nonce = some (number (negsuc 0));
          sent_transaction_hashes = some [];
        }))

  -- A sent transaction is replaced by a null transaction with its nonce.
  unfoldable pub cancel_sent : Transaction → Task Store (Option Transaction)
  cancel_sent t = do
    hash ← send_cancellation_transaction t.inserted.chain_id t.inserted.from t.nonce
    pure (
        some (record t {
          status = cancelled;
          cancelled_at = some now;
          sent_transaction_hashes = some (hash ∷ []);
        }))

  unfoldable pub cancel_by_status : Status → Transaction → Task Store (Option Transaction)
  cancel_by_status queued t = cancel_queued t
  cancel_by_status sent t = cancel_sent t
  cancel_by_status _ t = pure none

  -- The handler of the route. The source also sets the queue ID of the request in its response.
  unfoldable pub cancel_transaction : String → Task Store CancelResponse
  cancel_transaction id =
      let finish : Option Transaction → Task Store CancelResponse = λ result. elim result [
        | none ↦
            lift (bad_request "Transaction cannot be cancelled." "TRANSACTION_CANNOT_BE_CANCELLED")
        | some c ↦
            set_transaction R now c
            >> enqueue_transaction_webhook c
            >> emit (usage cancel_tx c.queue_id)
            >> pure (record {
              queue_id = id;
              transaction_hash = last_hash (hashes_of c.sent_transaction_hashes);
            })
      ] in
      get_transaction R id >>= λ stored. elim stored [
        | none ↦ lift (bad_request "Transaction not found." "TRANSACTION_NOT_FOUND")
        | some t ↦
            (if t.inserted.is_user_op then pure none else cancel_by_status t.status t) >>= finish
      ]

  -- `getAndDeleteRecycledNonces`
  unfoldable pub get_and_delete_recycled_nonces : Key → Task Store (List ℤ)
  get_and_delete_recycled_nonces k = do
    nonces ← gets (λ s. member_nonces (entries (at s k)))
    modify (λ s. del s k)
    pure nonces

  -- One nonce: given back if the cancellation failed, unless it is used already.
  unfoldable pub cancel_nonce : Wallet → ℤ → Task Store (Unit {0})
  cancel_nonce w n =
      try_catch (send_cancellation_transaction w.chain_id w.address (some (number n)))
        (λ e. if is_nonce_already_used_error e then pure tt else recycle_nonce R w (some n))
        (λ _. pure tt)

  unfoldable pub cancel_nonces : Wallet → List ℤ → Task Store (Unit {0})
  cancel_nonces w [] = pure tt
  cancel_nonces w (n ∷ ns) = cancel_nonce w n >> cancel_nonces w ns

  -- `fromRecycledNoncesKey`, and one round of the handler's loop.
  unfoldable pub cancel_key : Key → Task Store (Unit {0})
  cancel_key (recycled w) = get_and_delete_recycled_nonces (recycled w) >>= cancel_nonces w
  cancel_key _ = pure tt

  unfoldable pub cancel_keys : List Key → Task Store (Unit {0})
  cancel_keys [] = pure tt
  cancel_keys (k ∷ ks) = cancel_key k >> cancel_keys ks

  -- `handler`
  unfoldable pub handle_cancel_recycled_nonces : Task Store (Unit {0})
  handle_cancel_recycled_nonces = gets (λ s. keys s "nonce-recycled:") >>= cancel_keys
