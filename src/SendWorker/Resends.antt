-- ===== src/SendWorker/Resends.antt =====
-- What the send worker does when it sends a transaction again, and after its last attempt:
-- src/worker/tasks/sendTransactionWorker.ts.
use thirdweb_engine.Base.{
  if◌then◌else◌, ℕ, zero, suc, ◌*◌, Option, ◌≡◌, refl, true, false, String, none, some, [], ◌∷◌,
  ◌++◌, append_assoc, ◌||◌, ◌==◌, arith,
}
use thirdweb_engine.Base.Int.{pos}
use thirdweb_engine.Transaction.{Transaction, sent, Hex}
use thirdweb_engine.Redis.{Redis}
use thirdweb_engine.Redis.Values
use thirdweb_engine.Redis.Values.{
  Wallet, Key, key_eq, wallet_eq_refl, id_eq, id_eq_refl, Value, details, recycled, sent_nonces,
  nonce, latest_block, json, get_number, zadd_value, sadd_value,
}
use thirdweb_engine.Engine.{
  World, Thrown, ok, err, Populated, broadcast, sent_tx, error_tx, errored_tx, mine_job, webhook,
  usage,
}
use thirdweb_engine.Env.{Env, SerializeRequest}
use thirdweb_engine.Errors.{
  prettify_error, is_nonce_already_used_error, is_replacement_gas_fee_too_low,
}
use thirdweb_engine.Block.{get_block_numberish}
use thirdweb_engine.TransactionDb.{get_transaction}
use thirdweb_engine.TransactionDb.Stored.{
  set_transaction_lem, at-put, sent_nonces-put, recycled-put,
}
use thirdweb_engine.Webhook.{enqueue_transaction_webhook, event_type}
use thirdweb_engine.SendWorker.{
  on_send_failed, handle_send, attempt, finish, submit, resend_transaction,
}
use thirdweb_engine.SendWorker.Prepare.{
  with_error, on_manual_retry, resend_request, double, double_fees, hashes_of,
}

==_refl : (n : ℕ) → (n == n) ≡ true
==_refl n = ground arith

abbrev pub twice : Option ℕ → Option ℕ
twice none = none
twice (some n) = some (n * 2)

-- A transaction with the price of gas, the greatest fee and the greatest priority fee doubled, where
-- they are given.
abbrev pub doubled : Populated → Populated
doubled p = record p {
  fees = record (p.fees) {
    gas_price = twice p.fees.gas_price;
    max_fee_per_gas = twice p.fees.max_fee_per_gas;
    max_priority_fee_per_gas = twice p.fees.max_priority_fee_per_gas;
  };
}

twice-double : (o : Option ℕ) → double o ≡ twice o
twice-double none = refl
twice-double (some n) = refl

doubled-double_fees : (p : Populated) → double_fees p ≡ doubled p
unfolding double_fees
doubled-double_fees p =
    rw
      (
        twice-double p.fees.gas_price,
        twice-double p.fees.max_fee_per_gas,
        twice-double p.fees.max_priority_fee_per_gas,
      )
      refl

module _ (R : Redis) (env : Env) (w : World (Redis.Store R)) (t : Transaction)
    (stored : Redis.at R w.store (details t.queue_id) ≡ json t) where
  open R use {Store, at, set, at-set}

  -- After the last attempt of a send job the stored transaction is errored, with the error's text,
  -- whatever its status was, so also if it was sent and mined; other transactions are as they were,
  -- and the webhook and the usage are handed out.
  pub on_send_failed-last :
      (attempts : ℕ) (e : Thrown) (message : String)
      → prettify_error R env t e w ≡ (ok message, w)
      → let (r, w') = on_send_failed R env attempts attempts t.queue_id e w in
        (r ≡ ok tt)
        × (at w'.store (details t.queue_id) ≡ json (with_error t message))
        × ((j : String)
            → at w'.store (details j) ≡ (
                if id_eq j t.queue_id then json (with_error t message) else at w.store (details j)))
        × (w'.effects ≡ w.effects ++ webhook errored_tx t.queue_id ∷ usage error_tx t.queue_id ∷ [])
  unfolding on_send_failed get_transaction enqueue_transaction_webhook event_type
  on_send_failed-last attempts e message pretty =
      simp (==_refl, stored, pretty, set_transaction_lem, at-put, id_eq_refl, append_assoc)
        (refl, refl, λ j. refl, refl)

  -- What a resend asks of `toSerializableTransaction`: the transaction with its nonce, and no fees.
  abbrev pub asked_again : SerializeRequest
  asked_again = record {
    from = env.checksum t.inserted.from;
    chain_id = t.inserted.chain_id;
    to = t.inserted.to;
    value = t.inserted.value;
    call_data = t.inserted.call_data;
    nonce = t.nonce;
    fees = record {
      gas = t.fees.gas;
      gas_price = none;
      max_fee_per_gas = none;
      max_priority_fee_per_gas = none;
    };
  }

  module _ (is_sent : t.status ≡ sent) (is_eoa : t.inserted.is_user_op ≡ false) (p : Populated)
      (serialized : env.to_serializable_transaction asked_again ≡ ok p)
      (is_wallet : env.get_account t.inserted.chain_id t.inserted.from ≡ ok tt) where
    abbrev pub submitted : World Store
    submitted = record w { effects = w.effects ++ broadcast t.inserted.from (doubled p) ∷ [] }

    submit_lem :
        submit R env t (doubled p) w ≡ (env.send_transaction t.inserted.from (doubled p), submitted)
    unfolding submit
    submit_lem = simp is_wallet

    abbrev resent : ℕ → Hex → ℕ → Transaction
    resent resend_count hash block = record t {
      resend_count = resend_count;
      sent_at = some env.now;
      sent_at_block = some block;
      sent_transaction_hashes = some (hashes_of t.sent_transaction_hashes ++ hash ∷ []);
      fees = (doubled p).fees;
    }

    resend_transaction-sent :
        (resend_count : ℕ) (hash : Hex) (block : ℕ)
        → env.send_transaction t.inserted.from (doubled p) ≡ ok hash
        → env.block_number t.inserted.chain_id ≡ ok block
        → resend_transaction R env t resend_count w ≡ (
          ok (some (resent resend_count hash block)),
          record submitted {
            store = set w.store (latest_block t.inserted.chain_id) (Values.number (pos block));
          },
        )
    unfolding resend_transaction get_block_numberish resend_request submit
    resend_transaction-sent resend_count hash block taken counted =
        rw (resend_transaction, is_eoa, serialized, doubled-double_fees, submit_lem, taken, counted)

    resend_transaction-unneeded :
        (resend_count : ℕ) (e : Thrown)
        → env.send_transaction t.inserted.from (doubled p) ≡ err e
        → (is_nonce_already_used_error e || is_replacement_gas_fee_too_low e) ≡ true
        → resend_transaction R env t resend_count w ≡ (ok none, submitted)
    unfolding resend_transaction resend_request submit
    resend_transaction-unneeded resend_count e refused used =
        rw (resend_transaction, is_eoa, serialized, doubled-double_fees, submit_lem, refused, used)

    not_retried : (now resend_count : ℕ) → on_manual_retry now resend_count sent t ≡ t
    unfolding on_manual_retry
    not_retried now zero = refl
    not_retried now (suc n) = refl

    -- A sent transaction of a wallet, which is prepared anew with its nonce and without its fees and
    -- is taken by the RPC again: its nonce and its earlier hashes stay, the new hash comes after
    -- them, and the resend count is the job's; the sets of nonces and the other transactions are as
    -- they were; and what is handed out is the broadcast, with the price of gas, the greatest fee
    -- and the greatest priority fee doubled where they are given, a webhook and a mine job, but no
    -- usage.
    pub handle_send-resent :
        (resend_count : ℕ) (hash : Hex) (block : ℕ)
        → env.send_transaction t.inserted.from (doubled p) ≡ ok hash
        → env.block_number t.inserted.chain_id ≡ ok block
        → let (r, w') = handle_send R env t.queue_id resend_count w in
          (r ≡ ok tt)
          × (at w'.store (details t.queue_id) ≡ json (resent resend_count hash block))
          × ((v : Wallet) → at w'.store (sent_nonces v) ≡ at w.store (sent_nonces v))
          × ((v : Wallet) → at w'.store (recycled v) ≡ at w.store (recycled v))
          × ((j : String)
              → at w'.store (details j) ≡ (
                  if id_eq j t.queue_id
                  then json (resent resend_count hash block)
                  else at w.store (details j)))
          × (w'.effects
              ≡ w.effects
                ++ broadcast t.inserted.from (doubled p)
                  ∷ webhook sent_tx t.queue_id
                  ∷ mine_job t.queue_id
                  ∷ [])
    unfolding handle_send get_transaction attempt finish enqueue_transaction_webhook event_type
        key_eq
    handle_send-resent resend_count hash block taken counted =
        simp
          (
            stored,
            not_retried,
            is_sent,
            resend_transaction-sent resend_count hash block taken counted,
            set_transaction_lem,
            at-put,
            sent_nonces-put,
            recycled-put,
            id_eq_refl,
            at-set,
            append_assoc,
          )
          (refl, refl, λ v. refl, λ v. refl, λ j. refl, refl)

    -- A sent transaction of a wallet of which the RPC says that its nonce is used or its fee is too
    -- low to replace it: the resend is not needed, so the job succeeds, the store is as it was, and
    -- only the broadcast is handed out.
    pub handle_send-unneeded :
        (resend_count : ℕ) (e : Thrown)
        → env.send_transaction t.inserted.from (doubled p) ≡ err e
        → (is_nonce_already_used_error e || is_replacement_gas_fee_too_low e) ≡ true
        → handle_send R env t.queue_id resend_count w ≡ (ok tt, submitted)
    unfolding handle_send get_transaction attempt
    handle_send-unneeded resend_count e refused used =
        simp (stored, not_retried, is_sent, resend_transaction-unneeded resend_count e refused used)
