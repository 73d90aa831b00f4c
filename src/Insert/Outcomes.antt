-- ===== src/Insert/Outcomes.antt =====
-- What `insertTransaction` stores: src/utils/transaction/insertTransaction.ts.
use thirdweb_engine.Base.{
  ℕ, ◌≡◌, refl, Bool, true, false, String, Option, none, some, [], ◌∷◌, ◌++◌, append_assoc, is_some,
  str_eq, Bool-cases, inl, inr, if◌then◌else◌,
}
use thirdweb_engine.Transaction.{Transaction, queued, InsertedTransaction, Fees, Address}
use thirdweb_engine.Transaction.WellFormed.{IsWellFormed}
use thirdweb_engine.Redis.{Redis}
use thirdweb_engine.Redis.Values.{details, json, exists, id_eq, id_eq_refl}
use thirdweb_engine.Engine.{World, ok, send_job, queue_tx, transaction_queued, usage, metric}
use thirdweb_engine.Env.{Env}
use thirdweb_engine.Errors.{truthy}
use thirdweb_engine.TransactionDb.{exists_transaction}
use thirdweb_engine.TransactionDb.Stored.{put, set_transaction_lem, at-put}
use thirdweb_engine.Insert.{
  checksum_of, or_zero_value, insert_transaction, insert_new, simulate, queued_transaction,
}

is_some-or_zero_value : (v : Option ℕ) → is_some (or_zero_value v) ≡ true
is_some-or_zero_value none = refl
is_some-or_zero_value (some n) = refl

-- An address that is given and not empty, with a checksum.
abbrev pub checksummed : Env → Option Address → Option Address
checksummed env none = none
checksummed env (some a) = if str_eq a "" then none else some (env.checksum a)

abbrev pub given_value : Option ℕ → ℕ
given_value none = 0
given_value (some n) = n

checksummed-checksum_of : (env : Env) (a : Option Address) → checksum_of env a ≡ checksummed env a
checksummed-checksum_of env none = refl
checksummed-checksum_of env (some a) = elim (Bool-cases (str_eq a "")) [
  | inl y ↦ rw (checksum_of, y)
  | inr n ↦ rw (checksum_of, n)
]

given_value-or_zero_value : (v : Option ℕ) → or_zero_value v ≡ some (given_value v)
given_value-or_zero_value none = refl
given_value-or_zero_value (some n) = refl

-- The transaction that is queued has what its status demands, whatever the caller gives.
pub queued_transaction-IsWellFormed :
    (env : Env) (id : String) (i : InsertedTransaction) (fees : Fees)
    → IsWellFormed (queued_transaction env id i fees)
unfolding queued_transaction
queued_transaction-IsWellFormed env id i fees = is_some-or_zero_value i.value

module _ (R : Redis) (env : Env) (w : World (Redis.Store R)) (i : InsertedTransaction) (fees : Fees)
    (key : String) (k : Option String) (given : truthy k ≡ some key) where
  open R use {Store, at}

  -- With an idempotency key under which a transaction is stored, the key is answered and nothing is
  -- stored, simulated or handed out.
  pub insert_transaction-known :
      (should_simulate : Bool)
      → exists (at w.store (details key)) ≡ true
      → insert_transaction R env i fees k should_simulate w ≡ (ok key, w)
  unfolding insert_transaction exists_transaction
  insert_transaction-known should_simulate known = rw (insert_transaction, given, known)

  -- The transaction as it is stored: what the caller gives, with checksummed addresses and the value 0
  -- where none is given, queued now under the key, and with nothing yet of a send or an end.
  abbrev as_queued : Transaction
  as_queued = record {
    queue_id = key;
    status = queued;
    inserted = record i {
      from = env.checksum i.from;
      to = checksummed env i.to;
      signer_address = checksummed env i.signer_address;
      account_address = checksummed env i.account_address;
      target = checksummed env i.target;
      sender = checksummed env i.sender;
      value = some (given_value i.value);
    };
    fees = fees;
    queued_at = env.now;
    resend_count = 0;
    manually_resent_at = none;
    sent_at = none;
    sent_at_block = none;
    nonce = none;
    sent_transaction_hashes = none;
    user_op_hash = none;
    mined_details = none;
    error_message = none;
    cancelled_at = none;
  }

  queued_lem : queued_transaction env key i fees ≡ as_queued
  unfolding queued_transaction
  queued_lem =
      rw
        (
          checksummed-checksum_of env i.to,
          checksummed-checksum_of env i.signer_address,
          checksummed-checksum_of env i.account_address,
          checksummed-checksum_of env i.target,
          checksummed-checksum_of env i.sender,
          given_value-or_zero_value i.value,
        )
        refl

  insert_new_lem : insert_new R env key i fees false w ≡ (
    ok key,
    record w {
      store = put R env.now as_queued w.store;
      effects =
          w.effects ++ send_job key 0 ∷ usage queue_tx key ∷ metric transaction_queued key ∷ [];
    },
  )
  unfolding insert_new simulate
  insert_new_lem = simp (queued_lem, set_transaction_lem, append_assoc)

  -- With an idempotency key that is new, and no simulation, a transaction is stored under it that is
  -- queued now, with the values of the caller, checksums for the addresses that are given and not
  -- empty, the value 0 where none is given, and nothing yet of a send or an end; other transactions
  -- are as they were, and a send job with resend count 0, the usage and the metric are handed out.
  pub insert_transaction-new :
      exists (at w.store (details key)) ≡ false
      → let (r, w') = insert_transaction R env i fees k false w in
        (r ≡ ok key)
        × (at w'.store (details key) ≡ json as_queued)
        × ((j : String)
            → at w'.store (details j)
              ≡ (if id_eq j key then json as_queued else at w.store (details j)))
        × (w'.effects
            ≡ w.effects ++ send_job key 0 ∷ usage queue_tx key ∷ metric transaction_queued key ∷ [])
  unfolding insert_transaction exists_transaction
  insert_transaction-new new =
      simp (insert_transaction, given, new, insert_new_lem, at-put, id_eq_refl)
        (refl, refl, λ j. refl, refl)
