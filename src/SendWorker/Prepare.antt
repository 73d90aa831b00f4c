-- ===== src/SendWorker/Prepare.antt =====
-- The parts of the send worker that only build values: which transaction a job works on, what is
-- asked of `toSerializableTransaction`, and what the doubled fees are. From
-- src/worker/tasks/sendTransactionWorker.ts.
use thirdweb_engine.Base.{
  ℕ, zero, ◌*◌, String, Bool, true, false, Option, none, some, List, [], ◌&&◌, str_eq, or_else,
  if◌then◌else◌,
}
use thirdweb_engine.Base.Int.{ℤ, pos}
use thirdweb_engine.Transaction.{Transaction, Status, queued, errored, Fees, number, Address, Hex}
use thirdweb_engine.Engine.{Result, ok, err, Populated}
use thirdweb_engine.Env.{Env, SerializeRequest}
use thirdweb_engine.Errors.{truthy, message_or}

-- The result of `getPopulatedOrErroredTransaction`.
pub data Prepared : Type 0 where
  populated : Populated → Prepared
  failed : Transaction → Prepared

abbrev pub with_error : Transaction → String → Transaction
with_error t m = record t { status = errored; error_message = some m }

abbrev pub no_fees : Fees
no_fees = record {
  gas = none;
  gas_price = none;
  max_fee_per_gas = none;
  max_priority_fee_per_gas = none;
}

-- The errored transaction of a manual retry, queued again: what an earlier send left is unset.
unfoldable pub requeue : ℕ → Transaction → Transaction
requeue now t = record t {
  status = queued;
  nonce = none;
  error_message = none;
  fees = no_fees;
  manually_resent_at = some now;
}

abbrev pub double : Option ℕ → Option ℕ
double none = none
double (some n) = some (n * 2)

-- The three fees of a populated transaction, doubled.
unfoldable pub double_fees : Populated → Populated
double_fees p = record p {
  fees = record {
    gas = p.fees.gas;
    gas_price = double p.fees.gas_price;
    max_fee_per_gas = double p.fees.max_fee_per_gas;
    max_priority_fee_per_gas = double p.fees.max_priority_fee_per_gas;
  };
}

abbrev found_is : Option String → String → Bool
found_is none s = false
found_is (some r) s = str_eq r s

abbrev pub hashes_of : Option (List Hex) → List Hex
hashes_of none = []
hashes_of (some l) = l

abbrev pub is_status_queued : Status → Bool
is_status_queued queued = true
is_status_queued _ = false

-- `transaction.status === "errored" && resendCount === 0`
unfoldable pub on_manual_retry : ℕ → ℕ → Status → Transaction → Transaction
unfolding requeue
on_manual_retry now zero errored t = requeue now t
on_manual_retry now _ _ t = t

module _ (env : Env) where
  -- `getPopulatedOrErroredTransaction`. The nonce of an EOA transaction is a stub.
  unfoldable pub serialize_request : Transaction → Address → Address → SerializeRequest
  serialize_request t from to = record {
    from = env.checksum from;
    chain_id = t.inserted.chain_id;
    to = some (env.checksum to);
    value = t.inserted.value;
    call_data = t.inserted.call_data;
    nonce = if t.inserted.is_user_op then none else some (number (pos 1));
    fees = t.fees;
  }

  prepared_from : Transaction → Result Populated → Prepared
  prepared_from t (ok p) = populated p
  prepared_from t (err e) = failed (with_error t (message_or (env.show_thrown e) e))

  unfoldable pub get_populated_or_errored_transaction : Transaction → Prepared
  unfolding serialize_request prepared_from
  get_populated_or_errored_transaction t =
      let from =
        if t.inserted.is_user_op then t.inserted.account_address else some t.inserted.from in
      let to = or_else t.inserted.to t.inserted.target in
      elim (truthy from) [
        | none ↦ failed (with_error t "Invalid transaction parameters: from")
        | some f ↦ elim (truthy to) [
          | none ↦ failed (with_error t "Invalid transaction parameters: to")
          | some a ↦ prepared_from t (env.to_serializable_transaction (serialize_request t f a))
        ]
      ]

  unfoldable pub resolve_deployed_contract_address : Transaction → ℤ → Option Address
  resolve_deployed_contract_address t n = elim (truthy t.inserted.deployed_contract_address) [
    | some a ↦ some a
    | none ↦
        if found_is t.inserted.extension "deploy-published"
          && found_is t.inserted.function_name "deploy"
        then some (env.contract_address t.inserted.from n)
        else none
  ]

  -- The argument of the `toSerializableTransaction` of a resend: the fees are unset, to be found anew.
  unfoldable pub resend_request : Transaction → SerializeRequest
  resend_request t = record {
    from = env.checksum t.inserted.from;
    chain_id = t.inserted.chain_id;
    to = t.inserted.to;
    value = t.inserted.value;
    call_data = t.inserted.call_data;
    nonce = t.nonce;
    fees = record no_fees { gas = t.fees.gas };
  }
