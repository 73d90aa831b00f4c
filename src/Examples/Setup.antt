-- ===== src/Examples/Setup.antt =====
-- One wallet, its chain, and the stores that the examples begin with.
use thirdweb_engine.Base.{false, Option, none, some, List, [], ◌∷◌, str_eq, if◌then◌else◌}
use thirdweb_engine.Base.Int.{pos}
use thirdweb_engine.Transaction.{
  Address, Status, queued, sent, mined, errored, InsertedTransaction, Nonce, number, Hex,
  Transaction, success,
}
use thirdweb_engine.Redis.Values
use thirdweb_engine.Redis.Values.{
  Wallet, Key, details, last_used, recycled, sent_nonces, Value, json, sorted, nonce, members,
  Member, member_eq,
}
use thirdweb_engine.Redis.Memory.{Store}
use thirdweb_engine.Engine.{World, ok, err, error, Thrown, Populated}
use thirdweb_engine.Env.{Env, Receipt, SerializeRequest}
use thirdweb_engine.SendWorker.Prepare.{no_fees}

abbrev pub sender : Address
sender = "0xa1"

abbrev pub wallet : Wallet
wallet = record { chain_id = 1; address = sender }

abbrev pub receipt : Receipt
receipt = record {
  transaction_hash = "0xmined";
  block_number = 90;
  type_name = "eip1559";
  status = success;
  gas_used = 21000;
  effective_gas_price = some 7;
  cumulative_gas_used = none;
}

abbrev pub failure : Thrown
failure = record { message = some "insufficient funds"; code = none; status_code = none }

abbrev pub used : Thrown
used = record { message = some "nonce too low"; code = none; status_code = none }

abbrev serialize : SerializeRequest → Populated
serialize r = record {
  chain_id = r.chain_id;
  nonce = r.nonce;
  to = r.to;
  value = r.value;
  call_data = r.call_data;
  fees = record (r.fees) { max_fee_per_gas = some 100; max_priority_fee_per_gas = some 2 };
}

-- A chain that takes every transaction, counts five of the wallet, and has one of them in a block.
abbrev pub env : Env
env = record {
  now = 1000;
  random_uuid = "uuid";
  checksum = λ a. a;
  to_serializable_transaction = λ r. ok (serialize r);
  get_account = λ _ _. ok tt;
  send_transaction = λ _ _. ok "0xnew";
  transaction_count = λ _ _. ok 5;
  block_number = λ _. ok 100;
  transaction_receipt = λ _ hash. if str_eq hash "0xmined" then ok receipt else error "not found";
  transaction_by_hash = λ _ hash. ok hash;
  sign_user_operation = λ _ _. error "no bundler";
  bundle_user_op = λ _. error "no bundler";
  user_op_receipt_raw = λ _ _. ok none;
  user_op_receipt = λ _ _. ok tt;
  contract_address = λ _ _. "0xc0";
  simulate_transaction = λ _. ok none;
  chain_metadata = λ _. ok (some "ETH", "Ethereum");
  show_thrown = λ _. "error";
  min_ellapsed_blocks_before_retry = 12;
  max_retries_per_tx = 2;
}

-- The same chain when it refuses transactions, when it says that their nonces are used, and when it
-- tells no block number.
abbrev pub refusing : Env
refusing = record env { send_transaction = λ _ _. err failure }

abbrev pub ahead : Env
ahead = record env { send_transaction = λ _ _. err used }

abbrev pub blockless : Env
blockless = record env { block_number = λ _. err failure }

abbrev pub new_chain : Env
new_chain = record env { transaction_count = λ _ _. ok 0 }

abbrev pub input : InsertedTransaction
input = record {
  is_user_op = false;
  chain_id = 1;
  from = sender;
  to = some "0xb2";
  value = none;
  call_data = some "0x";
  function_name = none;
  function_args = none;
  deployed_contract_address = none;
  deployed_contract_type = none;
  extension = none;
  signer_address = none;
  account_address = none;
  account_factory_address = none;
  target = none;
  sender = none;
}

abbrev pub transaction : Status → Option Nonce → Option (List Hex) → Transaction
transaction s n hashes = record {
  queue_id = "q";
  status = s;
  inserted = record input { value = some 0 };
  fees = no_fees;
  queued_at = 500;
  resend_count = 0;
  manually_resent_at = none;
  sent_at = some 600;
  sent_at_block = some 80;
  nonce = n;
  sent_transaction_hashes = hashes;
  user_op_hash = none;
  mined_details = none;
  error_message = none;
  cancelled_at = none;
}

abbrev pub queued_one : Transaction
queued_one = transaction queued none none

abbrev pub sent_one : Transaction
sent_one = transaction sent (some (number (pos 5))) (some ("0xold" ∷ []))

abbrev pub mined_one : Transaction
mined_one = transaction mined (some (number (pos 5))) (some ("0xmined" ∷ []))

abbrev pub errored_one : Transaction
errored_one = transaction errored (some (number (pos 5))) (some ("0xold" ∷ []))

abbrev pub wrongly_errored_one : Transaction
wrongly_errored_one = transaction errored (some (number (pos 5))) (some ("0xmined" ∷ []))

abbrev world : Store → World Store
world s = record { store = s; effects = [] }

-- Only the counter, at 4.
abbrev pub counted : World Store
counted = world ((last_used wallet, Values.number (pos 4)) ∷ [])

-- A counter, and the nonce 3 to use again.
abbrev pub recycling : World Store
recycling = world (
    (recycled wallet, sorted ((pos 3, nonce (pos 3)) ∷ []))
    ∷ (last_used wallet, Values.number (pos 4))
    ∷ [])

abbrev pub blank : World Store
blank = world []

-- A transaction, the counter, and the nonce 5 among the sent ones.
abbrev pub holding : Transaction → World Store
holding t = world (
    (details "q", json t)
    ∷ (last_used wallet, Values.number (pos 4))
    ∷ (sent_nonces wallet, members (λ m. member_eq m (nonce (pos 5))))
    ∷ [])
