-- ===== src/Delivery/Schemas.antt =====
-- What a webhook is sent: toEventLogSchema, toTransactionReceiptSchema and toTransactionSchema of
-- src/server/schemas/. Numbers and dates that the source writes as texts stay numbers.
use thirdweb_engine.Base.{
  ℕ, zero, Bool, true, false, String, Option, none, some, List, [], ◌∷◌, str_eq, if◌then◌else◌,
}
use thirdweb_engine.Transaction.{
  Address, Hex, Transaction, Status, sent, mined, Nonce, OnchainStatus, success, reverted,
  MinedDetails, Fees,
}
use thirdweb_engine.Subscriptions.{EventLog, ReceiptRow}

pub record EventLogSchema : Type 0 where
  pub chain_id : ℕ
  pub contract_address : Address
  pub block_number : ℕ
  pub transaction_hash : String
  pub topics : List String
  pub data_text : String
  pub event_name : Option String
  pub decoded_log : Option (List (String × (String × String)))
  pub timestamp : ℕ
  pub transaction_index : ℕ
  pub log_index : ℕ

-- `if (val)`: a text that is there and is not empty.
abbrev pub truthy : Option String → Bool
truthy none = false
truthy (some s) = if str_eq s "" then false else true

abbrev pub push_topic : Option String → List String → List String
push_topic none ts = ts
push_topic (some s) ts = if truthy (some s) then s ∷ ts else ts

unfoldable pub to_event_log_schema : EventLog → EventLogSchema
to_event_log_schema l = record {
  chain_id = l.chain_id;
  contract_address = l.contract_address;
  block_number = l.block_number;
  transaction_hash = l.transaction_hash;
  topics = push_topic l.topic0 (push_topic l.topic1 (push_topic l.topic2 (push_topic l.topic3 [])));
  data_text = l.data_text;
  event_name = l.event_name;
  decoded_log = l.decoded_log;
  timestamp = l.timestamp;
  transaction_index = l.transaction_index;
  log_index = l.log_index;
}

pub record ReceiptSchema : Type 0 where
  pub chain_id : ℕ
  pub block_number : ℕ
  pub contract_address : Address
  pub transaction_hash : String
  pub block_hash : String
  pub timestamp : ℕ
  pub data_text : String
  pub value : ℕ
  pub to : Address
  pub from : Address
  pub transaction_index : ℕ
  pub gas_used : ℕ
  pub effective_gas_price : Option ℕ
  pub status : ℕ

unfoldable pub to_transaction_receipt_schema : ReceiptRow → ReceiptSchema
to_transaction_receipt_schema r = record {
  chain_id = r.chain_id;
  block_number = r.block_number;
  contract_address = r.contract_address;
  transaction_hash = r.transaction_hash;
  block_hash = r.block_hash;
  timestamp = r.timestamp;
  data_text = r.data_text;
  value = r.value;
  to = r.to;
  from = r.from;
  transaction_index = r.transaction_index;
  gas_used = r.gas_used;
  effective_gas_price = r.effective_gas_price;
  status = r.status;
}

-- The properties of `TransactionSchema` but for those that are always null.
pub record TransactionSchema : Type 0 where
  pub queue_id : String
  pub status : Status
  pub chain_id : ℕ
  pub from_address : Address
  pub to_address : Option Address
  pub call_data : Option Hex
  pub value : Option ℕ
  pub nonce : Option Nonce
  pub deployed_contract_address : Option Address
  pub deployed_contract_type : Option String
  pub function_name : Option String
  pub function_args : Option (List String)
  pub extension : Option String
  pub fees : Fees
  pub transaction_type : Option ℕ
  pub transaction_hash : Option Hex
  pub queued_at : ℕ
  pub sent_at : Option ℕ
  pub mined_at : Option ℕ
  pub cancelled_at : Option ℕ
  pub error_message : Option String
  pub sent_at_block_number : Option ℕ
  pub block_number : Option ℕ
  pub retry_count : ℕ
  pub on_chain_tx_status : Option ℕ
  pub onchain_status : Option OnchainStatus
  pub effective_gas_price : Option ℕ
  pub cumulative_gas_used : Option ℕ
  pub signer_address : Address
  pub account_address : Option Address
  pub target : Option Address
  pub sender : Option Address
  pub user_op_hash : Option Hex

-- `hashes.at(-1) ?? null`
abbrev pub last_hash : List Hex → Option Hex
last_hash [] = none
last_hash (h ∷ []) = some h
last_hash (_ ∷ hs) = last_hash hs

abbrev pub type_number : String → ℕ
type_number t =
    if str_eq t "eip2930"
    then 1
    else if str_eq t "eip1559"
    then 2
    else if str_eq t "eip4844"
    then 3
    else 0

-- `x && x.toString()`, or null
abbrev pub nonzero : Option ℕ → Option ℕ
nonzero (some zero) = none
nonzero n = n

-- A property of the details that only a mined transaction has.
abbrev pub of_mined {ℓ} : {A : Type ℓ} → (MinedDetails → Option A) → Option MinedDetails → Option A
of_mined f none = none
of_mined f (some d) = f d

abbrev pub status_number : OnchainStatus → ℕ
status_number success = 1
status_number reverted = 0

-- `resolveTransactionType`
abbrev pub resolve_transaction_type : Status → Option MinedDetails → Option ℕ
resolve_transaction_type mined = of_mined (λ d. some (type_number d.transaction_type))
resolve_transaction_type _ = λ _. none

-- `resolveOnchainTxStatus`
abbrev pub resolve_onchain_tx_status : Status → Option MinedDetails → Option ℕ
resolve_onchain_tx_status mined = of_mined (λ d. some (status_number d.onchain_status))
resolve_onchain_tx_status _ = λ _. none

abbrev pub sent_hash : Bool → Option (List Hex) → Option Hex
sent_hash false (some hs) = last_hash hs
sent_hash _ _ = none

-- `resolveTransactionHash`
abbrev pub resolve_transaction_hash : Status → Transaction → Option Hex
resolve_transaction_hash sent t = sent_hash t.inserted.is_user_op t.sent_transaction_hashes
resolve_transaction_hash mined t = of_mined (λ d. some d.transaction_hash) t.mined_details
resolve_transaction_hash _ t = none

-- No transaction has a property `retryCount`, which the source asks for, so it shows 0.
unfoldable pub to_transaction_schema : Transaction → TransactionSchema
to_transaction_schema t = record {
  queue_id = t.queue_id;
  status = t.status;
  chain_id = t.inserted.chain_id;
  from_address = t.inserted.from;
  to_address = t.inserted.to;
  call_data = t.inserted.call_data;
  value = t.inserted.value;
  nonce = t.nonce;
  deployed_contract_address = t.inserted.deployed_contract_address;
  deployed_contract_type = t.inserted.deployed_contract_type;
  function_name = t.inserted.function_name;
  function_args = t.inserted.function_args;
  extension = t.inserted.extension;
  fees = t.fees;
  transaction_type = resolve_transaction_type t.status t.mined_details;
  transaction_hash = resolve_transaction_hash t.status t;
  queued_at = t.queued_at;
  sent_at = t.sent_at;
  mined_at = of_mined (λ d. some d.mined_at) t.mined_details;
  cancelled_at = t.cancelled_at;
  error_message = t.error_message;
  sent_at_block_number = t.sent_at_block;
  block_number = of_mined (λ d. some d.mined_at_block) t.mined_details;
  retry_count = 0;
  on_chain_tx_status = resolve_onchain_tx_status t.status t.mined_details;
  onchain_status = of_mined (λ d. some d.onchain_status) t.mined_details;
  effective_gas_price = of_mined (λ d. nonzero d.effective_gas_price) t.mined_details;
  cumulative_gas_used = of_mined (λ d. nonzero d.cumulative_gas_used) t.mined_details;
  signer_address = t.inserted.from;
  account_address = t.inserted.account_address;
  target = t.inserted.target;
  sender = t.inserted.sender;
  user_op_hash = t.user_op_hash;
}
