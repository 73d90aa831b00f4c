-- ===== src/Transaction.antt =====
-- The transaction objects: src/utils/transaction/types.ts. The source has one object type for each
-- status and builds an object of the next status by spreading the old one, `{...tx, status: …}`, so
-- that every property that is not overwritten is carried along. Here all of them are one record,
-- whose optional fields may be absent, and `IsWellFormed` says what each status's type demands.
pub mod WellFormed
use thirdweb_engine.Base.{ℕ, String, Bool, Option, List}
use thirdweb_engine.Base.Int.{ℤ}

abbrev pub Address : Type 0
Address = String

-- A transaction hash, a userOp hash or call data.
abbrev pub Hex : Type 0
Hex = String

-- `status`
pub data Status : Type 0 where
  queued sent mined cancelled errored : Status

-- The gas properties, which a send replaces.
pub record Fees : Type 0 where
  pub gas : Option ℕ
  pub gas_price : Option ℕ
  pub max_fee_per_gas : Option ℕ
  pub max_priority_fee_per_gas : Option ℕ

-- `InsertedTransaction`, the raw input from the caller, but for its gas properties.
pub record InsertedTransaction : Type 0 where
  pub is_user_op : Bool
  pub chain_id : ℕ
  pub from : Address
  pub to : Option Address
  pub value : Option ℕ
  pub call_data : Option Hex
  pub function_name : Option String
  pub function_args : Option (List String)
  pub deployed_contract_address : Option Address
  pub deployed_contract_type : Option String
  pub extension : Option String
  pub signer_address : Option Address
  pub account_address : Option Address
  pub account_factory_address : Option Address
  pub target : Option Address
  pub sender : Option Address

-- A number for an EOA transaction, the text of a big number for a userOp.
pub data Nonce : Type 0 where
  number : ℤ → Nonce
  text : String → Nonce

pub data OnchainStatus : Type 0 where
  success reverted : OnchainStatus

-- What only a `MinedTransaction` has, but for its error message.
pub record MinedDetails : Type 0 where
  pub transaction_hash : Hex
  pub mined_at : ℕ
  pub mined_at_block : ℕ
  pub transaction_type : String
  pub onchain_status : OnchainStatus
  pub gas_used : ℕ
  pub effective_gas_price : Option ℕ
  pub cumulative_gas_used : Option ℕ

-- `AnyTransaction`. Dates are milliseconds since the epoch.
pub record Transaction : Type 0 where
  pub queue_id : String
  pub status : Status
  pub inserted : InsertedTransaction
  pub fees : Fees
  pub queued_at : ℕ
  pub resend_count : ℕ
  pub manually_resent_at : Option ℕ
  pub sent_at : Option ℕ
  pub sent_at_block : Option ℕ
  pub nonce : Option Nonce
  pub sent_transaction_hashes : Option (List Hex)
  pub user_op_hash : Option Hex
  pub mined_details : Option MinedDetails
  pub error_message : Option String
  pub cancelled_at : Option ℕ
