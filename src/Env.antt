-- ===== src/Env.antt =====
-- What one run of a handler meets outside the repository, as one record of answers: the clock, the
-- chain's RPC, the thirdweb SDK's transaction and userOp functions, and the configuration. `getChain`
-- and `getRpcClient` only choose the endpoint that is asked. Within one run the same question has the
-- same answer.
use thirdweb_engine.Base.{ℕ, Bool, String, Option}
use thirdweb_engine.Base.Int.{ℤ}
use thirdweb_engine.Transaction.{Address, Hex, Fees, Nonce, OnchainStatus, Transaction}
use thirdweb_engine.Engine.{Result, Thrown, Populated}

-- The argument of `toSerializableTransaction`: the properties of a transaction that it reads.
pub record SerializeRequest : Type 0 where
  pub from : Address
  pub chain_id : ℕ
  pub to : Option Address
  pub value : Option ℕ
  pub call_data : Option Hex
  pub nonce : Option Nonce
  pub fees : Fees

-- The result of `eth_getTransactionReceipt`.
pub record Receipt : Type 0 where
  pub transaction_hash : Hex
  pub block_number : ℕ
  pub type_name : String
  pub status : OnchainStatus
  pub gas_used : ℕ
  pub effective_gas_price : Option ℕ
  pub cumulative_gas_used : Option ℕ

-- What the program reads of a signed `UserOperation`.
pub record UserOperation : Type 0 where
  pub nonce : String
  pub max_fee_per_gas : ℕ
  pub max_priority_fee_per_gas : ℕ

-- The result of `getUserOpReceiptRaw`.
pub record UserOpReceipt : Type 0 where
  pub transaction_hash : Hex
  pub success : Bool
  pub sender : Address
  pub nonce : String

pub record Env : Type 0 where
  -- `new Date()`, in milliseconds
  pub now : ℕ
  -- `randomUUID()`
  pub random_uuid : String
  -- `checksumAddress`
  pub checksum : String → Address
  pub to_serializable_transaction : SerializeRequest → Result Populated
  -- `getAccount`: it throws if the wallet is not configured
  pub get_account : ℕ → Address → Result (Unit {0})
  pub send_transaction : Address → Populated → Result Hex
  -- the latest transaction count, which is the next unused nonce
  pub transaction_count : ℕ → Address → Result ℕ
  pub block_number : ℕ → Result ℕ
  pub transaction_receipt : ℕ → Hex → Result Receipt
  -- the hash of `eth_getTransactionByHash`
  pub transaction_by_hash : ℕ → Hex → Result Hex
  pub sign_user_operation : Transaction → Populated → Result UserOperation
  pub bundle_user_op : UserOperation → Result Hex
  pub user_op_receipt_raw : ℕ → Hex → Result (Option UserOpReceipt)
  pub user_op_receipt : ℕ → Hex → Result (Unit {0})
  pub contract_address : Address → ℤ → Address
  -- `doSimulateTransaction`: the error, if there is one
  pub simulate_transaction : Transaction → Result (Option String)
  -- the native currency's symbol and the name that `getChainMetadata` gives
  pub chain_metadata : ℕ → Result (Option String × String)
  -- `${e}`
  pub show_thrown : Thrown → String
  -- `config.minEllapsedBlocksBeforeRetry`
  pub min_ellapsed_blocks_before_retry : ℕ
  -- `config.maxRetriesPerTx`
  pub max_retries_per_tx : ℕ
