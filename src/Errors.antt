-- ===== src/Errors.antt =====
-- How the workers read a thrown error: src/utils/error.ts and `isEthersErrorCode` of
-- src/utils/ethers.ts.
use thirdweb_engine.Base.{Bool, false, String, Option, none, some, ◌||◌, str_eq, if◌then◌else◌}
use thirdweb_engine.Base.Text.{to_lower, includes, ◌+++◌}
use thirdweb_engine.Transaction.{Transaction}
use thirdweb_engine.Redis.{Redis}
use thirdweb_engine.Engine.{Thrown, Task, pure, lift, ◌>>=◌}
use thirdweb_engine.Env.{Env}

-- A text that an `if` takes as true, that is one that is there and is not empty.
abbrev pub truthy : Option String → Option String
truthy none = none
truthy (some s) = if str_eq s "" then none else some s

-- The codes asked for are all in `ETHERS_ERROR_CODES`, so an error with an equal code passes
-- `parseEthersError`.
unfoldable pub is_ethers_error_code : Thrown → String → Bool
is_ethers_error_code e c = elim e.code [ none ↦ false | some d ↦ str_eq d c ]

-- `_parseMessage`
unfoldable pub parse_message : Thrown → Option String
parse_message e = elim e.message [ none ↦ none | some m ↦ some (to_lower m) ]

unfoldable pub is_nonce_already_used_error : Thrown → Bool
is_nonce_already_used_error e = elim (truthy (parse_message e)) [
  | some m ↦ includes m "nonce too low"
  | none ↦ is_ethers_error_code e "NONCE_EXPIRED"
]

unfoldable pub is_replacement_gas_fee_too_low : Thrown → Bool
is_replacement_gas_fee_too_low e = elim (truthy (parse_message e)) [
  | some m ↦
      includes m "replacement fee too low" || includes m "replacement transaction underpriced"
  | none ↦ is_ethers_error_code e "REPLACEMENT_UNDERPRICED"
]

unfoldable pub is_insufficient_funds_error : Thrown → Bool
is_insufficient_funds_error e = elim (truthy (parse_message e)) [
  | some m ↦
      includes m "insufficient funds for gas * price + value"
      || includes m "insufficient funds for intrinsic transaction cost"
  | none ↦ is_ethers_error_code e "INSUFFICIENT_FUNDS"
]

-- `error.message`
abbrev pub message_or : String → Thrown → String
message_or other e = elim e.message [ some m ↦ m | none ↦ other ]

unfoldable pub insufficient_text : Transaction → Option String × String → String
insufficient_text t (symbol, name) =
    "Insufficient "
    +++ elim symbol [ some s ↦ s | none ↦ "undefined" ]
    +++ " on "
    +++ name
    +++ " in "
    +++ t.inserted.from
    +++ "."

module _ (R : Redis) (env : Env) where
  open R use {Store}

  unfoldable pub prettify_error : Transaction → Thrown → Task Store String
  prettify_error t e =
      let plain = message_or "undefined" e in
      let insufficient : Task Store String =
        lift (env.chain_metadata t.inserted.chain_id) >>= λ metadata.
        pure (insufficient_text t metadata) in
      let simulated : Task Store String = lift (env.simulate_transaction t) >>= λ simulate_error.
      pure (elim (truthy simulate_error) [ some s ↦ s | none ↦ plain ]) in
      if t.inserted.is_user_op
      then pure plain
      else if is_insufficient_funds_error e
      then insufficient
      else if is_ethers_error_code e "UNPREDICTABLE_GAS_LIMIT"
      then simulated
      else pure plain
