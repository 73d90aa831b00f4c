-- ===== src/Processing/Logs.antt =====
-- The worker that stores the event logs of a range of blocks: src/worker/tasks/processEventLogsWorker.ts.
-- Its warning on logs that an earlier job missed is left out.
use Prim.Native.String
use thirdweb_engine.Base.{
  ℕ, ◌*◌, Bool, true, false, String, Option, none, some, List, [], ◌∷◌, ◌++◌, str_eq, is_empty, any,
  filter, map, if◌then◌else◌,
}
use thirdweb_engine.Base.Text.{to_lower}
use thirdweb_engine.Transaction.{Address, Hex}
use thirdweb_engine.Engine.{
  Task, Result, ok, err, error, then_ok, Filter, RangeJob, pure, lift, ◌>>=◌,
}
use thirdweb_engine.Subscriptions.{WebhookRow, ContractSubscription, EventLog}
use thirdweb_engine.Delivery.{JobQueue, Delivery, contract}
use thirdweb_engine.Processing.{get_webhooks_by_contract_addresses, enqueue_rows}

-- An argument of a log. The items of an array and the values of an object are read alike.
mutual
  pub data LogArg : Type 0 where
    null_arg : LogArg
    scalar : String → LogArg
    composite : LogArgs → LogArg

  pub data LogArgs : Type 0 where
    last : LogArgs
    item : LogArg → LogArgs → LogArgs

-- `join(",")` of texts, the first of which is given.
abbrev pub join_from : String → List String → String
join_from s [] = s
join_from s (t ∷ ts) = String.◌++◌ s (String.◌++◌ "," (join_from t ts))

abbrev pub join : List String → String
join [] = ""
join (s ∷ ss) = join_from s ss

-- `logArgToString`
mutual
  pub log_arg_to_string : LogArg → String
  log_arg_to_string null_arg = ""
  log_arg_to_string (scalar s) = s
  log_arg_to_string (composite xs) = join (log_args_to_strings xs)

  pub log_args_to_strings : LogArgs → List String
  log_args_to_strings last = []
  log_args_to_strings (item x xs) = log_arg_to_string x ∷ log_args_to_strings xs

pub record AbiInput : Type 0 where
  pub name : String
  pub type_name : String

pub record AbiEvent : Type 0 where
  pub name : String
  pub inputs : List AbiInput

-- A log as `getContractEvents` gives it.
pub record RawLog : Type 0 where
  pub block_number : ℕ
  pub block_hash : Hex
  pub address : Address
  pub transaction_hash : Hex
  pub topic0 : Option String
  pub topic1 : Option String
  pub topic2 : Option String
  pub topic3 : Option String
  pub data_text : String
  pub event_name : String
  pub args : List (String × LogArg)
  pub transaction_index : ℕ
  pub log_index : ℕ

pub record LogsEnv : Type 0 where
  -- `new Date()`
  pub now : ℕ
  -- `resolveContractAbi`
  pub resolve_abi : Address → Result (List AbiEvent)
  -- `getContractEvents` of a contract, from a block to a block, for some events or all
  pub get_contract_events : Address → ℕ → ℕ → List AbiEvent → Result (List RawLog)
  -- the timestamp of `eth_getBlockByHash`, in seconds
  pub block_timestamp : Hex → Result ℕ
  -- `createManyAndReturn` with `skipDuplicates`
  pub insert_logs : List EventLog → Result (List EventLog)

-- `array.includes(text)`
abbrev pub includes_text : List String → String → Bool
includes_text ts s = any (str_eq s) ts

-- `Promise.all(xs.map(f))`
unfoldable pub all_ok {ℓ κ} : {A : Type ℓ} {B : Type κ} → (A → Result B) → List A → Result (List B)
all_ok f [] = ok []
all_ok f (x ∷ xs) = then_ok (f x) (λ y. then_ok (all_ok f xs) (λ ys. ok (y ∷ ys)))

abbrev pub flat {ℓ} : {A : Type ℓ} → List (List A) → List A
flat [] = []
flat (l ∷ ls) = l ++ flat ls

-- The first log argument of a name.
abbrev pub arg_of : String → List (String × LogArg) → Option LogArg
arg_of n [] = none
arg_of n ((m, x) ∷ args) = if str_eq n m then some x else arg_of n args

abbrev pub decoded_input : AbiInput → Option LogArg → List (String × (String × String))
unfolding log_arg_to_string
decoded_input i none = []
decoded_input i (some x) =
    if str_eq i.name "" then [] else (i.name, (i.type_name, log_arg_to_string x)) ∷ []

abbrev pub decoded_inputs :
    List AbiInput → List (String × LogArg) → List (String × (String × String))
decoded_inputs [] args = []
decoded_inputs (i ∷ is) args = decoded_input i (arg_of i.name args) ++ decoded_inputs is args

abbrev pub event_named : String → List AbiEvent → Option AbiEvent
event_named n [] = none
event_named n (e ∷ es) = if str_eq e.name n then some e else event_named n es

abbrev pub decoded_event :
    List (String × LogArg) → Option AbiEvent → Option (List (String × (String × String)))
decoded_event args none = none
decoded_event args (some e) = some (decoded_inputs e.inputs args)

module _ (env : LogsEnv) where
  -- The events to ask for. None asks for all.
  unfoldable pub prepared_events : Filter → Result (List AbiEvent)
  prepared_events f =
      if is_empty f.names
      then ok []
      else then_ok (env.resolve_abi f.address)
          (λ abi. ok (filter (λ e. includes_text f.names e.name) abi))

  unfoldable pub filter_logs : ℕ → ℕ → Filter → Result (List RawLog)
  filter_logs from to f = then_ok (prepared_events f) (env.get_contract_events f.address from to)

  abbrev pub timestamp_of : Result ℕ → ℕ
  timestamp_of (ok seconds) = seconds * 1000
  timestamp_of (err _) = env.now

  -- `Array.from(new Set(blockHashes))`
  abbrev pub dedupe : List Hex → List Hex
  dedupe [] = []
  dedupe (h ∷ hs) = h ∷ filter (λ k. if str_eq k h then false else true) (dedupe hs)

  -- `getBlockTimestamps`
  unfoldable pub get_block_timestamps : List Hex → List (Hex × ℕ)
  get_block_timestamps hs = map (λ h. (h, timestamp_of (env.block_timestamp h))) (dedupe hs)

  -- `formatDecodedLog`
  unfoldable pub format_decoded_log :
      Address
      → String
      → List (String × LogArg)
      → Result (Option (List (String × (String × String))))
  format_decoded_log a event_name args =
      then_ok (env.resolve_abi a) (λ abi. ok (decoded_event args (event_named event_name abi)))

  -- `addressConfig[address].contract`, of which the program keeps the address
  abbrev pub contract_at : Address → List Filter → Result Address
  contract_at a [] = error "Cannot read properties of undefined (reading 'contract')"
  contract_at a (f ∷ fs) = if str_eq a f.address then ok f.address else contract_at a fs

  abbrev pub time_at : Hex → List (Hex × ℕ) → ℕ
  time_at h [] = env.now
  time_at h ((k, n) ∷ times) = if str_eq h k then n else time_at h times

  abbrev pub log_row : ℕ → RawLog → ℕ → Option (List (String × (String × String))) → EventLog
  log_row chain l time decoded = record {
    chain_id = chain;
    block_number = l.block_number;
    contract_address = to_lower l.address;
    transaction_hash = l.transaction_hash;
    topic0 = l.topic0;
    topic1 = l.topic1;
    topic2 = l.topic2;
    topic3 = l.topic3;
    data_text = l.data_text;
    event_name = some l.event_name;
    decoded_log = decoded;
    timestamp = time;
    transaction_index = l.transaction_index;
    log_index = l.log_index;
  }

  -- The row of a log.
  unfoldable pub format_log : ℕ → List Filter → List (Hex × ℕ) → RawLog → Result EventLog
  format_log chain fs times l = then_ok (contract_at (to_lower l.address) fs) (λ a.
      then_ok (format_decoded_log a l.event_name l.args)
        (λ decoded. ok (log_row chain l (time_at l.block_hash times) decoded)))

  -- `getLogs`
  unfoldable pub get_logs : RangeJob → Result (List EventLog)
  get_logs j =
      if is_empty j.filters
      then ok []
      else then_ok (all_ok (filter_logs j.from_block j.to_block) j.filters) (λ found.
        all_ok
          (format_log j.chain_id j.filters
            (get_block_timestamps (map (λ (l : RawLog). l.block_hash) (flat found))))
          (flat found))

  module _ (Q : JobQueue) (rows : List WebhookRow) (subscriptions : List ContractSubscription) where
    -- `handler`
    unfoldable pub handle_event_logs : RangeJob → Task (Delivery Q) (Unit {0})
    handle_event_logs j = lift (get_logs j) >>= λ logs.
        if is_empty logs
        then pure tt
        else (lift (env.insert_logs logs) >>= λ inserted.
            enqueue_rows Q rows (λ (l : EventLog). l.contract_address)
              (λ l w. contract w (some l) none)
              (get_webhooks_by_contract_addresses j.chain_id subscriptions) inserted)
