-- ===== src/Relayer.antt =====
-- Relaying of meta-transactions: the handler of src/server/routes/relayer/index.ts, with
-- src/db/relayer/getRelayerById.ts. The calls on contracts, the signature's parts and queueTx are
-- parameters, and the parsing of a stored list of addresses is one too.
pub mod Access
use thirdweb_engine.Base.{
  ℕ, Bool, true, false, not, String, Option, none, some, List, [], ◌∷◌, ◌&&◌, str_eq, any, map,
  if◌then◌else◌,
}
use thirdweb_engine.Base.Text.{to_lower, includes, ◌+++◌}
use thirdweb_engine.Transaction.{Address, Hex}
use thirdweb_engine.Engine.{Result, ok, then_ok}

-- A row of `relayers`. The two lists are texts in JSON.
pub record RelayerRow : Type 0 where
  pub chain_id : ℕ
  pub backend_wallet_address : Address
  pub allowed_contracts : Option String
  pub allowed_forwarders : Option String

-- What getRelayerById makes of it: the contracts are parsed, and the forwarders stay a text.
pub record Relayer : Type 0 where
  pub chain_id : ℕ
  pub backend_wallet_address : Address
  pub allowed_contracts : Option (List Address)
  pub allowed_forwarders : Option String

pub record ForwardRequest : Type 0 where
  pub from : Address
  pub to : Address
  pub value : String
  pub gas : String
  pub nonce : String
  pub call_data : Hex
  pub chainid : Option String

pub record PermitRequest : Type 0 where
  pub to : Address
  pub owner : Address
  pub spender : Address
  pub value : String
  pub deadline : String

pub record MetaRequest : Type 0 where
  pub from : Address
  pub to : Address
  pub call_data : Hex

-- The body of a request, with its signature.
pub data RelayBody : Type 0 where
  forward : ForwardRequest → Hex → Address → RelayBody
  permit : PermitRequest → Hex → RelayBody
  execute_meta_transaction : MetaRequest → Hex → RelayBody

pub record Signature : Type 0 where
  pub v : ℕ
  pub r : Hex
  pub s : Hex

-- The ABI that a forwarder is called with.
pub data ForwarderAbi : Type 0 where
  with_chain_id chainless_domain : ForwarderAbi

-- A transaction that is prepared on a contract.
pub data RelayCall : Type 0 where
  meta_call : Address → Address → Hex → Signature → RelayCall
  permit_call : Address → PermitRequest → Signature → RelayCall
  execute_call : Address → ForwarderAbi → ForwardRequest → Hex → RelayCall

-- The reply: status 400 with a message, or the ID of what was queued.
pub data RelayReply : Type 0 where
  refused : String → RelayReply
  queued_as : RelayCall → String → RelayReply

pub record RelayEnv : Type 0 where
  -- the addresses of a text in JSON, or what `JSON.parse` throws
  pub parse_addresses : String → Result (List Address)
  -- `getSdk`: it throws if the wallet is not configured
  pub get_sdk : ℕ → Address → Result (Unit {0})
  pub split_signature : Hex → Result Signature
  -- `joinSignature`
  pub join_signature : Signature → Hex
  -- `target.call("isTrustedForwarder", [forwarder])`
  pub is_trusted_forwarder : Address → Address → Result Bool
  -- `forwarder.call("verify", [request, signature])`
  pub verify : Address → ForwarderAbi → ForwardRequest → Hex → Result Bool
  -- `queueTx` on a chain
  pub queue_tx : ℕ → RelayCall → Result String

-- `x ? … : null`, of a text
abbrev pub parsed_list :
    (String → Result (List Address)) → Option String → Result (Option (List Address))
parsed_list parse none = ok none
parsed_list parse (some s) =
    if str_eq s "" then ok none else then_ok (parse s) (λ l. ok (some (map to_lower l)))

-- `list && !list.includes(address.toLowerCase())`
abbrev pub is_unauthorized_contract : Option (List Address) → Address → Bool
is_unauthorized_contract none a = false
is_unauthorized_contract (some list) a = not (any (str_eq (to_lower a)) list)

-- `text && !text.includes(address.toLowerCase())`: the text is searched, and not a list.
abbrev pub is_unauthorized_forwarder : Option String → Address → Bool
is_unauthorized_forwarder none a = false
is_unauthorized_forwarder (some s) a = not (str_eq s "") && not (includes s (to_lower a))

-- `!!request.chainid`
abbrev pub forwarder_abi : Option String → ForwarderAbi
forwarder_abi none = with_chain_id
forwarder_abi (some s) = if str_eq s "" then with_chain_id else chainless_domain

module _ (env : RelayEnv) where
  -- `getRelayerById`, of the row that is found
  unfoldable pub get_relayer_by_id : RelayerRow → Result Relayer
  get_relayer_by_id row = then_ok (parsed_list env.parse_addresses row.allowed_contracts) (λ list.
      ok (record {
        chain_id = row.chain_id;
        backend_wallet_address = row.backend_wallet_address;
        allowed_contracts = list;
        allowed_forwarders = row.allowed_forwarders;
      }))

  abbrev pub queue_call : Relayer → RelayCall → Result RelayReply
  queue_call relayer call =
      then_ok (env.queue_tx relayer.chain_id call) (λ id. ok (queued_as call id))

  abbrev pub contract_refused : Address → RelayReply
  contract_refused to =
      refused ("Requesting to relay transaction to unauthorized contract " +++ to +++ ".")

  abbrev pub relay_meta : Relayer → MetaRequest → Hex → Result RelayReply
  relay_meta relayer q signature = then_ok (env.split_signature signature) (λ sig.
      if is_unauthorized_contract relayer.allowed_contracts q.to
      then ok (contract_refused q.to)
      else queue_call relayer (meta_call (to_lower q.to) q.from q.call_data sig))

  abbrev pub relay_permit : Relayer → PermitRequest → Hex → Result RelayReply
  relay_permit relayer q signature = then_ok (env.split_signature signature) (λ sig.
      if is_unauthorized_contract relayer.allowed_contracts q.to
      then ok (contract_refused q.to)
      else queue_call relayer (permit_call (to_lower q.to) q sig))

  -- The signature of the request, checked by the forwarder.
  abbrev pub relay_verified : Relayer → ForwardRequest → Hex → Address → Result RelayReply
  relay_verified relayer q signature forwarder = then_ok (env.split_signature signature) (λ sig.
      let fixed = env.join_signature sig in
      let abi = forwarder_abi q.chainid in
      then_ok (env.verify forwarder abi q fixed) (λ valid.
        if not valid
        then ok (refused "Verification failed with provided message and signature")
        else queue_call relayer (execute_call forwarder abi q fixed)))

  abbrev pub relay_forward : Relayer → ForwardRequest → Hex → Address → Result RelayReply
  relay_forward relayer q signature forwarder =
      if is_unauthorized_forwarder relayer.allowed_forwarders forwarder
      then ok (
          refused
            ("Requesting to relay transaction with unauthorized forwarder " +++ forwarder +++ "."))
      else if is_unauthorized_contract relayer.allowed_contracts q.to
      then ok (contract_refused q.to)
      else if not (str_eq q.value "0")
      then ok (refused ("Requesting to relay transaction with non-zero value " +++ q.value +++ "."))
      else then_ok (env.is_trusted_forwarder (to_lower q.to) forwarder) (λ trusted.
        if not trusted
        then ok (
            refused
              ("Requesting to relay transaction with untrusted forwarder " +++ forwarder +++ "."))
        else relay_verified relayer q signature forwarder)

  abbrev pub relay_body : Relayer → RelayBody → Result RelayReply
  relay_body relayer (execute_meta_transaction q signature) = relay_meta relayer q signature
  relay_body relayer (permit q signature) = relay_permit relayer q signature
  relay_body relayer (forward q signature forwarder) = relay_forward relayer q signature forwarder

  abbrev pub relay_by : RelayBody → Relayer → Result RelayReply
  relay_by body relayer =
      then_ok (env.get_sdk relayer.chain_id relayer.backend_wallet_address)
        (λ _. relay_body relayer body)

  -- The handler, with the row of the relayer if there is one.
  unfoldable pub relay_transaction : String → Option RelayerRow → RelayBody → Result RelayReply
  relay_transaction id row body = elim row [
    | none ↦ ok (refused ("No relayer found with id '" +++ id +++ "'"))
    | some r ↦ then_ok (get_relayer_by_id r) (relay_by body)
  ]
