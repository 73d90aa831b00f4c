-- ===== src/Relayer/Access.antt =====
-- What a relayer queues a transaction for: src/server/routes/relayer/index.ts.
use thirdweb_engine.Base.{
  ℕ, ◌≡◌, Bool, true, false, not, String, Option, none, some, is_some, List, [], ◌∷◌, ◌&&◌, ◌||◌,
  ◌∙◌, refl, map, any, arith, str_eq, Bool-cases, inl, inr, if◌then◌else◌,
}
use text.Mathlib.Text.{find?}
use thirdweb_engine.Base.Text.{to_lower}
use thirdweb_engine.Transaction.{Address, Hex}
use thirdweb_engine.Engine.{Result, ok, err, Result-cases}
use thirdweb_engine.Relayer.{
  RelayerRow, Relayer, RelayBody, RelayCall, MetaRequest, PermitRequest, ForwardRequest, forward,
  permit, execute_meta_transaction, Signature, RelayReply, queued_as, RelayEnv, ForwarderAbi,
  with_chain_id, chainless_domain, parsed_list, relay_by, is_unauthorized_contract,
  is_unauthorized_forwarder, forwarder_abi, get_relayer_by_id, relay_transaction, relay_meta,
  relay_permit, relay_forward, relay_verified, queue_call,
}

abbrev pub is_queued : Result RelayReply → Bool
is_queued (ok (queued_as _ _)) = true
is_queued _ = false

-- What the contracts answer, when they answer.
pub record Answers : Type 0 where
  pub signature : Hex → Signature
  pub trusted : Address → Address → Bool
  pub queue_id : String
  pub addresses : String → List Address

-- Whether an address stands in a list, in whatever case.
abbrev pub is_listed : List Address → Address → Bool
is_listed [] a = false
is_listed (b ∷ bs) a = str_eq (to_lower a) (to_lower b) || is_listed bs a

-- The ABI of a forwarder: that without a chain in its domain if the request names a chain.
abbrev pub abi_of : Option String → ForwarderAbi
abi_of none = with_chain_id
abi_of (some s) = if str_eq s "" then with_chain_id else chainless_domain

abi_of-forwarder_abi : (o : Option String) → forwarder_abi o ≡ abi_of o
abi_of-forwarder_abi none = refl
abi_of-forwarder_abi (some s) = refl

not-not : (b : Bool) → not (not b) ≡ b
not-not true = refl
not-not false = refl

abbrev pub verified : Result Bool → Bool
verified (ok b) = b
verified (err _) = false

module _ (env : RelayEnv) (c : Answers) where
  -- The environment tells what the contracts answer, and takes every transaction.
  abbrev pub Tells : Type 0
  Tells =
      ((chain : ℕ) (a : Address) → env.get_sdk chain a ≡ ok tt)
      × ((x : Hex) → env.split_signature x ≡ ok (c.signature x))
      × ((a f : Address) → env.is_trusted_forwarder a f ≡ ok (c.trusted a f))
      × ((chain : ℕ) (call : RelayCall) → env.queue_tx chain call ≡ ok c.queue_id)
      × ((s : String) → env.parse_addresses s ≡ ok (c.addresses s))

  -- A contract is allowed if the row has no text of contracts, an empty one, or one that lists it.
  abbrev pub allows_contract : Option String → Address → Bool
  allows_contract none a = true
  allows_contract (some s) a = str_eq s "" || is_listed (c.addresses s) a

  -- A forwarder is allowed if the row has no text of forwarders, an empty one, or one in which the
  -- address in lower case occurs.
  abbrev pub allows_forwarder : Option String → Address → Bool
  allows_forwarder none a = true
  allows_forwarder (some s) a = str_eq s "" || is_some (find? s (to_lower a))

  -- What a request of a row's relayer needs.
  abbrev pub is_permitted : RelayerRow → RelayBody → Bool
  is_permitted row (execute_meta_transaction q _) = allows_contract row.allowed_contracts q.to
  is_permitted row (permit q _) = allows_contract row.allowed_contracts q.to
  is_permitted row (forward q signature f) =
      allows_forwarder row.allowed_forwarders f
      && allows_contract row.allowed_contracts q.to
      && str_eq q.value "0"
      && c.trusted (to_lower q.to) f
      && verified (env.verify f (abi_of q.chainid) q (env.join_signature (c.signature signature)))

  -- The same of the relayer that is made of a row.
  abbrev passes : Relayer → RelayBody → Bool
  passes relayer (execute_meta_transaction q _) =
      not (is_unauthorized_contract relayer.allowed_contracts q.to)
  passes relayer (permit q _) = not (is_unauthorized_contract relayer.allowed_contracts q.to)
  passes relayer (forward q signature f) =
      not (is_unauthorized_forwarder relayer.allowed_forwarders f)
      && not (is_unauthorized_contract relayer.allowed_contracts q.to)
      && str_eq q.value "0"
      && c.trusted (to_lower q.to) f
      && verified
          (env.verify f (forwarder_abi q.chainid) q (env.join_signature (c.signature signature)))

  module _ (tells : Tells) (relayer : Relayer) where
    queue_call_lem : (call : RelayCall) → is_queued (queue_call env relayer call) ≡ true
    queue_call_lem call = simp (tells.3 relayer.chain_id call)

    relay_meta_lem :
        (q : MetaRequest) (x : Hex)
        → is_queued (relay_meta env relayer q x)
          ≡ not (is_unauthorized_contract relayer.allowed_contracts q.to)
    relay_meta_lem q x =
        elim (Bool-cases (is_unauthorized_contract relayer.allowed_contracts q.to)) [
          | inl e ↦ simp (tells.1 x, e)
          | inr e ↦ simp (tells.1 x, e, queue_call_lem)
        ]

    relay_permit_lem :
        (q : PermitRequest) (x : Hex)
        → is_queued (relay_permit env relayer q x)
          ≡ not (is_unauthorized_contract relayer.allowed_contracts q.to)
    relay_permit_lem q x =
        elim (Bool-cases (is_unauthorized_contract relayer.allowed_contracts q.to)) [
          | inl e ↦ simp (tells.1 x, e)
          | inr e ↦ simp (tells.1 x, e, queue_call_lem)
        ]

    relay_verified_lem :
        (q : ForwardRequest) (x : Hex) (f : Address)
        → is_queued (relay_verified env relayer q x f)
          ≡ verified (env.verify f (forwarder_abi q.chainid) q (env.join_signature (c.signature x)))
    relay_verified_lem q x f =
        elim (Result-cases
          (env.verify f (forwarder_abi q.chainid) q (env.join_signature (c.signature x)))) [
            | inl (true, e) ↦ simp (tells.1 x, e, queue_call_lem)
            | inl (false, e) ↦ simp (tells.1 x, e)
            | inr (b, e) ↦ simp (tells.1 x, e)
          ]

    relay_forward_lem :
        (q : ForwardRequest) (x : Hex) (f : Address)
        → is_queued (relay_forward env relayer q x f) ≡ passes relayer (forward q x f)
    relay_forward_lem q x f =
        elim (Bool-cases (is_unauthorized_forwarder relayer.allowed_forwarders f)) [
          | inl e ↦ simp e
          | inr e ↦ elim (Bool-cases (is_unauthorized_contract relayer.allowed_contracts q.to)) [
            | inl d ↦ simp (e, d)
            | inr d ↦ elim (Bool-cases (str_eq q.value "0")) [
              | inr v ↦ simp (e, d, v)
              | inl v ↦ elim (Bool-cases (c.trusted (to_lower q.to) f)) [
                | inl t ↦ simp (e, d, v, tells.2 (to_lower q.to) f, t) (relay_verified_lem q x f)
                | inr t ↦ simp (e, d, v, tells.2 (to_lower q.to) f, t)
              ]
            ]
          ]
        ]

  any-is_listed :
      (a : Address) (l : List Address) → any (str_eq (to_lower a)) (map to_lower l) ≡ is_listed l a
  any-is_listed a [] = refl
  any-is_listed a (b ∷ l) = rw (any-is_listed a l) refl

  -- The contracts of the relayer that is made of a row.
  module _ (parses : (s : String) → env.parse_addresses s ≡ ok (c.addresses s)) where
    parsed_contracts :
        (o : Option String)
        → (l : Option (List Address)) × (parsed_list env.parse_addresses o ≡ ok l)
          × ((a : Address) → not (is_unauthorized_contract l a) ≡ allows_contract o a)
    parsed_contracts none = (none, refl, λ a. refl)
    parsed_contracts (some s) = elim (Bool-cases (str_eq s "")) [
      | inl y ↦ (none, rw y refl, λ a. rw y refl)
      | inr n ↦ (
        some (map to_lower (c.addresses s)),
        rw (n, parses s) refl,
        λ a. rw (n, any-is_listed a (c.addresses s)) (not-not (is_listed (c.addresses s) a)),
      )
    ]

  forwarders :
      (o : Option String) (f : Address) → not (is_unauthorized_forwarder o f) ≡ allows_forwarder o f
  forwarders none f = refl
  forwarders (some s) f = ground arith

  passes-is_permitted :
      (row : RelayerRow) (relayer : Relayer) (body : RelayBody)
      → ((a : Address)
          → not (is_unauthorized_contract relayer.allowed_contracts a)
            ≡ allows_contract row.allowed_contracts a)
      → relayer.allowed_forwarders ≡ row.allowed_forwarders
      → passes relayer body ≡ is_permitted row body
  passes-is_permitted row relayer (execute_meta_transaction q x) h e = h q.to
  passes-is_permitted row relayer (permit q x) h e = h q.to
  passes-is_permitted row relayer (forward q x f) h e =
      rw (h q.to, e, forwarders row.allowed_forwarders f, abi_of-forwarder_abi q.chainid) refl

  relay_by-passes :
      (tells : Tells) (relayer : Relayer) (body : RelayBody)
      → is_queued (relay_by env body relayer) ≡ passes relayer body
  relay_by-passes tells relayer (forward q x f) =
      simp (tells.0 _ _) (relay_forward_lem tells relayer q x f)
  relay_by-passes tells relayer (permit q x) =
      simp (tells.0 _ _) (relay_permit_lem tells relayer q x)
  relay_by-passes tells relayer (execute_meta_transaction q x) =
      simp (tells.0 _ _) (relay_meta_lem tells relayer q x)

  -- When the wallet, the signature's parts, the trust of the contract, the lists of addresses and
  -- the queue are answered, a relayer whose row is found queues a transaction exactly if the request
  -- is permitted: the row has no text of contracts, an empty one, or one whose list has the contract
  -- that is called, in whatever case; and for a forwarded request the row has no text of forwarders,
  -- an empty one, or one that the forwarder's address, in lower case, is a part of, the value is 0,
  -- the contract trusts the forwarder, and the forwarder verifies the request.
  pub relay_transaction-permitted :
      (id : String) (row : RelayerRow) (body : RelayBody)
      → Tells
      → is_queued (relay_transaction env id (some row) body) ≡ is_permitted row body
  unfolding relay_transaction get_relayer_by_id
  relay_transaction-permitted id row body tells =
      let (l, made, contracts) = parsed_contracts tells.4 row.allowed_contracts in
      let relayer : Relayer = record {
        chain_id = row.chain_id;
        backend_wallet_address = row.backend_wallet_address;
        allowed_contracts = l;
        allowed_forwarders = row.allowed_forwarders;
      } in
      rw made
        (relay_by-passes tells relayer body ∙ passes-is_permitted row relayer body contracts refl)
