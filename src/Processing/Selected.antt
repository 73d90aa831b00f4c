-- ===== src/Processing/Selected.antt =====
-- Which transactions and logs of a range of blocks are stored:
-- src/worker/tasks/processTransactionReceiptsWorker.ts and processEventLogsWorker.ts.
use thirdweb_engine.Base.{
  ℕ, zero, suc, ◌+◌, ◌-◌, ◌≡◌, refl, ◌∙◌, Bool, true, false, not, String, Option, none, some, List,
  [], ◌∷◌, ◌==◌, ◌&&◌, leb, str_eq, eq_iff, or_else, is_empty, any, filter, map, if◌then◌else◌,
  arith, Bool-cases, inl, inr,
}
use thirdweb_engine.Base.Text.{to_lower}
use thirdweb_engine.Transaction.{Address, Hex}
use thirdweb_engine.Engine.{Result, ok, err, then_ok, Filter, RangeJob}
use thirdweb_engine.Subscriptions.{ReceiptRow}
use thirdweb_engine.Processing.{ByAddress, lookup}
use thirdweb_engine.Processing.Logs.{
  LogsEnv, AbiEvent, includes_text, all_ok, flat, prepared_events, filter_logs, timestamp_of,
  dedupe, get_block_timestamps, time_at,
}
use thirdweb_engine.Processing.Receipts.{
  ReceiptsEnv, BlockTransaction, Block, RawReceipt, blocks_from, block_range, address_config,
  by_config, select, receipt_row, selected_row, receipts_of, receipts_from_block,
  get_formatted_transaction_receipts,
}

blocks_from_lem :
    (n i b : ℕ) → any (λ c. c == b) (blocks_from n i) ≡ (leb i b && leb (suc b) (i + n))
blocks_from_lem zero i b = ground arith
blocks_from_lem (suc n) i b = ground (arith, blocks_from_lem n (i + 1) b)

-- A block is in the range exactly if it is between its ends.
pub block_range_lem :
    (from to b : ℕ) → any (λ c. c == b) (block_range from to) ≡ (leb from b && leb b to)
unfolding block_range
block_range_lem from to b = blocks_from_lem (to + 1 - from) from b ∙ ground arith

-- The names that the last filter of an address asks for.
abbrev pub last_names : Address → List Filter → Option (List String)
last_names a [] = none
last_names a (f ∷ fs) =
    or_else (last_names a fs) (if str_eq a f.address then some f.names else none)

or_else_assoc {ℓ} :
    {A : Type ℓ} (x y z : Option A) → or_else x (or_else y z) ≡ or_else (or_else x y) z
or_else_assoc none y z = refl
or_else_assoc (some a) y z = refl

or_else-if {ℓ} :
    {A : Type ℓ} (b : Bool) (x : A) (o : Option A)
    → (if b then some x else o) ≡ or_else (if b then some x else none) o
or_else-if true x o = refl
or_else-if false x o = refl

or_else-none {ℓ} : {A : Type ℓ} (o : Option A) → or_else o none ≡ o
or_else-none none = refl
or_else-none (some a) = refl

lookup-config :
    (a : Address) (fs : List Filter) (m : ByAddress (List String))
    → lookup a (address_config fs m) ≡ or_else (last_names a fs) (lookup a m)
unfolding address_config lookup
lookup-config a [] m = refl
lookup-config a (f ∷ fs) m =
    lookup-config a fs _
    ∙ rw (or_else-if (str_eq a f.address) f.names (lookup a m))
        (or_else_assoc (last_names a fs) _ _)

-- The functions that are looked for at an address are those of its last filter: what earlier filters
-- of the address ask for is dropped.
pub address_config_lem :
    (a : Address) (fs : List Filter) → lookup a (address_config fs []) ≡ last_names a fs
unfolding lookup
address_config_lem a fs = lookup-config a fs [] ∙ or_else-none (last_names a fs)

all_ok_lem {ℓ κ} :
    {A : Type ℓ} {B : Type κ} (f : A → Result B) (g : A → B)
    → ((x : A) → f x ≡ ok (g x))
    → (xs : List A) → all_ok f xs ≡ ok (map g xs)
unfolding all_ok
all_ok_lem f g h [] = refl
all_ok_lem f g h (x ∷ xs) = rw (h x, all_ok_lem f g h xs) refl

then_ok_assoc {ℓ₁ ℓ₂ ℓ₃} :
    {A : Type ℓ₁} {B : Type ℓ₂} {C : Type ℓ₃} (m : Result A) (f : A → Result B) (g : B → Result C)
    → then_ok m (λ a. then_ok (f a) g) ≡ then_ok (then_ok m f) g
then_ok_assoc (ok a) f g = refl
then_ok_assoc (err e) f g = refl

-- What a chain answers, when it answers every question.
pub record Answers : Type 0 where
  pub block : ℕ → Block
  pub receipt : Hex → RawReceipt
  pub name : Address → Hex → String

-- The environment tells what the chain answers.
abbrev pub Tells : ReceiptsEnv → Answers → Type 0
Tells env c =
    ((b : ℕ) → env.block_by_number b ≡ ok (c.block b))
    × ((h : Hex) → env.transaction_receipt h ≡ ok (c.receipt h))
    × ((a : Address) (input : Hex) → env.function_name a input ≡ ok (c.name a input))

module _ (env : ReceiptsEnv) (c : Answers) (chain : ℕ) (fs : List Filter) where
  -- The row of a transaction to an address, under the names that are asked for.
  abbrev pub row_under : ℕ → BlockTransaction → Address → Option (List String) → List ReceiptRow
  row_under time t a none = []
  row_under time t a (some names) =
      if is_empty names
      then receipt_row env chain time t a none (c.receipt t.hash) ∷ []
      else if includes_text names (c.name a t.input)
      then receipt_row env chain time t a (some (c.name a t.input)) (c.receipt t.hash) ∷ []
      else []

  abbrev pub to_address : ℕ → BlockTransaction → Option Address → List ReceiptRow
  to_address time t none = []
  to_address time t (some a) =
      if str_eq a "" then [] else row_under time t (to_lower a) (last_names (to_lower a) fs)

  -- The rows of a transaction: one if it is to a subscribed contract, and calls a function that is
  -- asked for or all are asked for.
  abbrev pub rows_for : ℕ → BlockTransaction → List ReceiptRow
  rows_for time t = to_address time t t.to

  module _ (tells : Tells env c) where
    row_under_lem :
        (time : ℕ) (t : BlockTransaction) (a : Address) (names : Option (List String))
        → then_ok (by_config env chain a names t.input) (selected_row env chain time t)
          ≡ ok (row_under time t a names)
    row_under_lem time t a none = refl
    row_under_lem time t a (some names) = elim (Bool-cases (is_empty names)) [
      | inl e ↦ simp (e, tells.1 t.hash)
      | inr e ↦ elim (Bool-cases (includes_text names (c.name a t.input))) [
        | inl i ↦ simp (e, tells.2 a t.input, i, tells.1 t.hash)
        | inr i ↦ simp (e, tells.2 a t.input, i)
      ]
    ]

    row_lem :
        (time : ℕ) (t : BlockTransaction)
        → then_ok (select env chain (address_config fs []) t) (selected_row env chain time t)
          ≡ ok (rows_for time t)
    unfolding select
    row_lem time t =
        elim t.to
          as (λ o.
            then_ok (select env chain (address_config fs []) (record t { to = o }))
              (selected_row env chain time t)
            ≡ ok (to_address time t o)) [
              | none ↦ refl
              | some a ↦ elim (Bool-cases (str_eq a "")) [
                | inl e ↦ simp e
                | inr e ↦
                    simp e (rw (address_config_lem (to_lower a) fs) (row_under_lem time t _ _))
              ]
            ]

    receipts_of_lem :
        (time : ℕ) (ts : List BlockTransaction)
        → receipts_of env chain (address_config fs []) time ts ≡ ok (flat (map (rows_for time) ts))
    unfolding receipts_of
    receipts_of_lem time [] = refl
    receipts_of_lem time (t ∷ ts) =
        then_ok_assoc (select env chain (address_config fs []) t) (selected_row env chain time t) _
        ∙ rw (row_lem time t, receipts_of_lem time ts) refl

    -- The rows of one block.
    pub receipts_from_block_lem :
        (b : ℕ)
        → receipts_from_block env chain (address_config fs []) b
          ≡ ok (flat (map (rows_for (c.block b).timestamp) (c.block b).transactions))
    unfolding receipts_from_block
    receipts_from_block_lem b = rw (tells.0 b) (receipts_of_lem _ _)

-- When the chain answers every question, the receipts of a job with filters are, block by block from
-- the first to the last, one row for each transaction whose address in lower case has a filter, if
-- the last filter of that address asks for all functions or for the function that the transaction
-- calls.
pub get_formatted_transaction_receipts_lem :
    (env : ReceiptsEnv) (c : Answers) (j : RangeJob)
    → Tells env c
    → is_empty j.filters ≡ false
    → get_formatted_transaction_receipts env j
      ≡ ok (
          flat (
            map
              (λ b. flat (
                map
                  (rows_for env c j.chain_id j.filters (c.block b).timestamp)
                  (c.block b).transactions))
              (block_range j.from_block j.to_block)))
unfolding get_formatted_transaction_receipts
get_formatted_transaction_receipts_lem env c j tells some_filters =
    simp (some_filters, all_ok_lem _ _ (receipts_from_block_lem env c j.chain_id j.filters tells))

filter-none {ℓ} : {A : Type ℓ} (p : A → Bool) (xs : List A) → any p xs ≡ false → filter p xs ≡ []
filter-none p [] h = refl
filter-none p (x ∷ xs) h = ground (arith, filter-none p xs)

includes_text-remove :
    (h k : String) (hs : List String)
    → includes_text (filter (λ j. if str_eq j k then false else true) hs) h
      ≡ (includes_text hs h && not (str_eq h k))
includes_text-remove h k [] = refl
includes_text-remove h k (j ∷ hs) =
    ground (arith, includes_text-remove h k hs, eq_iff h k, eq_iff h j, eq_iff j k)

module _ (env : LogsEnv) where
  -- If the ABI of a contract is found and has no event that a filter names, the same logs are asked
  -- for as with a filter that names none, that is all of them.
  pub filter_logs-unknown :
      (f : Filter) (abi : List AbiEvent) (from to : ℕ)
      → env.resolve_abi f.address ≡ ok abi
      → any (λ (e : AbiEvent). includes_text f.names e.name) abi ≡ false
      → filter_logs env from to f ≡ filter_logs env from to (record f { names = [] })
  unfolding filter_logs prepared_events
  filter_logs-unknown f abi from to known unnamed = elim (Bool-cases (is_empty f.names)) [
    | inl e ↦ simp e
    | inr e ↦
        simp (e, known, filter-none (λ (a : AbiEvent). includes_text f.names a.name) abi unnamed)
  ]

  time_at-pairs :
      (h : Hex) (hs : List Hex)
      → includes_text hs h ≡ true
      → time_at env h (map (λ k. (k, timestamp_of env (env.block_timestamp k))) hs)
        ≡ timestamp_of env (env.block_timestamp h)
  time_at-pairs h [] i = cc
  time_at-pairs h (k ∷ hs) i = elim (Bool-cases (str_eq h k)) [
    | inl e ↦ let same : h ≡ k = (eq_iff h k).0 e in simp e (rw same refl)
    | inr e ↦ simp e (time_at-pairs h hs (simp e at i))
  ]

  includes-dedupe : (h : Hex) (hs : List Hex) → includes_text (dedupe env hs) h ≡ includes_text hs h
  includes-dedupe h [] = refl
  includes-dedupe h (k ∷ hs) =
      rw (includes_text-remove h k (dedupe env hs), includes-dedupe h hs) (ground arith)

  -- A log has the time of its own block, also where logs share blocks.
  pub get_block_timestamps_lem :
      (h : Hex) (hs : List Hex)
      → includes_text hs h ≡ true
      → time_at env h (get_block_timestamps env hs) ≡ timestamp_of env (env.block_timestamp h)
  unfolding get_block_timestamps
  get_block_timestamps_lem h hs i = time_at-pairs h (dedupe env hs) (includes-dedupe h hs ∙ i)
