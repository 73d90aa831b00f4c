-- ===== src/ChainIndexer/Progress.antt =====
-- How far the indexer of a chain comes, and which blocks it hands on: src/worker/tasks/chainIndexer.ts.
use thirdweb_engine.Base.{
  ℕ, ◌+◌, ◌≤◌, ◌<◌, ◌≡◌, ◌⊎◌, inl, inr, refl, ◌∙◌, sym, true, false, not, some, List, [], ◌∷◌, ◌++◌,
  ◌==◌, leb, is_empty, map, append_assoc, append-nil, arith, if◌then◌else◌, Bool-cases,
  Option-cases,
}
use thirdweb_engine.Engine.{
  World, Result, ok, err, Effect, RangeJob, RangeQueue, event_logs_queue, receipts_queue,
  JobOptions, Filter, range_job, when, recover, pure, Result-cases,
}
use thirdweb_engine.Subscriptions.{
  Postgres, ContractSubscription, get_contract_subscriptions_by_chain_id,
}
use thirdweb_engine.ChainIndexer.{
  IndexerEnv, delayed, immediate, add_all, add_range_job, to_block, event_log_filters,
  receipt_filters, get_block_for_indexing, upsert_chain_indexer, process_range, index_from,
  chain_indexer_task,
}

add_all_lem :
    {S : Type 0} (q : RangeQueue) (j : RangeJob) (os : List JobOptions) (w : World S)
    → add_all q j os w ≡ (ok tt, record w { effects = w.effects ++ map (range_job q j) os })
unfolding add_all
add_all_lem q j [] w = simp append-nil
add_all_lem q j (o ∷ os) w = add_all_lem q j os _ ∙ simp append_assoc

pub some_inj : {a b : ℕ} → some a ≡ some b → a ≡ b
some_inj e = cc

pub ==-refl : (n : ℕ) → (n == n) ≡ true
==-refl n = ground arith

-- An error that is only logged leaves the world.
recover-world :
    {S : Type 0} (r : Result (Unit {0}) × World S)
    → (recover r (λ _. pure tt) (λ _. pure tt)).1 ≡ r.1
recover-world (ok tt, w) = refl
recover-world (err e, w) = refl

-- The jobs that a queue gets for a range.
abbrev pub jobs_for : RangeQueue → List ℕ → List Filter → ℕ → ℕ → ℕ → List Effect
jobs_for q delays fs chain from to =
    if is_empty fs
    then []
    else map
        (range_job q (record { chain_id = chain; filters = fs; from_block = from; to_block = to }))
        (immediate ∷ delayed delays)

added :
    {S : Type 0} (q : RangeQueue) (delays : List ℕ) (fs : List Filter) (chain from to : ℕ)
    (w : World S)
    → when
        (not (is_empty fs))
        (add_range_job q delays
          (record { chain_id = chain; filters = fs; from_block = from; to_block = to }))
        w
      ≡ (ok tt, record w { effects = w.effects ++ jobs_for q delays fs chain from to })
unfolding add_range_job
added q delays [] chain from to w = simp append-nil
added q delays (f ∷ fs) chain from to w = rw (when, add_all_lem)

module _ (P : Postgres) where
  open P use {Store, subscriptions, last_indexed_block, upsert, last_indexed_block-upsert}

  abbrev pub rows_of : Store → ℕ → List ContractSubscription
  rows_of s chain = get_contract_subscriptions_by_chain_id chain (subscriptions s)

  module _ (env : IndexerEnv) (chain : ℕ) where
    abbrev pub range_jobs : Store → ℕ → ℕ → List Effect
    range_jobs s from to =
        jobs_for event_logs_queue env.requery_delays (event_log_filters (rows_of s chain)) chain
          from to
        ++ jobs_for receipts_queue env.requery_delays (receipt_filters (rows_of s chain)) chain from
            to

    process_range_lem :
        (from to : ℕ) (w : World Store)
        → process_range P env chain from to w ≡ (
          ok tt,
          record w {
            store = if env.takes_update chain then upsert w.store chain to else w.store;
            effects = w.effects ++ range_jobs w.store from to;
          },
        )
    unfolding process_range upsert_chain_indexer
    process_range_lem from to w = elim (Bool-cases (env.takes_update chain)) [
      | inl c ↦ simp (added, c, append_assoc)
      | inr c ↦ simp (added, c, append_assoc)
    ]

    module _ (max offset : ℕ) where
      -- A run from a block of its row on: nothing happens, or the jobs of a range go out and the row
      -- is where it was or at the range's end.
      abbrev Stays : World Store → World Store → Type 0
      Stays w w' = w' ≡ w

      abbrev Moves : World Store → World Store → ℕ → ℕ → Type 0
      Moves w w' from to =
          (from < to)
          × (to ≤ from + max)
          × (w'.effects ≡ w.effects ++ range_jobs w.store from to)
          × (w'.store ≡ (if env.takes_update chain then upsert w.store chain to else w.store))

      to_block-le : (head from : ℕ) → to_block head offset from max ≤ from + max
      unfolding to_block
      to_block-le head from = ground arith

      index_from-cases :
          (from : ℕ) (w : World Store)
          → let w' = (index_from P env chain max offset from w).1 in
            (Stays w w') ⊎ ((to : ℕ) × Moves w w' from to)
      unfolding index_from
      index_from-cases from w = elim (Result-cases (env.block_number chain)) [
        | inr (e, h) ↦ inl (simp h)
        | inl (head, h) ↦
            let to : ℕ = to_block head offset from max in
            elim (Bool-cases (leb to from)) [
              | inl le ↦ inl (simp (h, le))
              | inr gt ↦ elim (Result-cases (env.has_block chain to)) [
                | inr (e, k) ↦ inl (simp (h, gt, k))
                | inl (true, k) ↦ inr (
                  to,
                  (
                    ground arith,
                    to_block-le head from,
                    simp (h, gt, k, process_range_lem),
                    simp (h, gt, k, process_range_lem),
                  ),
                )
                | inl (false, k) ↦ inl (simp (h, gt, k))
              ]
            ]
      ]

      -- What a run does to the world, for any answers: nothing, or one step from the row's block.
      pub chain_indexer_task-cases :
          (w : World Store)
          → let w' = (chain_indexer_task P env chain max offset w).1 in
            (Stays w w')
            ⊎ ((from : ℕ) × (to : ℕ) × (last_indexed_block w.store chain ≡ some from)
                × Moves w w' from to)
      unfolding chain_indexer_task get_block_for_indexing
      chain_indexer_task-cases w = elim (Option-cases (last_indexed_block w.store chain)) [
        | inl empty ↦ elim (Bool-cases (env.is_locked chain)) [
          | inl l ↦ inl (simp (empty, l))
          | inr l ↦ inl (simp (empty, l))
        ]
        | inr (from, e) ↦ elim (Bool-cases (env.is_locked chain)) [
          | inl l ↦ inl (simp (e, l))
          | inr l ↦
              simp (e, l, recover-world)
                (elim (index_from-cases from w) [
                  | inl same ↦ inl same
                  | inr (to, moves) ↦ inr (from, to, refl, moves)
                ])
        ]
      ]

      -- Whatever a run meets outside, the row of its chain does not go back, and goes forward by no
      -- more than the greatest range; and the row of every other chain is as it was.
      pub chain_indexer_task-bounds :
          (w : World Store) (n : ℕ)
          → last_indexed_block w.store chain ≡ some n
          → let w' = (chain_indexer_task P env chain max offset w).1 in
            ((m : ℕ) × (last_indexed_block w'.store chain ≡ some m) × (n ≤ m) × (m ≤ n + max))
            × ((d : ℕ)
                → (chain == d) ≡ false
                → last_indexed_block w'.store d ≡ last_indexed_block w.store d)
      chain_indexer_task-bounds w n row = elim (chain_indexer_task-cases w) [
        | inl same ↦ rw same ((n, row, omega arith, omega arith), λ d ne. refl)
        | inr (from, to, e, (lt, le, _, store)) ↦
            let same : from ≡ n = some_inj (sym e ∙ row) in
            rw store (elim (Bool-cases (env.takes_update chain)) [
              | inl t ↦ simp t (
                (to, simp (last_indexed_block-upsert, ==-refl chain), omega arith, omega arith),
                λ d ne. simp (last_indexed_block-upsert, ne),
              )
              | inr t ↦ simp t ((n, row, omega arith, omega arith), λ d ne. refl)
            ])
      ]

      -- A run whose row is at a block below the one to go to, and is not locked, when the RPC has
      -- that block and the update is taken: the row is at that block, and the jobs for the range
      -- from the old block to it, at once and delayed, are handed to the queue for event logs and
      -- then to that for receipts, to each if it has a filter.
      pub chain_indexer_task-advances :
          (w : World Store) (from head : ℕ)
          → env.is_locked chain ≡ false
          → last_indexed_block w.store chain ≡ some from
          → env.block_number chain ≡ ok head
          → let to = to_block head offset from max in
            from < to
            → env.has_block chain to ≡ ok true
            → env.takes_update chain ≡ true
            → chain_indexer_task P env chain max offset w ≡ (
              ok tt,
              record w {
                store = upsert w.store chain to;
                effects = w.effects ++ range_jobs w.store from to;
              },
            )
      unfolding chain_indexer_task get_block_for_indexing index_from
      chain_indexer_task-advances w from head l row h lt found takes =
          let more : leb (to_block head offset from max) from ≡ false = ground arith in
          simp (l, row, h, more, found, process_range_lem, takes)

      -- A run that finds nothing to do.
      pub chain_indexer_task-idle :
          (w : World Store) (from head : ℕ)
          → last_indexed_block w.store chain ≡ some from
          → env.block_number chain ≡ ok head
          → leb (to_block head offset from max) from ≡ true
          → (chain_indexer_task P env chain max offset w).1 ≡ w
      unfolding chain_indexer_task get_block_for_indexing index_from
      chain_indexer_task-idle w from head row h le = elim (Bool-cases (env.is_locked chain)) [
        | inl l ↦ simp (l, row)
        | inr l ↦ simp (l, row, h, le)
      ]
