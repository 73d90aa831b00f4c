-- ===== src/ChainIndexer/Coverage.antt =====
-- Many runs of the indexer of a chain: that no block is left out, and that it reaches the head of the
-- chain. src/worker/tasks/chainIndexer.ts.
use thirdweb_engine.Base.{
  ℕ, zero, suc, ◌+◌, ◌-◌, ◌*◌, ◌≤◌, ◌<◌, ◌≡◌, inl, inr, refl, ◌∙◌, sym, ap, Bool, true, false, not,
  some, List, [], ◌∷◌, ◌==◌, ◌&&◌, ◌||◌, leb, is_some, is_empty, any, any-append, arith, Bool-cases,
}
use thirdweb_engine.Engine.{World, Effect, range_job, event_logs_queue, ok}
use thirdweb_engine.Subscriptions.{Postgres}
use thirdweb_engine.ChainIndexer.{IndexerEnv, to_block, event_log_filters, chain_indexer_task}
use thirdweb_engine.ChainIndexer.Progress.{
  some_inj, ==-refl, rows_of, range_jobs, chain_indexer_task-cases, chain_indexer_task-advances,
  chain_indexer_task-idle,
}

or_true : {b : Bool} (a : Bool) → b ≡ true → (a || b) ≡ true
or_true true e = refl
or_true false e = e

-- Whether an effect is a job at once for the event logs of a range that a block lies in.
abbrev pub logs_block : ℕ → ℕ → Effect → Bool
logs_block chain b (range_job event_logs_queue j o) =
    j.chain_id == chain && (leb j.from_block b && leb b j.to_block) && not (is_some o.delay)
logs_block _ _ _ = false

module _ (P : Postgres) (chain max offset : ℕ) where
  open P use {
    Store, subscriptions, last_indexed_block, upsert, last_indexed_block-upsert,
    subscriptions-upsert,
  }

  -- Runs one after the other, each with the answers that it gets.
  abbrev pub run_all : List IndexerEnv → World Store → World Store
  run_all [] w = w
  run_all (env ∷ envs) w = run_all envs (chain_indexer_task P env chain max offset w).1

  abbrev pub HasLogFilters : Store → Type 0
  HasLogFilters s = is_empty (event_log_filters (rows_of P s chain)) ≡ false

  -- A world whose row is at `n` and in which every block above `start` up to `n` was handed on.
  abbrev pub Covered : ℕ → World Store → Type 0
  Covered start w =
      HasLogFilters w.store
      × ((n : ℕ) × (last_indexed_block w.store chain ≡ some n)
          × ((b : ℕ) → start < b → b ≤ n → any (logs_block chain b) w.effects ≡ true))

  range_jobs-logs :
      (env : IndexerEnv) (s : Store) (from to b : ℕ)
      → HasLogFilters s
      → leb from b ≡ true
      → leb b to ≡ true
      → any (logs_block chain b) (range_jobs P env chain s from to) ≡ true
  range_jobs-logs env s from to b filters lo hi = simp (filters, lo, hi, ==-refl chain)

  Covered-task :
      (env : IndexerEnv) (start : ℕ) (w : World Store)
      → Covered start w
      → Covered start (chain_indexer_task P env chain max offset w).1
  Covered-task env start w (filters, (n, row, cover)) =
      elim (chain_indexer_task-cases P env chain max offset w) [
        | inl same ↦ rw same (filters, (n, row, cover))
        | inr (from, to, e, (lt, le, effects, store)) ↦
            rw (effects, store)
              (elim (Bool-cases (env.takes_update chain)) [
                | inl t ↦
                    let at_from : from ≡ n = some_inj (sym e ∙ row) in
                    simp t (
                      simp subscriptions-upsert filters,
                      (
                        to,
                        simp (last_indexed_block-upsert, ==-refl chain),
                        λ b gt hi. rw (any-append) (elim (Bool-cases (leb b n)) [
                          | inl old ↦ simp (cover b gt (ground arith))
                          | inr new ↦ or_true _ (
                              range_jobs-logs env w.store from to b filters (ground arith)
                                (ground arith))
                        ]),
                      ),
                    )
                | inr t ↦ simp t (filters, (n, row, λ b gt lo. simp (any-append, cover b gt lo)))
              ])
      ]

  Covered-run :
      (envs : List IndexerEnv) (start : ℕ) (w : World Store)
      → Covered start w
      → Covered start (run_all envs w)
  Covered-run [] start w c = c
  Covered-run (env ∷ envs) start w c = Covered-run envs start _ (Covered-task env start w c)

  -- No block is left out: from a row at block `start`, with a subscription to event logs, after any
  -- number of runs of the indexer, whatever each of them meets outside (a locked row, a failing RPC,
  -- a block without data, a failing update), the row is at some block, and each block above `start`
  -- up to it lies in the range of a job that was handed at once to the queue for event logs.
  pub run_all-covers :
      (envs : List IndexerEnv) (start : ℕ) (w : World Store)
      → HasLogFilters w.store
      → last_indexed_block w.store chain ≡ some start
      → (n : ℕ) × (last_indexed_block (run_all envs w).store chain ≡ some n)
        × ((b : ℕ) → start < b → b ≤ n → any (logs_block chain b) (run_all envs w).effects ≡ true)
  run_all-covers envs start w filters row =
      (Covered-run envs start w (filters, (start, row, λ b gt le. absurd (omega arith)))).1

  -- `n` runs that get the same answers.
  abbrev pub runs : ℕ → IndexerEnv → World Store → World Store
  runs zero env w = w
  runs (suc n) env w = runs n env (chain_indexer_task P env chain max offset w).1

  -- If the row is not locked, the RPC tells the head and has its blocks, and the update is taken,
  -- then runs of the indexer bring a row at or below the head less the offset to exactly that block,
  -- once their number times the greatest range covers the distance.
  pub runs-reach :
      (env : IndexerEnv) (head : ℕ)
      → env.is_locked chain ≡ false
      → env.block_number chain ≡ ok head
      → ((b : ℕ) → env.has_block chain b ≡ ok true)
      → env.takes_update chain ≡ true
      → (n from : ℕ) (w : World Store) → last_indexed_block w.store chain ≡ some from
      → from ≤ head - offset
      → head - offset ≤ from + n * max
      → last_indexed_block (runs n env w).store chain ≡ some (head - offset)
  unfolding to_block
  runs-reach env head l h found takes zero from w row le ge = row ∙ ap some (omega arith)
  runs-reach env head l h found takes (suc n) from w row le ge =
      elim (Bool-cases (leb (to_block head offset from max) from)) [
        | inl idle ↦
            rw (runs, chain_indexer_task-idle P env chain max offset w from head row h idle)
              (runs-reach env head l h found takes n from w row le (ground arith))
        | inr more ↦
            rw
              (
                runs,
                chain_indexer_task-advances P env chain max offset w from head l row h
                    (ground arith) (found _) takes,
              )
              (runs-reach env head l h found takes n (to_block head offset from max) _
                (simp (last_indexed_block-upsert, ==-refl chain)) (ground arith) (ground arith))
      ]
