-- ===== src/Migration/Moved.antt =====
-- Which rows the worker moves: src/worker/tasks/migratePostgresTransactionsWorker.ts.
use thirdweb_engine.Base.{
  ℕ, ◌≡◌, refl, ◌∙◌, String, List, [], ◌∷◌, ◌++◌, is_empty, append_assoc, append-nil, if◌then◌else◌,
  inl, inr, map,
}
use thirdweb_engine.Transaction.{Transaction}
use thirdweb_engine.Redis.{Redis}
use thirdweb_engine.Engine.{
  World, Task, Result, ok, err, Effect, send_job, mine_job, cancel_rows, Result-cases,
}
use thirdweb_engine.TransactionDb.Stored.{put, set_transaction_lem}
use thirdweb_engine.Migration.{
  Row, to_queued_transaction, to_sent_transaction, migrate_sent, migrate_queued, migrate_rows,
  cancel_postgres_transactions, handle_migration,
}

-- A row and the transaction that it becomes.
abbrev pub Moved : Type 0
Moved = Row × Transaction

abbrev pub kept : Row → Result Transaction → List Moved
kept row (ok t) = (row, t) ∷ []
kept row (err _) = []

-- The rows that become a transaction.
abbrev pub moved : (Row → Result Transaction) → List Row → List Moved
moved convert [] = []
moved convert (row ∷ rows) = kept row (convert row) ++ moved convert rows

abbrev pub moved_ids : List Moved → List String
moved_ids = map (λ (m : Moved). m.0.id)

abbrev pub cancelling : List String → List Effect
cancelling ids = if is_empty ids then [] else cancel_rows ids ∷ []

module _ (R : Redis) (now : ℕ) where
  open R use {Store}

  -- The store after the transactions are set, one after the other.
  abbrev pub put_all : List Moved → Store → Store
  put_all [] s = s
  put_all ((_, t) ∷ ms) s = put_all ms (put R now t s)

  put_all-append :
      (xs ys : List Moved) (s : Store) → put_all (xs ++ ys) s ≡ put_all ys (put_all xs s)
  put_all-append [] ys s = refl
  put_all-append ((_, t) ∷ xs) ys s = put_all-append xs ys _

  -- What a round of a loop does.
  abbrev Migrates :
      (Row → Task Store (Unit {0})) → (Row → Result Transaction) → (String → Effect) → Type 0
  Migrates migrate convert job =
      (row : Row) (t : Transaction) (w : World Store)
      → convert row ≡ ok t
      → migrate row w ≡ (
        ok tt,
        record w { store = put R now t w.store; effects = w.effects ++ job t.queue_id ∷ [] },
      )

  Fails : (Row → Task Store (Unit {0})) → (Row → Result Transaction) → Type 0
  Fails migrate convert =
      (row : Row) (e : _) (w : World Store) → convert row ≡ err e → migrate row w ≡ (err e, w)

  module _ (migrate : Row → Task Store (Unit {0})) (convert : Row → Result Transaction)
      (job : String → Effect) (migrates : Migrates migrate convert job)
      (fails : Fails migrate convert) where
    migrate_rows_lem :
        (rows : List Row) (ids : List String) (w : World Store)
        → migrate_rows R now migrate rows ids w ≡ (
          ok (ids ++ moved_ids (moved convert rows)),
          record w {
            store = put_all (moved convert rows) w.store;
            effects = w.effects ++ map (λ (m : Moved). job m.1.queue_id) (moved convert rows);
          },
        )
    unfolding migrate_rows Fails
    migrate_rows_lem [] ids w = simp append-nil
    migrate_rows_lem (row ∷ rows) ids w = elim (Result-cases (convert row)) [
      | inl (t, e) ↦
          simp (e, migrates row t w e)
            (migrate_rows_lem rows (ids ++ row.id ∷ []) _ ∙ simp append_assoc)
      | inr (x, e) ↦ simp (e, fails row x w e) (migrate_rows_lem rows ids w)
    ]

  migrate_sent_lem : Migrates (migrate_sent R now) to_sent_transaction mine_job
  unfolding migrate_sent
  migrate_sent_lem row t w e = simp (e, set_transaction_lem)

  migrate_queued_lem : Migrates (migrate_queued R now) to_queued_transaction (λ id. send_job id 0)
  unfolding migrate_queued
  migrate_queued_lem row t w e = simp (e, set_transaction_lem)

  migrate_sent-Fails : Fails (migrate_sent R now) to_sent_transaction
  unfolding migrate_sent Fails
  migrate_sent-Fails row x w e = simp e

  migrate_queued-Fails : Fails (migrate_queued R now) to_queued_transaction
  unfolding migrate_queued Fails
  migrate_queued-Fails row x w e = simp e

  cancel_postgres_transactions_lem :
      (ids : List String) (w : World Store)
      → cancel_postgres_transactions R now ids w
        ≡ (ok tt, record w { effects = w.effects ++ cancelling ids })
  unfolding cancel_postgres_transactions
  cancel_postgres_transactions_lem [] w = simp append-nil
  cancel_postgres_transactions_lem (i ∷ ids) w = refl

  -- The migration succeeds whatever the rows are. The rows that become transactions, and no others,
  -- are stored in their order, get a mine job if they were sent and a send job if not, and are
  -- cancelled in Postgres, those that were sent before the queued ones are looked at.
  pub handle_migration_lem :
      (sent_rows queued_rows : List Row) (w : World Store)
      → let sent = moved to_sent_transaction sent_rows in
        let queued = moved to_queued_transaction queued_rows in
        handle_migration R now sent_rows queued_rows w ≡ (
          ok tt,
          record w {
            store = put_all queued (put_all sent w.store);
            effects =
                w.effects
                ++ map (λ (m : Moved). mine_job m.1.queue_id) sent
                ++ cancelling (moved_ids sent)
                ++ map (λ (m : Moved). send_job m.1.queue_id 0) queued
                ++ cancelling (moved_ids queued);
          },
        )
  unfolding handle_migration
  handle_migration_lem sent_rows queued_rows w = simp (
    migrate_rows_lem (migrate_sent R now) to_sent_transaction mine_job migrate_sent_lem
        migrate_sent-Fails,
    migrate_rows_lem (migrate_queued R now) to_queued_transaction (λ id. send_job id 0)
        migrate_queued_lem migrate_queued-Fails,
    cancel_postgres_transactions_lem,
    append_assoc,
  )
