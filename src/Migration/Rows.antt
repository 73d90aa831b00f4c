-- ===== src/Migration/Rows.antt =====
-- What the rows of Postgres become: src/worker/tasks/migratePostgresTransactionsWorker.ts.
use thirdweb_engine.Base.{
  ℕ, ◌≡◌, ◌≢◌, ◌∙◌, refl, true, false, some, if◌then◌else◌, is_some, Bool-cases, inl, inr,
}
use mathlib.Core.Path.{subst}
use thirdweb_engine.Transaction.{Transaction}
use thirdweb_engine.Transaction.WellFormed.{IsWellFormed}
use thirdweb_engine.Engine.{Result, ok, err, then_ok, ok_inj, ok-ne-err}
use thirdweb_engine.Migration.{
  Row, assert_text, assert_number, assert_date, is_given, to_queued_transaction, sent_user_op,
  sent_eoa, to_sent_transaction,
}

-- The result, if there is one, has a property.
abbrev pub Gives {ℓ} : {A : Type ℓ} → Result A → (A → Type 0) → Type 0
Gives (ok a) P = P a
Gives (err _) P = Unit

Gives-then {ℓ κ} :
    {A : Type ℓ} {B : Type κ} (r : Result A) (f : A → Result B) (P : B → Type 0)
    → ((a : A) → r ≡ ok a → Gives (f a) P)
    → Gives (then_ok r f) P
Gives-then (ok a) f P h = h a refl
Gives-then (err e) f P h = tt

Gives-ok {ℓ} : {A : Type ℓ} (r : Result A) (P : A → Type 0) (a : A) → Gives r P → r ≡ ok a → P a
Gives-ok (ok b) P a g e = subst P (ok_inj e) g
Gives-ok (err b) P a g e = absurd (ok-ne-err e)

-- A transaction with the value and the kind that its row tells.
abbrev FromRow : Row → Transaction → Type 0
FromRow row t =
    (is_some t.inserted.value ≡ true) × (t.inserted.is_user_op ≡ is_given row.account_address)

to_queued_transaction-FromRow : (row : Row) → Gives (to_queued_transaction row) (FromRow row)
unfolding to_queued_transaction
to_queued_transaction-FromRow row =
    Gives-then (assert_text row.from_address) _ (FromRow row)
      (λ from a. Gives-then (assert_text row.call_data) _ (FromRow row) (λ d b. (refl, refl)))

sent_user_op-IsWellFormed :
    (row : Row) (at block : ℕ) (t : Transaction)
    → is_some t.inserted.value ≡ true
    → t.inserted.is_user_op ≡ true
    → Gives (sent_user_op row at block t) IsWellFormed
sent_user_op-IsWellFormed row at block t v u =
    Gives-then (assert_text row.user_op_hash) _ IsWellFormed (λ h a. simp (v, u))

sent_eoa-IsWellFormed :
    (row : Row) (at block : ℕ) (t : Transaction)
    → is_some t.inserted.value ≡ true
    → t.inserted.is_user_op ≡ false
    → Gives (sent_eoa row at block t) IsWellFormed
sent_eoa-IsWellFormed row at block t v u =
    Gives-then (assert_text row.transaction_hash) _ IsWellFormed
      (λ h a. Gives-then (assert_number row.nonce) _ IsWellFormed (λ n b. simp (v, u)))

sent_or-IsWellFormed :
    (row : Row) (at block : ℕ) (t : Transaction)
    → is_some t.inserted.value ≡ true
    → Gives
        (if t.inserted.is_user_op then sent_user_op row at block t else sent_eoa row at block t)
        IsWellFormed
sent_or-IsWellFormed row at block t v = elim (Bool-cases t.inserted.is_user_op) [
  | inl u ↦ simp u (sent_user_op-IsWellFormed row at block t v u)
  | inr u ↦ simp u (sent_eoa-IsWellFormed row at block t v u)
]

-- Whatever a row of Postgres holds, if it becomes a queued or a sent transaction, then that has what
-- its status demands.
pub to_transaction-IsWellFormed :
    (row : Row)
    → Gives (to_queued_transaction row) IsWellFormed × Gives (to_sent_transaction row) IsWellFormed
unfolding to_queued_transaction to_sent_transaction
to_transaction-IsWellFormed row = (
  Gives-then (assert_text row.from_address) _ IsWellFormed
      (λ from a. Gives-then (assert_text row.call_data) _ IsWellFormed (λ d b. refl)),
  Gives-then (assert_date row.sent_at) _ IsWellFormed (λ at a.
      Gives-then (assert_number row.sent_at_block_number) _ IsWellFormed (λ block b.
        Gives-then (to_queued_transaction row) _ IsWellFormed (λ t e.
          sent_or-IsWellFormed row at block t
            (Gives-ok _ (FromRow row) t (to_queued_transaction-FromRow row) e).0))),
)

sent_eoa-first_nonce :
    (row : Row) (at block : ℕ) (t : Transaction)
    → row.nonce ≡ some 0
    → Gives (sent_eoa row at block t) (λ _. ⊥)
sent_eoa-first_nonce row at block t first =
    Gives-then (assert_text row.transaction_hash) _ (λ _. ⊥) (λ h a. simp first tt)

-- A row of a sent transaction of a wallet with the nonce 0 never becomes a transaction.
pub to_sent_transaction-first_nonce :
    (row : Row) (t : Transaction)
    → row.nonce ≡ some 0
    → is_given row.account_address ≡ false
    → to_sent_transaction row ≢ ok t
unfolding to_sent_transaction
to_sent_transaction-first_nonce row t first eoa =
    Gives-ok (to_sent_transaction row) (λ _. ⊥) t
      (Gives-then (assert_date row.sent_at) _ (λ _. ⊥)
        (λ at a.
          Gives-then (assert_number row.sent_at_block_number) _ (λ _. ⊥)
            (λ block b.
              Gives-then (to_queued_transaction row) _ (λ _. ⊥)
                (λ q e.
                  let kind : q.inserted.is_user_op ≡ false =
                    (Gives-ok _ (FromRow row) q (to_queued_transaction-FromRow row) e).1 ∙ eoa in
                  simp kind (sent_eoa-first_nonce row at block q first)))))
