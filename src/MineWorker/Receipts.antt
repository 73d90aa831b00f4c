-- ===== src/MineWorker/Receipts.antt =====
-- Which receipt the mine worker takes: `_mineTransaction` of src/worker/tasks/mineTransactionWorker.ts.
use thirdweb_engine.Base.{Option, ℕ, ◌≡◌, some, none, List, [], ◌∷◌, All, inl, inr}
use mathlib.Core.List.{Mem, mem-cons_self, mem-cons_of_mem}
use thirdweb_engine.Transaction.{Hex}
use thirdweb_engine.Engine.{Thrown, ok, err, Result-cases}
use thirdweb_engine.Env.{Env, Receipt}
use thirdweb_engine.MineWorker.{first_receipt}

module _ (env : Env) (chain : ℕ) where
  -- What a receipt that is taken, or none, says of the RPC's answers for the hashes.
  abbrev pub IsAnswer : List Hex → Option Receipt → Type 0
  IsAnswer hashes (some receipt) =
      (hash : Hex) × Mem hash hashes × (env.transaction_receipt chain hash ≡ ok receipt)
  IsAnswer hashes none =
      All (λ hash. (e : Thrown) × (env.transaction_receipt chain hash ≡ err e)) hashes

  IsAnswer-cons :
      (hash : Hex) (hashes : List Hex) (e : Thrown) (found : Option Receipt)
      → env.transaction_receipt chain hash ≡ err e
      → IsAnswer hashes found
      → IsAnswer (hash ∷ hashes) found
  IsAnswer-cons hash hashes e (some receipt) failed (h, in_rest, same) =
      (h, mem-cons_of_mem hash in_rest, same)
  IsAnswer-cons hash hashes e none failed answer = ((e, failed), answer)

  -- A receipt that is taken is the RPC's answer for one of the hashes; and if none is taken, the
  -- request for every one of the hashes failed.
  pub first_receipt-IsAnswer :
      (hashes : List Hex) → IsAnswer hashes (first_receipt env chain hashes)
  unfolding first_receipt
  first_receipt-IsAnswer [] = tt
  first_receipt-IsAnswer (hash ∷ hashes) =
      elim (Result-cases (env.transaction_receipt chain hash)) [
        | inl (receipt, found) ↦ rw (first_receipt, found) (hash, mem-cons_self, found)
        | inr (e, failed) ↦
            rw (first_receipt, failed)
              (IsAnswer-cons hash hashes e _ failed (first_receipt-IsAnswer hashes))
      ]
