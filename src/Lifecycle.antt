-- ===== src/Lifecycle.antt =====
-- What the workers make of a well-formed transaction of a wallet: src/utils/transaction/types.ts, with
-- the results of src/worker/tasks/sendTransactionWorker.ts and mineTransactionWorker.ts.
use thirdweb_engine.Base.{ℕ, ◌≡◌, false, arith}
use thirdweb_engine.Base.Int.{ℤ}
use thirdweb_engine.Transaction.{Transaction, queued, sent, Hex}
use thirdweb_engine.Transaction.WellFormed.{IsWellFormed}
use thirdweb_engine.Redis.{Redis}
use thirdweb_engine.Engine.{Populated}
use thirdweb_engine.Env.{Env, Receipt}
use thirdweb_engine.SendWorker.{sent_transaction}
use thirdweb_engine.MineWorker.{mined_transaction, timed_out}

module _ (R : Redis) (env : Env) (t : Transaction) (is_eoa : t.inserted.is_user_op ≡ false)
    (formed : IsWellFormed t) where
  -- What a send makes of a well-formed queued transaction of a wallet has everything that a sent
  -- transaction must have.
  pub sent_transaction-IsWellFormed :
      (p : Populated) (n : ℤ) (hash : Hex) (block : ℕ)
      → t.status ≡ queued
      → IsWellFormed (sent_transaction R env t p n hash block)
  sent_transaction-IsWellFormed p n hash block st =
      simp is_eoa (ground (arith, simp (st, is_eoa) at formed))

  -- What a receipt makes of a well-formed sent transaction of a wallet has everything that a mined
  -- transaction must have, and what a timeout makes of it everything that an errored one must have.
  pub mined_transaction-IsWellFormed :
      (receipt : Receipt)
      → t.status ≡ sent
      → IsWellFormed (mined_transaction env t receipt) × IsWellFormed (timed_out R env t)
  unfolding mined_transaction
  mined_transaction-IsWellFormed receipt st =
      let demanded = simp (st, is_eoa) at formed in
      (simp is_eoa (ground (arith, demanded)), ground (arith, demanded))
