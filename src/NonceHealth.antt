-- ===== src/NonceHealth.antt =====
-- The worker that tells whether a wallet's queue is stuck:
-- src/worker/tasks/nonceHealthCheckWorker.ts.
pub mod Stuck
use thirdweb_engine.Base.{
  ℕ, map, zero, suc, ◌++◌, drop, Bool, true, false, Option, none, some, List, [], ◌∷◌, ◌&&◌, take,
  length, ltb, if◌then◌else◌,
}
use thirdweb_engine.Base.Int.{ℤ, ◌==ℤ◌, ltb_ℤ, pred_ℕ}
use thirdweb_engine.Redis.{Redis}
use thirdweb_engine.Redis.Values.{Wallet, nonce_history, NonceState, items}
use thirdweb_engine.Engine.{Task, err, try_catch, pure, lift, gets, modify, ◌>>=◌, ◌>>◌}
use thirdweb_engine.Env.{Env}
use thirdweb_engine.Nonce.{inspect_nonce, wallet_key}
use thirdweb_engine.NonceDetails.{UsedWallet, get_used_backend_wallets}

abbrev pub check_periods : ℕ
check_periods = 3

-- `historicalStates.at(-1)`
abbrev pub oldest : List NonceState → Option NonceState
oldest [] = none
oldest (x ∷ []) = some x
oldest (_ ∷ xs) = oldest xs

-- The test of `every`: the onchain nonce is that of the oldest state, and each state but the oldest
-- has sent more than the one before it.
unfoldable pub stuck_from : ℤ → List NonceState → Bool
stuck_from onchain [] = true
stuck_from onchain (x ∷ []) = x.onchain_nonce ==ℤ onchain
stuck_from onchain (x ∷ y ∷ l) =
    (x.onchain_nonce ==ℤ onchain)
    && (ltb_ℤ y.largest_sent_nonce x.largest_sent_nonce && stuck_from onchain (y ∷ l))

-- `isQueueStuck` of the states, newest first.
unfoldable pub is_stuck : List NonceState → Bool
is_stuck states =
    if ltb (length states) check_periods
    then false
    else elim (oldest states) [ none ↦ true | some x ↦ stuck_from x.onchain_nonce states ]

abbrev pub batch_size : ℕ
batch_size = 500

-- What is logged of a wallet.
pub record Report : Type 0 where
  pub wallet : Wallet
  pub is_stuck : Bool
  pub state : NonceState

abbrev used_key : UsedWallet → Wallet
used_key (chain, address) = wallet_key chain address

module _ (R : Redis) (env : Env) where
  open R use {Store, at, lpush, ltrim}

  -- `getCurrentNonceState`
  unfoldable pub get_current_nonce_state : Wallet → Task Store NonceState
  get_current_nonce_state w = do
    count ← lift (env.transaction_count w.chain_id w.address)
    largest ← inspect_nonce R w
    pure (record { onchain_nonce = pred_ℕ count; largest_sent_nonce = largest })

  -- `updateNonceHistory`
  unfoldable pub update_nonce_history : Wallet → Task Store (Unit {0})
  update_nonce_history w = do
    state ← get_current_nonce_state w
    modify (λ s. ltrim (lpush s (nonce_history w) state) (nonce_history w) check_periods)

  -- `isQueueStuck`
  unfoldable pub is_queue_stuck : Wallet → Task Store Bool
  is_queue_stuck w = gets (λ s. is_stuck (take check_periods (items (at s (nonce_history w)))))

  -- The check of a wallet. The three promises of a wallet start together: the history is read at
  -- once, and written when the RPC has answered.
  unfoldable pub check_wallet : Wallet → Task Store Report
  check_wallet w = do
    stuck ← is_queue_stuck w
    update_nonce_history w
    state ← get_current_nonce_state w
    pure (record { wallet = w; is_stuck = stuck; state = state })

  -- `Promise.all` of a batch: every wallet is checked, and the first error is thrown.
  unfoldable pub check_batch : List Wallet → Task Store (List Report)
  check_batch [] = pure []
  check_batch (w ∷ ws) =
      let rest = check_batch ws in
      try_catch (check_wallet w) (λ e. rest >> lift (err e)) (λ r. rest >>= λ rs. pure (r ∷ rs))

  -- The loop of `handler` over the batches; the fuel bounds the number of rounds.
  unfoldable pub check_batches : ℕ → List Wallet → Task Store (List Report)
  check_batches zero ws = pure []
  check_batches (suc fuel) [] = pure []
  check_batches (suc fuel) (w ∷ ws) =
      let rest = check_batches fuel (drop batch_size (w ∷ ws)) in
      check_batch (take batch_size (w ∷ ws)) >>= λ rs. rest >>= λ more. pure (rs ++ more)

  -- `handler`
  unfoldable pub handle_nonce_health : Task Store (List Report)
  handle_nonce_health = do
    wallets ← gets (λ s. map used_key (get_used_backend_wallets R env none none s))
    check_batches (length wallets) wallets
