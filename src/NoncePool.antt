-- ===== src/NoncePool.antt =====
-- The life of a wallet's nonces: which steps the workers make on them, from the moment a job acquires
-- a nonce to the moment the chain has used it. A nonce is held by a job, or recycled, or sent.
pub mod Tokens
pub mod Steps
pub mod Acquires
pub mod Runs
use thirdweb_engine.Base.{ℕ, ◌+◌, ◌≤◌, ◌<◌, ◌≡◌, Bool, true, String, List, ◌∷◌, ◌++◌, some}
use thirdweb_engine.Base.Int.{ℤ, pos, ◌<ℤ◌}
use thirdweb_engine.Transaction.{Address}
use thirdweb_engine.Redis.{Redis}
use thirdweb_engine.Redis.Values.{
  Wallet, last_used, recycled, sent_nonces, nonce, number, entries, has,
}
use thirdweb_engine.Engine.{World, ok}
use thirdweb_engine.Env.{Env}
use thirdweb_engine.Nonce.{
  wallet_key, acquire_nonce, add_sent_nonce, recycle_nonce, remove_sent_nonce,
  sync_latest_nonce_from_onchain_if_higher,
}
use thirdweb_engine.Cancel.{member_nonces, get_and_delete_recycled_nonces}
use Tokens.{count, count_entries, erase, bit, IsNonceList, IsMemberSet}

module _ (R : Redis) where
  open R use {Store, at}

  -- How many owners a nonce has, among the jobs that hold nonces, the recycled and the sent nonces.
  abbrev pub owners : Wallet → Store → List ℤ → ℤ → ℕ
  owners key s held n =
      count n held
      + (count_entries n (entries (at s (recycled key)))
          + bit (has (nonce n) (at s (sent_nonces key))))

  -- No nonce has two owners, and none above the counter has any.
  pub record IsPool (key : Wallet) (top : ℕ) (s : Store) (held : List ℤ) : Type 0 where
    pub counter : at s (last_used key) ≡ number (pos top)
    pub positive : 0 < top
    pub nonce_list : IsNonceList (at s (recycled key))
    pub member_set : IsMemberSet (at s (sent_nonces key))
    pub single : (n : ℤ) → owners key s held n ≤ 1
    pub bounded : (n : ℤ) → pos top <ℤ n → owners key s held n ≡ 0

  module _ (env : Env) (chain : ℕ) (from : Address) where
    abbrev pub key : Wallet
    key = wallet_key chain from

    -- One step of a worker on the wallet's nonces, with the nonces that jobs hold before and after.
    pub data Step (w : World Store) (held : List ℤ) (w' : World Store) (held' : List ℤ)
        : Type 0 where
      -- a job acquires a nonce
      acquires :
          (id : String) (n : ℤ) (flag : Bool)
          → acquire_nonce R env id chain from w ≡ (ok (n, flag), w')
          → held' ≡ n ∷ held
          → Step w held w' held'
      -- its transaction is sent
      sends :
          (n : ℤ)
          → 0 < count n held
          → w' ≡ (add_sent_nonce R key n w).1
          → held' ≡ erase n held
          → Step w held w' held'
      -- its transaction is not sent
      gives_back :
          (n : ℤ)
          → 0 < count n held
          → w' ≡ (recycle_nonce R key (some n) w).1
          → held' ≡ erase n held
          → Step w held w' held'
      -- its nonce is used onchain already
      drops :
          (n m : ℤ)
          → 0 < count n held
          → sync_latest_nonce_from_onchain_if_higher R env chain from w ≡ (ok m, w')
          → held' ≡ erase n held
          → Step w held w' held'
      -- a sent transaction is mined
      mines : (n : ℤ) → w' ≡ (remove_sent_nonce R key n w).1 → held' ≡ held → Step w held w' held'
      -- a sent transaction times out
      times_out :
          (n : ℤ)
          → has (nonce n) (at w.store (sent_nonces key)) ≡ true
          → w' ≡ (remove_sent_nonce R key n (recycle_nonce R key (some n) w).1).1
          → held' ≡ held
          → Step w held w' held'
      -- the worker that cancels recycled nonces takes them all
      takes_recycled :
          w' ≡ (get_and_delete_recycled_nonces R env (recycled key) w).1
          → held' ≡ member_nonces (entries (at w.store (recycled key))) ++ held
          → Step w held w' held'

    -- Any number of steps, of any jobs in any order.
    pub data Run (w : World Store) (held : List ℤ) : World Store → List ℤ → Type 0 where
      done : Run w held w held
      then :
          {w₁ w₂ : World Store} {h₁ h₂ : List ℤ}
          → Run w held w₁ h₁
          → Step w₁ h₁ w₂ h₂
          → Run w held w₂ h₂
