-- ===== src/Examples/Nonces.antt =====
-- The nonces of a wallet, at concrete stores.
use thirdweb_engine.Base.{ℕ, ◌≡◌, refl, false, [], ◌∷◌, arith}
use thirdweb_engine.Base.Int.{ℤ, pos}
use thirdweb_engine.Base.Text.{to_lower}
use thirdweb_engine.Redis.Memory.{memory, Store, at, write, keys}
use thirdweb_engine.Redis.Values
use thirdweb_engine.Redis.Values.{
  key_eq, wallet_eq, last_used, sent_nonces, recycled, entries, nonce, has, absent, NonceState,
}
use thirdweb_engine.Engine.{World, ok}
use thirdweb_engine.Nonce.{
  wallet_key, acquire_nonce, acquire_recycled_nonce, fresh_nonce, incr_last_used, update_nonce_map,
}
use thirdweb_engine.Nonce.Acquire.{acquire_nonce-recycled, acquire_nonce-next}
use thirdweb_engine.NonceReset.{reset_nonces}
use thirdweb_engine.NonceReset.Counters.{reset_nonces_lem}
use thirdweb_engine.NoncePool.{IsPool, Run, done, then, acquires}
use thirdweb_engine.NoncePool.Tokens.{count, count_entries}
use thirdweb_engine.NoncePool.Runs.{Run-IsPool, acquires_unused}
use thirdweb_engine.NonceResync.{recycle_missing}
use thirdweb_engine.NonceResync.Missing.{recycle_missing_lem}
use thirdweb_engine.Examples.Setup.{env, sender, wallet, counted, recycling}

acquire_nonce-recycled_example :
    (acquire_nonce memory env "q" 1 sender recycling).0 ≡ ok (pos 3, false)
unfolding at key_eq wallet_key wallet_eq to_lower
acquire_nonce-recycled_example =
    (acquire_nonce-recycled memory env "q" 1 sender recycling (pos 3) (pos 3) [] refl).0

acquire_nonce-next_example : (acquire_nonce memory env "q" 1 sender counted).0 ≡ ok (pos 5, false)
unfolding at key_eq wallet_key wallet_eq to_lower
acquire_nonce-next_example = (acquire_nonce-next memory env "q" 1 sender counted 3 refl refl).0

counted-IsPool : IsPool memory (wallet_key 1 sender) 4 counted.store []
unfolding at key_eq wallet_key wallet_eq to_lower count count_entries
counted-IsPool = record {
  counter = refl;
  positive = omega arith;
  nonce_list = tt;
  member_set = tt;
  single = λ n. omega arith;
  bounded = λ n b. refl;
}

abbrev acquired : World Store
acquired = (acquire_nonce memory env "q" 1 sender counted).1

first_acquired : acquire_nonce memory env "q" 1 sender counted ≡ (ok (pos 5, false), acquired)
unfolding acquire_nonce acquire_recycled_nonce fresh_nonce incr_last_used update_nonce_map at write
    key_eq wallet_key wallet_eq to_lower
first_acquired = refl

one_acquired : Run memory env 1 sender counted [] acquired (pos 5 ∷ [])
one_acquired = then done (acquires "q" (pos 5) false first_acquired refl)

Run-IsPool_example : (top : ℕ) × IsPool memory (wallet_key 1 sender) top acquired.store (pos 5 ∷ [])
Run-IsPool_example =
    Run-IsPool memory env 1 sender counted [] acquired (pos 5 ∷ []) 4 counted-IsPool one_acquired

acquires_unused_example :
    (count (pos 5) [] ≡ 0)
    × (count_entries (pos 5) (entries (at acquired.store (recycled (wallet_key 1 sender)))) ≡ 0)
    × (has (nonce (pos 5)) (at acquired.store (sent_nonces (wallet_key 1 sender))) ≡ false)
acquires_unused_example =
    acquires_unused memory env 1 sender counted [] counted [] 4 "q" (pos 5) false acquired
      counted-IsPool done first_acquired

reset_nonces_lem_example :
    at (reset_nonces memory env recycling).1.store (last_used wallet) ≡ Values.number (pos 4)
unfolding keys to_lower at key_eq wallet_eq
reset_nonces_lem_example = (reset_nonces_lem memory env wallet 5 recycling (refl, tt) refl refl).1

abbrev state : ℤ → ℤ → NonceState
state onchain largest = record { onchain_nonce = onchain; largest_sent_nonce = largest }

recycle_missing_lem_example : (recycle_missing memory wallet 2 5 recycling).0 ≡ ok tt
unfolding at key_eq wallet_eq
recycle_missing_lem_example = (recycle_missing_lem memory wallet 2 5 recycling (refl, tt)).0
