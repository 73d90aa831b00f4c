-- ===== src/Block.antt =====
-- The latest block number: src/utils/block.ts.
use thirdweb_engine.Base.{ℕ, Option, some}
use thirdweb_engine.Base.Int.{pos, ℤ}
use thirdweb_engine.Redis.{Redis}
use thirdweb_engine.Redis.Values.{latest_block, number, get_number}
use thirdweb_engine.Engine.{
  Task, Result, ok, error, pure, lift, gets, modify, try_catch, ◌>>=◌, ◌>>◌,
}
use thirdweb_engine.Env.{Env}

-- Block numbers are not negative.
abbrev cached_block : Option ℤ → Result ℕ
cached_block (some (pos n)) = ok n
cached_block _ = error "Error getting latest block number."

module _ (R : Redis) (env : Env) where
  open R use {Store, at, set}

  -- The RPC's answer, which is cached, or else the cached block.
  unfoldable pub get_block_numberish : ℕ → Task Store ℕ
  get_block_numberish chain =
      try_catch (lift (env.block_number chain))
        (λ _. gets (λ s. get_number (at s (latest_block chain))) >>= λ cached.
          lift (cached_block cached))
        (λ n. modify (λ s. set s (latest_block chain) (number (pos n))) >> pure n)
