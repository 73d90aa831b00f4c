-- ===== src/Redis.antt =====
-- The Redis server that the program keeps its state in. It is a parameter: a store, the value at
-- each key, and the commands that the program sends, each with the equation that its documentation
-- states. A command that finds a value of another type fails and writes nothing. `Memory` is a store
-- of which the equations all hold.
pub mod Values
pub mod Memory
use thirdweb_engine.Base.{ℕ, ◌≡◌, Bool, true, String, List, any, All, if◌then◌else◌}
use thirdweb_engine.Base.Int.{ℤ}
use thirdweb_engine.Redis.Values.{
  Key, key_eq, key_prefix, Value, absent, Member, NonceState, exists, incr_value, sadd_value,
  srem_value, zadd_value, zpopmin_value, drop_oldest, lpush_value, ltrim_value,
}

-- Each law tells the value at every key after a command: the key written has the new value, and
-- every other key has what it had.
pub record Redis : Type 1 where
  pub Store : Type 0
  pub at : Store → Key → Value
  -- SET with a text
  pub set : Store → Key → Value → Store
  pub at-set :
      (s : Store) (k j : Key) (v : Value) → at (set s k v) j ≡ (if key_eq j k then v else at s j)
  pub del : Store → Key → Store
  pub at-del : (s : Store) (k j : Key) → at (del s k) j ≡ (if key_eq j k then absent else at s j)
  pub incr : Store → Key → Store
  pub at-incr :
      (s : Store) (k j : Key)
      → at (incr s k) j ≡ (if key_eq j k then incr_value (at s k) else at s j)
  pub sadd : Store → Key → Member → Store
  pub at-sadd :
      (s : Store) (k j : Key) (m : Member)
      → at (sadd s k m) j ≡ (if key_eq j k then sadd_value m (at s k) else at s j)
  pub srem : Store → Key → Member → Store
  pub at-srem :
      (s : Store) (k j : Key) (m : Member)
      → at (srem s k m) j ≡ (if key_eq j k then srem_value m (at s k) else at s j)
  -- the order of two members' texts
  pub lex : Member → Member → Bool
  pub zadd : Store → Key → ℤ → Member → Store
  pub at-zadd :
      (s : Store) (k j : Key) (c : ℤ) (m : Member)
      → at (zadd s k c m) j ≡ (if key_eq j k then zadd_value lex c m (at s k) else at s j)
  pub zpopmin : Store → Key → Store
  pub at-zpopmin :
      (s : Store) (k j : Key)
      → at (zpopmin s k) j ≡ (if key_eq j k then zpopmin_value (at s k) else at s j)
  -- ZREMRANGEBYRANK key 0 (-keep - 1)
  pub zremrange : Store → Key → ℕ → Store
  pub at-zremrange :
      (s : Store) (k j : Key) (n : ℕ)
      → at (zremrange s k n) j ≡ (if key_eq j k then drop_oldest n (at s k) else at s j)
  pub lpush : Store → Key → NonceState → Store
  pub at-lpush :
      (s : Store) (k j : Key) (x : NonceState)
      → at (lpush s k x) j ≡ (if key_eq j k then lpush_value x (at s k) else at s j)
  pub ltrim : Store → Key → ℕ → Store
  pub at-ltrim :
      (s : Store) (k j : Key) (n : ℕ)
      → at (ltrim s k n) j ≡ (if key_eq j k then ltrim_value n (at s k) else at s j)
  -- KEYS prefix*
  pub keys : Store → String → List Key
  pub keys_sound : (s : Store) (p : String) → All (λ k. key_prefix k ≡ p) (keys s p)
  pub keys_complete :
      (s : Store) (k : Key) → exists (at s k) ≡ true → any (key_eq k) (keys s (key_prefix k)) ≡ true
