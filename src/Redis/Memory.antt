-- ===== src/Redis/Memory.antt =====
-- A store that keeps a list of its keys beside their values: every law of `Redis` holds of it.
use thirdweb_engine.Base.{
  ◌≡◌, refl, Bool, true, false, String, List, [], ◌∷◌, any, All, str_eq, eq_iff, arith,
  if◌then◌else◌,
}
use thirdweb_engine.Redis.{Redis}
use thirdweb_engine.Redis.Values.{
  Key, key_eq, key_eq-key_prefix, key_prefix, Value, absent, Member, nonce, queue_id, exists,
  incr_value, sadd_value, srem_value, zadd_value, zpopmin_value, drop_oldest, lpush_value,
  ltrim_value,
}

-- An association list, newest first.
abbrev pub Store : Type 0
Store = List (Key × Value)

unfoldable pub at : Store → Key → Value
at [] j = absent
at ((k, v) ∷ s) j = if key_eq j k then v else at s j

unfoldable pub keys : Store → String → List Key
keys [] p = []
keys ((k, v) ∷ s) p = if str_eq (key_prefix k) p then k ∷ keys s p else keys s p

pub keys_sound : (s : Store) (p : String) → All (λ k. key_prefix k ≡ p) (keys s p)
unfolding keys
keys_sound [] p = tt
keys_sound ((k, v) ∷ s) p = ground (arith, keys_sound s p, eq_iff (key_prefix k) p)

pub keys_complete :
    (s : Store) (k : Key) → exists (at s k) ≡ true → any (key_eq k) (keys s (key_prefix k)) ≡ true
unfolding at keys
keys_complete [] k h = cc
keys_complete ((j, v) ∷ s) k h =
    ground (arith, keys_complete s k, key_eq-key_prefix k j, eq_iff (key_prefix j) (key_prefix k))

-- The order of two members' texts: nonces before queue IDs, and no order among those.
abbrev pub lex : Member → Member → Bool
lex (nonce _) (queue_id _) = true
lex _ _ = false

unfoldable pub write : Store → Key → Value → Store
write s k v = (k, v) ∷ s

pub at-write :
    (s : Store) (k j : Key) (v : Value) → at (write s k v) j ≡ (if key_eq j k then v else at s j)
unfolding at write
at-write s k j v = refl

abbrev pub memory : Redis
memory = record {
  Store = Store;
  at = at;
  set = write;
  at-set = at-write;
  del = λ s k. write s k absent;
  at-del = λ s k j. at-write s k j absent;
  incr = λ s k. write s k (incr_value (at s k));
  at-incr = λ s k j. at-write s k j _;
  sadd = λ s k m. write s k (sadd_value m (at s k));
  at-sadd = λ s k j m. at-write s k j _;
  srem = λ s k m. write s k (srem_value m (at s k));
  at-srem = λ s k j m. at-write s k j _;
  lex = lex;
  zadd = λ s k c m. write s k (zadd_value lex c m (at s k));
  at-zadd = λ s k j c m. at-write s k j _;
  zpopmin = λ s k. write s k (zpopmin_value (at s k));
  at-zpopmin = λ s k j. at-write s k j _;
  zremrange = λ s k n. write s k (drop_oldest n (at s k));
  at-zremrange = λ s k j n. at-write s k j _;
  lpush = λ s k x. write s k (lpush_value x (at s k));
  at-lpush = λ s k j x. at-write s k j _;
  ltrim = λ s k n. write s k (ltrim_value n (at s k));
  at-ltrim = λ s k j n. at-write s k j _;
  keys = keys;
  keys_sound = keys_sound;
  keys_complete = keys_complete;
}
