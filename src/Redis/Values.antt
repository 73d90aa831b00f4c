-- ===== src/Redis/Values.antt =====
-- The keys that the program writes, and what Redis holds at a key.
use thirdweb_engine.Base.{
  ℕ, ◌≡◌, ◌↔◌, refl, Bool, true, false, String, Option, none, some, List, [], ◌∷◌, ◌&&◌, ◌||◌, ◌==◌,
  str_eq, if◌then◌else◌, not, eq_iff, arith, ◌-◌, take, drop, length,
}
use thirdweb_engine.Base.Int.{ℤ, pos, suc_ℤ, ◌==ℤ◌, ltb_ℤ, ==ℤ_iff}
use thirdweb_engine.Transaction.{Transaction, Address}

-- A backend wallet on a chain. The address of a key is in lower case.
pub record Wallet : Type 0 where
  pub chain_id : ℕ
  pub address : Address

pub data Key : Type 0 where
  last_used recycled sent_nonces nonce_map nonce_history : Wallet → Key
  details : String → Key
  queued_list mined_list cancelled_list errored_list : Key
  latest_block : ℕ → Key
  rate_limit : ℕ → Key

unfoldable pub wallet_eq : Wallet → Wallet → Bool
wallet_eq v w = v.chain_id == w.chain_id && str_eq v.address w.address

unfoldable pub id_eq : String → String → Bool
id_eq = str_eq

unfoldable pub key_eq : Key → Key → Bool
key_eq (last_used v) (last_used w) = wallet_eq v w
key_eq (recycled v) (recycled w) = wallet_eq v w
key_eq (sent_nonces v) (sent_nonces w) = wallet_eq v w
key_eq (nonce_map v) (nonce_map w) = wallet_eq v w
key_eq (nonce_history v) (nonce_history w) = wallet_eq v w
key_eq (details i) (details j) = id_eq i j
key_eq queued_list queued_list = true
key_eq mined_list mined_list = true
key_eq cancelled_list cancelled_list = true
key_eq errored_list errored_list = true
key_eq (latest_block m) (latest_block n) = m == n
key_eq (rate_limit m) (rate_limit n) = m == n
key_eq _ _ = false

-- The text of a key up to its first variable part: `nonce:` is also the text that
-- `redis.keys("nonce:*")` looks for.
abbrev pub key_prefix : Key → String
key_prefix (last_used _) = "nonce:"
key_prefix (recycled _) = "nonce-recycled:"
key_prefix (sent_nonces _) = "nonce-sent:"
key_prefix (nonce_map _) = "nonce-map:"
key_prefix (nonce_history _) = "nonce-history:"
key_prefix (details _) = "transaction:"
key_prefix queued_list = "transaction:queued"
key_prefix mined_list = "transaction:mined"
key_prefix cancelled_list = "transaction:cancelled"
key_prefix errored_list = "transaction:errored"
key_prefix (latest_block _) = "latestBlock:"
key_prefix (rate_limit _) = "rate-limit:global:"

-- A member of a set or a sorted set: a nonce in decimal, or a queue ID.
pub data Member : Type 0 where
  nonce : ℤ → Member
  queue_id : String → Member

abbrev pub member_eq : Member → Member → Bool
member_eq (nonce m) (nonce n) = m ==ℤ n
member_eq (queue_id i) (queue_id j) = str_eq i j
member_eq _ _ = false

-- One item of a nonce history.
pub record NonceState : Type 0 where
  pub onchain_nonce : ℤ
  pub largest_sent_nonce : ℤ

-- A sorted set is held in ascending order of its scores.
pub data Value : Type 0 where
  absent : Value
  number : ℤ → Value
  json : Transaction → Value
  members : (Member → Bool) → Value
  sorted : List (ℤ × Member) → Value
  history : List NonceState → Value

-- `parseInt(GET)`
abbrev pub get_number : Value → Option ℤ
get_number (number n) = some n
get_number _ = none

-- `superjson.parse(GET)`
abbrev pub get_json : Value → Option Transaction
get_json (json t) = some t
get_json _ = none

abbrev pub exists : Value → Bool
exists absent = false
exists _ = true

-- SISMEMBER
abbrev pub has : Member → Value → Bool
has m (members f) = f m
has m _ = false

-- ZRANGE key 0 -1 WITHSCORES
abbrev pub entries : Value → List (ℤ × Member)
entries (sorted l) = l
entries _ = []

-- LRANGE key 0 -1
abbrev pub items : Value → List NonceState
items (history l) = l
items _ = []

-- INCR: a missing key counts as 0; the value of any other type is left alone.
abbrev pub incr_value : Value → Value
incr_value absent = number (pos 1)
incr_value (number n) = number (suc_ℤ n)
incr_value v = v

-- SADD
abbrev pub sadd_value : Member → Value → Value
sadd_value m absent = members (λ x. member_eq x m)
sadd_value m (members f) = members (λ x. member_eq x m || f x)
sadd_value m v = v

-- SREM
abbrev pub srem_value : Member → Value → Value
srem_value m (members f) = members (λ x. not (member_eq x m) && f x)
srem_value m v = v

-- ZREMRANGEBYRANK key 0 (-keep - 1): all but the last `keep` items.
abbrev pub drop_oldest : ℕ → Value → Value
drop_oldest keep (sorted l) = sorted (drop (length l - keep) l)
drop_oldest keep v = v

-- LPUSH
abbrev pub lpush_value : NonceState → Value → Value
lpush_value x absent = history (x ∷ [])
lpush_value x (history l) = history (x ∷ l)
lpush_value x v = v

-- LTRIM key 0 (n - 1)
abbrev pub ltrim_value : ℕ → Value → Value
ltrim_value n (history l) = history (take n l)
ltrim_value n v = v

unfoldable pub discard : Member → List (ℤ × Member) → List (ℤ × Member)
discard m [] = []
discard m ((s, x) ∷ l) = if member_eq x m then discard m l else (s, x) ∷ discard m l

-- The order of two members with one score is that of their texts, which is a parameter.
unfoldable pub place : (Member → Member → Bool) → ℤ → Member → List (ℤ × Member) → List (ℤ × Member)
place lex s m [] = (s, m) ∷ []
place lex s m ((s', x) ∷ l) =
    if ltb_ℤ s s' || ((s ==ℤ s') && lex m x)
    then (s, m) ∷ (s', x) ∷ l
    else (s', x) ∷ place lex s m l

-- ZADD: a member that is there already gets the new score.
abbrev pub zadd_value : (Member → Member → Bool) → ℤ → Member → Value → Value
zadd_value lex s m absent = sorted ((s, m) ∷ [])
zadd_value lex s m (sorted l) = sorted (place lex s m (discard m l))
zadd_value lex s m v = v

-- ZPOPMIN: a sorted set that is left empty is gone.
abbrev pub zpopmin_value : Value → Value
zpopmin_value (sorted []) = absent
zpopmin_value (sorted (_ ∷ [])) = absent
zpopmin_value (sorted (_ ∷ l)) = sorted l
zpopmin_value v = v

pub member_eq_refl : (m : Member) → member_eq m m ≡ true
member_eq_refl (nonce n) = (==ℤ_iff n n).1 refl
member_eq_refl (queue_id i) = (eq_iff i i).1 refl

pub wallet_eq_refl : (w : Wallet) → wallet_eq w w ≡ true
unfolding wallet_eq
wallet_eq_refl w = ground (arith, eq_iff w.address w.address)

pub id_eq_refl : (i : String) → id_eq i i ≡ true
unfolding id_eq
id_eq_refl i = (eq_iff i i).1 refl

pub key_eq_refl : (k : Key) → key_eq k k ≡ true
unfolding key_eq
key_eq_refl (last_used w) = wallet_eq_refl w
key_eq_refl (recycled w) = wallet_eq_refl w
key_eq_refl (sent_nonces w) = wallet_eq_refl w
key_eq_refl (nonce_map w) = wallet_eq_refl w
key_eq_refl (nonce_history w) = wallet_eq_refl w
key_eq_refl (details i) = id_eq_refl i
key_eq_refl queued_list = refl
key_eq_refl mined_list = refl
key_eq_refl cancelled_list = refl
key_eq_refl errored_list = refl
key_eq_refl (latest_block n) = ground arith
key_eq_refl (rate_limit n) = ground arith

pub id_eq_iff : (i j : String) → (id_eq i j ≡ true) ↔ (i ≡ j)
unfolding id_eq
id_eq_iff i j = eq_iff i j

-- Equal keys are of one kind.
pub key_eq-key_prefix : (k j : Key) → key_eq k j ≡ true → key_prefix j ≡ key_prefix k
unfolding key_eq
key_eq-key_prefix (last_used v) (last_used w) h = refl
key_eq-key_prefix (recycled v) (recycled w) h = refl
key_eq-key_prefix (sent_nonces v) (sent_nonces w) h = refl
key_eq-key_prefix (nonce_map v) (nonce_map w) h = refl
key_eq-key_prefix (nonce_history v) (nonce_history w) h = refl
key_eq-key_prefix (details i) (details j) h = refl
key_eq-key_prefix queued_list queued_list h = refl
key_eq-key_prefix mined_list mined_list h = refl
key_eq-key_prefix cancelled_list cancelled_list h = refl
key_eq-key_prefix errored_list errored_list h = refl
key_eq-key_prefix (latest_block m) (latest_block n) h = refl
key_eq-key_prefix (rate_limit m) (rate_limit n) h = refl
key_eq-key_prefix _ _ h = cc
