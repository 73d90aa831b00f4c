-- ===== src/NoncePool/Tokens.antt =====
-- How often a nonce stands among the recycled nonces, the sent ones and those that jobs hold, and how
-- the commands on those sets change that number.
use thirdweb_engine.Base.{
  ℕ, ◌+◌, ◌<◌, ◌≡◌, refl, Bool, true, false, not, List, [], ◌∷◌, ◌++◌, ◌&&◌, ◌||◌, arith, All,
  if◌then◌else◌,
}
use thirdweb_engine.Base.Int.{ℤ, ◌==ℤ◌, ==ℤ_iff, ==ℤ_comm}
use thirdweb_engine.Redis.Values.{
  Member, nonce, queue_id, member_eq, Value, absent, members, sorted, entries, has, discard, place,
  zadd_value, sadd_value, srem_value,
}
use thirdweb_engine.Cancel.{member_nonces}

-- How often `n` stands in a list.
unfoldable pub count : ℤ → List ℤ → ℕ
count n [] = 0
count n (m ∷ l) = (if m ==ℤ n then 1 else 0) + count n l

-- The list without the first `n`.
unfoldable pub erase : ℤ → List ℤ → List ℤ
erase n [] = []
erase n (m ∷ l) = if m ==ℤ n then l else m ∷ erase n l

unfoldable pub count_entries : ℤ → List (ℤ × Member) → ℕ
count_entries n [] = 0
count_entries n ((_, m) ∷ l) = (if member_eq m (nonce n) then 1 else 0) + count_entries n l

abbrev pub bit : Bool → ℕ
bit true = 1
bit false = 0

pub count-append : (n : ℤ) (xs ys : List ℤ) → count n (xs ++ ys) ≡ count n xs + count n ys
unfolding count
count-append n [] ys = omega arith
count-append n (x ∷ xs) ys = omega (arith, count-append n xs ys)

pub count-erase_self : (n : ℤ) (l : List ℤ) → 0 < count n l → count n (erase n l) + 1 ≡ count n l
unfolding count erase
count-erase_self n [] h = absurd (omega arith)
count-erase_self n (m ∷ l) h = ground (arith, count-erase_self n l)

pub count-erase_ne : (n k : ℤ) (l : List ℤ) → (n ==ℤ k) ≡ false → count k (erase n l) ≡ count k l
unfolding count erase
count-erase_ne n k [] h = refl
count-erase_ne n k (m ∷ l) h =
    ground (arith, count-erase_ne n k l h, ==ℤ_iff m n, ==ℤ_iff m k, ==ℤ_iff n k)

pub count-member_nonces :
    (n : ℤ) (l : List (ℤ × Member)) → count n (member_nonces l) ≡ count_entries n l
unfolding count count_entries
count-member_nonces n [] = refl
count-member_nonces n ((_, nonce m) ∷ l) = omega (arith, count-member_nonces n l)
count-member_nonces n ((_, queue_id _) ∷ l) = omega (arith, count-member_nonces n l)

-- Placing a member adds one of it, and discarding takes all of it.
count_entries-place :
    (lex : Member → Member → Bool) (n s : ℤ) (m : Member) (l : List (ℤ × Member))
    → count_entries n (place lex s m l)
      ≡ (if member_eq m (nonce n) then 1 else 0) + count_entries n l
unfolding count_entries place
count_entries-place lex n s m [] = refl
count_entries-place lex n s m (e ∷ l) = ground (arith, count_entries-place lex n s m l)

count_entries-discard :
    (n k : ℤ) (l : List (ℤ × Member))
    → count_entries k (discard (nonce n) l) ≡ (if n ==ℤ k then 0 else count_entries k l)
unfolding count_entries discard
count_entries-discard n k [] = ground arith
count_entries-discard n k ((s, nonce m) ∷ l) =
    ground (arith, count_entries-discard n k l, ==ℤ_iff m n, ==ℤ_iff m k, ==ℤ_iff n k)
count_entries-discard n k ((s, queue_id i) ∷ l) = ground (arith, count_entries-discard n k l)

abbrev pub is_nonce : Member → Bool
is_nonce (nonce _) = true
is_nonce (queue_id _) = false

-- The value is a sorted set of nonces, or there is none.
abbrev pub IsNonceList : Value → Type 0
IsNonceList absent = Unit
IsNonceList (sorted l) = All (λ e. is_nonce e.1 ≡ true) l
IsNonceList _ = ⊥

-- The value is a set, or there is none.
abbrev pub IsMemberSet : Value → Type 0
IsMemberSet absent = Unit
IsMemberSet (members _) = Unit
IsMemberSet _ = ⊥

IsNonceList-discard :
    (m : Member) (l : List (ℤ × Member))
    → All (λ e. is_nonce e.1 ≡ true) l
    → All (λ e. is_nonce e.1 ≡ true) (discard m l)
unfolding discard
IsNonceList-discard m [] h = tt
IsNonceList-discard m (e ∷ l) h = ground (arith, IsNonceList-discard m l h.1)

IsNonceList-place :
    (lex : Member → Member → Bool) (s n : ℤ) (l : List (ℤ × Member))
    → All (λ e. is_nonce e.1 ≡ true) l
    → All (λ e. is_nonce e.1 ≡ true) (place lex s (nonce n) l)
unfolding place
IsNonceList-place lex s n [] h = (refl, tt)
IsNonceList-place lex s n (e ∷ l) h = ground (arith, IsNonceList-place lex s n l h.1)

pub zadd_value-IsNonceList :
    (lex : Member → Member → Bool) (s n : ℤ) (v : Value)
    → IsNonceList v
    → IsNonceList (zadd_value lex s (nonce n) v)
zadd_value-IsNonceList lex s n absent h = (refl, tt)
zadd_value-IsNonceList lex s n (sorted l) h =
    IsNonceList-place lex s n (discard (nonce n) l) (IsNonceList-discard (nonce n) l h)
zadd_value-IsNonceList lex s n _ h = absurd h

pub sadd_value-IsMemberSet : (m : Member) (v : Value) → IsMemberSet v → IsMemberSet (sadd_value m v)
sadd_value-IsMemberSet m absent h = tt
sadd_value-IsMemberSet m (members f) h = tt
sadd_value-IsMemberSet m _ h = absurd h

pub srem_value-IsMemberSet : (m : Member) (v : Value) → IsMemberSet v → IsMemberSet (srem_value m v)
srem_value-IsMemberSet m absent h = tt
srem_value-IsMemberSet m (members f) h = tt
srem_value-IsMemberSet m _ h = absurd h

-- ZADD of a nonce leaves exactly one of it.
pub count_entries-zadd_value :
    (lex : Member → Member → Bool) (n k s : ℤ) (v : Value)
    → IsNonceList v
    → count_entries k (entries (zadd_value lex s (nonce n) v))
      ≡ (if n ==ℤ k then 1 else count_entries k (entries v))
unfolding count_entries
count_entries-zadd_value lex n k s absent h = ground arith
count_entries-zadd_value lex n k s (sorted l) h = ground (
  arith,
  count_entries-place lex k s (nonce n) (discard (nonce n) l),
  count_entries-discard n k l,
)
count_entries-zadd_value lex n k s _ h = absurd h

pub has-sadd_value :
    (n k : ℤ) (v : Value)
    → IsMemberSet v
    → has (nonce k) (sadd_value (nonce n) v) ≡ ((n ==ℤ k) || has (nonce k) v)
has-sadd_value n k absent h = rw (==ℤ_comm n k) (ground arith)
has-sadd_value n k (members f) h = rw (==ℤ_comm n k)
has-sadd_value n k _ h = absurd h

pub has-srem_value :
    (n k : ℤ) (v : Value)
    → has (nonce k) (srem_value (nonce n) v) ≡ (not (n ==ℤ k) && has (nonce k) v)
has-srem_value n k (members f) = rw (==ℤ_comm n k)
has-srem_value n k _ = ground arith
