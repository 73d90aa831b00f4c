-- ===== src/Base/Decimal.antt =====
-- `String(n)`, `parseInt` and `split` on texts.
use Prim.Native.Char.{Char, code}
use Prim.Native.String
use Prim.Native.String.{String, [], ◌∷◌, char_at}
use Prim.Native.Nat.{ℕ, zero, suc, ◌+◌, ◌-◌, ◌*◌, ◌/◌, ◌%◌, ◌<◌}
use mathlib.Core.Bool.{Bool, true, false, not, ◌&&◌, ◌||◌}
use mathlib.Core.List.{List}
use mathlib.Core.Option.{Option, none, some, map}
use mathlib.Core.Path.{◌≡◌, refl, ap, ◌∙◌}
use native.Mathlib.Omega.{arith}
use mathlib.Core.Logic.{inl, inr}
use text.Mathlib.TextLemmas.{nil-append, cons-append}
use thirdweb_engine.Base.Int.{ℤ, pos, negsuc}
use thirdweb_engine.Base.Tests.{ltb, leb, ◌==◌, if◌then◌else◌, Bool-cases}

abbrev digit_char : ℕ → Char
digit_char d = char_at "0123456789" d

-- The digits of `n` before a text. The fuel is above `n`, which each round divides by ten.
emit : ℕ → ℕ → String → String
emit zero n out = out
emit (suc fuel) n out =
    let rest = emit fuel (n / 10) (digit_char (n % 10) ∷ out) in
    if ltb n 10 then digit_char n ∷ out else rest

-- The text of a number in a template.
unfoldable pub number_text : ℕ → String
unfolding emit
number_text n = emit (suc n) n []

-- The value of a letter or digit, which is a digit in a base above it.
unfoldable pub digit_value : Char → ℕ
digit_value c =
    let n = code c in
    if leb b'0' n && leb n b'9'
    then n - b'0'
    else if leb b'a' n && leb n b'z'
    then 10 + (n - b'a')
    else if leb b'A' n && leb n b'Z'
    then 10 + (n - b'A')
    else 36

scan : ℕ → ℕ → String → ℕ
scan base n [] = n
scan base n (c ∷ s) =
    let rest = scan base (n * base + digit_value c) s in
    if ltb (digit_value c) base then rest else n

unfoldable pub parse_digits : ℕ → String → Option ℕ
unfolding scan
parse_digits base [] = none
parse_digits base (c ∷ s) = if ltb (digit_value c) base then some (scan base 0 (c ∷ s)) else none

abbrev is_space : Char → Bool
is_space c = code c == 32 || (leb 9 (code c) && leb (code c) 13)

skip_space : String → String
skip_space [] = []
skip_space (c ∷ s) = let rest = skip_space s in if is_space c then rest else c ∷ s

abbrev skip_plus : String → String
skip_plus [] = []
skip_plus (c ∷ s) = if code c == b'+' then s else c ∷ s

-- What stands behind `0x`.
abbrev after_hex : String → Option String
after_hex (c ∷ d ∷ s) =
    if code c == b'0' && (code d == b'x' || code d == b'X') then some s else none
after_hex _ = none

-- `parseInt` of a text that has no minus sign. `none` stands for NaN.
unfoldable pub parse_int : String → Option ℕ
unfolding skip_space
parse_int s =
    let t = skip_plus (skip_space s) in
    elim (after_hex t) [ some h ↦ parse_digits 16 h | none ↦ parse_digits 10 t ]

abbrev negated : ℕ → ℤ
negated zero = pos 0
negated (suc n) = negsuc n

-- `parseInt` of the text behind a sign or without one
abbrev parse_unsigned : String → Option ℕ
parse_unsigned t = elim (after_hex t) [ some h ↦ parse_digits 16 h | none ↦ parse_digits 10 t ]

abbrev signed : String → Option ℤ
signed [] = none
signed (c ∷ t) =
    if code c == b'-'
    then map negated (parse_unsigned t)
    else map pos (parse_unsigned (skip_plus (c ∷ t)))

-- `parseInt`. `none` stands for NaN.
unfoldable pub parse_signed : String → Option ℤ
unfolding skip_space
parse_signed s = signed (skip_space s)

abbrev cons_first : Char → List String → List String
cons_first c List.[] = List.◌∷◌ (c ∷ []) List.[]
cons_first c (List.◌∷◌ s ss) = List.◌∷◌ (c ∷ s) ss

-- `s.split(c)`, for the code of a character
unfoldable pub split : ℕ → String → List String
split sep [] = List.◌∷◌ [] List.[]
split sep (c ∷ s) =
    let rest = split sep s in if code c == sep then List.◌∷◌ [] rest else cons_first c rest

-- A text of decimal digits.
abbrev pub all_digits : String → Bool
all_digits [] = true
all_digits (c ∷ s) = (leb b'0' (code c) && leb (code c) b'9') && all_digits s

-- A test that holds of each number below `k`, one after the other.
abbrev all_below : ℕ → (ℕ → Bool) → Bool
all_below zero p = true
all_below (suc k) p = p k && all_below k p

all_below_lem : (k : ℕ) (p : ℕ → Bool) (d : ℕ) → all_below k p ≡ true → d < k → p d ≡ true
all_below_lem zero p d h lt = absurd (omega arith)
all_below_lem (suc k) p d h lt = elim (Bool-cases (d == k)) [
  | inl same ↦ let e : d ≡ k = ground arith in rw e (ground (arith, h))
  | inr other ↦ all_below_lem k p d (ground (arith, h)) (ground arith)
]

code-digit_char : (d : ℕ) → d < 10 → code (digit_char d) ≡ b'0' + d
code-digit_char d h =
    ground (arith, all_below_lem 10 (λ e. code (digit_char e) == b'0' + e) d refl h)

digit_value-digit_char : (d : ℕ) → d < 10 → digit_value (digit_char d) ≡ d
unfolding digit_value
digit_value-digit_char d h = rw (code-digit_char d h) (ground arith)

all_digits-digit : (d : ℕ) (s : String) → d < 10 → all_digits (digit_char d ∷ s) ≡ all_digits s
all_digits-digit d s h = rw (code-digit_char d h) (ground arith)

all_digits-emit :
    (fuel n : ℕ) (out : String)
    → n < fuel
    → all_digits out ≡ true
    → all_digits (emit fuel n out) ≡ true
unfolding emit
all_digits-emit zero n out h k = absurd (omega arith)
all_digits-emit (suc fuel) n out h k = elim (Bool-cases (ltb n 10)) [
  | inl small ↦ rw small (all_digits-digit n out (ground arith) ∙ k)
  | inr big ↦ rw big (
      all_digits-emit fuel (n / 10) _ (ground arith)
        (all_digits-digit (n % 10) out (omega arith) ∙ k))
]

scan_digit :
    (n d m : ℕ) (s : String) → d < 10 → n * 10 + d ≡ m → scan 10 n (digit_char d ∷ s) ≡ scan 10 m s
unfolding scan
scan_digit n d m s h e = rw (digit_value-digit_char d h, e) (ground arith)

scan-emit : (fuel n : ℕ) (out : String) → n < fuel → scan 10 0 (emit fuel n out) ≡ scan 10 n out
unfolding emit
scan-emit zero n out h = absurd (omega arith)
scan-emit (suc fuel) n out h = elim (Bool-cases (ltb n 10)) [
  | inl small ↦ rw small (scan_digit 0 n n out (ground arith) (omega arith))
  | inr big ↦ rw big (
      scan-emit fuel (n / 10) _ (ground arith)
      ∙ scan_digit (n / 10) (n % 10) n out (omega arith) (omega arith))
]

is_text : String → Bool
is_text [] = false
is_text (_ ∷ _) = true

is_text-emit : (fuel n : ℕ) (out : String) → n < fuel → is_text (emit fuel n out) ≡ true
unfolding emit is_text
is_text-emit zero n out h = absurd (omega arith)
is_text-emit (suc fuel) n out h = elim (Bool-cases (ltb n 10)) [
  | inl small ↦ rw small refl
  | inr big ↦ rw big (is_text-emit fuel (n / 10) _ (ground arith))
]

parse_int_digits :
    (s : String) → is_text s ≡ true → all_digits s ≡ true → parse_int s ≡ some (scan 10 0 s)
unfolding parse_int skip_space parse_digits is_text digit_value
parse_int_digits [] h k = cc
parse_int_digits (c ∷ []) h k = ground (arith, k)
parse_int_digits (c ∷ d ∷ s) h k = ground (arith, k)

-- `parseInt` reads back the text of every number.
pub parse_int-number_text : (n : ℕ) → parse_int (number_text n) ≡ some n
unfolding number_text scan
parse_int-number_text n =
    parse_int_digits (number_text n) (is_text-emit (suc n) n [] (omega arith))
      (all_digits-emit (suc n) n [] (omega arith) refl)
    ∙ ap some (scan-emit (suc n) n [] (omega arith))

pub all_digits-number_text : (n : ℕ) → all_digits (number_text n) ≡ true
unfolding number_text
all_digits-number_text n = all_digits-emit (suc n) n [] (omega arith) refl

-- A text of digits is what stands before the first dash behind it.
pub split-digits :
    (s t : String)
    → all_digits s ≡ true
    → split b'-' (String.◌++◌ s (String.◌++◌ "-" t)) ≡ List.◌∷◌ s (split b'-' t)
unfolding split
split-digits [] t h = rw (nil-append, cons-append, nil-append) refl
split-digits (c ∷ s) t h =
    let (digit, digits) : ((leb b'0' (code c) && leb (code c) b'9') ≡ true)
        × (all_digits s ≡ true) =
      (ground (arith, h), ground (arith, h)) in
    let other : (code c == b'-') ≡ false = ground (arith, digit) in
    rw (cons-append c s _, split-digits s t digits, other) refl

pub split-digits_alone : (s : String) → all_digits s ≡ true → split b'-' s ≡ List.◌∷◌ s List.[]
unfolding split
split-digits_alone [] h = refl
split-digits_alone (c ∷ s) h =
    let (digit, digits) : ((leb b'0' (code c) && leb (code c) b'9') ≡ true)
        × (all_digits s ≡ true) =
      (ground (arith, h), ground (arith, h)) in
    let other : (code c == b'-') ≡ false = ground (arith, digit) in
    rw (split-digits_alone s digits, other) refl

-- A text without a dash.
abbrev pub no_dash : String → Bool
no_dash [] = true
no_dash (c ∷ s) = not (code c == b'-') && no_dash s

pub split-no_dash :
    (s t : String)
    → no_dash s ≡ true
    → split b'-' (String.◌++◌ s (String.◌++◌ "-" t)) ≡ List.◌∷◌ s (split b'-' t)
unfolding split
split-no_dash [] t h = rw (nil-append, cons-append, nil-append) refl
split-no_dash (c ∷ s) t h =
    let (other, rest) : ((code c == b'-') ≡ false) × (no_dash s ≡ true) =
      (ground (arith, h), ground (arith, h)) in
    rw (cons-append c s _, split-no_dash s t rest, other) refl

pub split-no_dash_alone : (s : String) → no_dash s ≡ true → split b'-' s ≡ List.◌∷◌ s List.[]
unfolding split
split-no_dash_alone [] h = refl
split-no_dash_alone (c ∷ s) h =
    let (other, rest) : ((code c == b'-') ≡ false) × (no_dash s ≡ true) =
      (ground (arith, h), ground (arith, h)) in
    rw (split-no_dash_alone s rest, other) refl
