-- ===== src/Base/Text.antt =====
-- `toLowerCase`, `includes` and the replacement of line breaks on texts. Only the letters A to Z have another lower case here: the
-- program lowers hexadecimal addresses and error messages.
use Prim.Native.Nat.{◌-◌}
use Prim.Native.Char.{Char, code}
use Prim.Native.String
use Prim.Native.String.{String, [], ◌∷◌, char_at}
use mathlib.Core.Bool.{Bool, false, ◌&&◌, ◌||◌}
use text.Mathlib.Text.{find?}
use thirdweb_engine.Base.Tests.{leb, ◌==◌, is_some, if◌then◌else◌}

lower_char : Char → Char
lower_char c =
    if leb b'A' (code c) && leb (code c) b'Z'
    then char_at "abcdefghijklmnopqrstuvwxyz" (code c - b'A')
    else c

infixr 65 ◌+++◌
abbrev pub ◌+++◌ : String → String → String
s +++ t = String.◌++◌ s t

-- `s.toLowerCase()`
unfoldable pub to_lower : String → String
unfolding lower_char
to_lower [] = []
to_lower (c ∷ s) = lower_char c ∷ to_lower s

-- `s.includes(t)`
abbrev pub includes : String → String → Bool
includes s t = is_some (find? s t)

abbrev is_line_break : Char → Bool
is_line_break c = code c == 10 || code c == 13

-- One character behind a line break or not, before the text that follows.
abbrev replaced : Bool → Char → String → String
replaced after_break c rest =
    if is_line_break c then if after_break then rest else String.◌++◌ " --- " rest else c ∷ rest

replace_from : Bool → String → String
replace_from after_break [] = []
replace_from after_break (c ∷ s) =
    let rest = replace_from (is_line_break c) s in replaced after_break c rest

-- `s.replace(/[\r\n]+/g, " --- ")`
unfoldable pub replace_line_breaks : String → String
unfolding replace_from
replace_line_breaks s = replace_from false s

-- `s.startsWith("*/")`
abbrev pub is_interval : String → Bool
is_interval (c ∷ d ∷ _) = code c == b'*' && code d == b'/'
is_interval _ = false
