-- ===== src/Examples/Marked.antt =====
-- Texts with a mark in front, which take the place of base 64 in the examples.
use Prim.Native.String.{String, [], ◌∷◌, char_at}
use Prim.Native.Char.{Char}
use thirdweb_engine.Base.{◌≡◌, refl, false, str_eq, eq_iff, arith, Bool-cases, inl, inr}
use thirdweb_engine.Engine.{Result, ok, error}
use thirdweb_engine.Queries.Cursors.{Base64}
use thirdweb_engine.Queries.RoundTrip.{IsBase64}

abbrev decode_marked : String → Result String
decode_marked [] = error "empty"
decode_marked (_ ∷ s) = ok s

abbrev pub marked : Base64
marked = record { encode = λ s. char_at "=" 0 ∷ s; decode = decode_marked }

cons-ne-nil : (c : Char) (s : String) → (c ∷ s) ≡ [] → ⊥
cons-ne-nil c s h = cc

cons_text : (c : Char) (s : String) → str_eq (c ∷ s) [] ≡ false
cons_text c s = elim (Bool-cases (str_eq (c ∷ s) [])) [
  | inl y ↦ absurd (cons-ne-nil c s (ground (arith, y, eq_iff (c ∷ s) [])))
  | inr n ↦ n
]

pub marked-IsBase64 : IsBase64 marked
marked-IsBase64 = record {
  decode-encode = λ c. refl;
  encode_text = λ c. cons_text _ _;
  decode-encode_receipt = λ c. refl;
  encode_receipt_text = λ c. cons_text _ _;
}
