-- ===== src/Queries/RoundTrip.antt =====
-- Cursors and their texts: `getEventLogsByCursor` and
-- `getTransactionReceiptsByCursor`.
use thirdweb_engine.Base.{◌≡◌, refl, false, some, [], ◌∷◌, str_eq}
use thirdweb_engine.Base.Decimal.{
  number_text, parse_int-number_text, all_digits-number_text, split-digits, split-digits_alone,
}
use thirdweb_engine.Engine.{ok}
use thirdweb_engine.Queries.Cursors.{
  Base64, Cursor, ReceiptCursor, cursor_text, receipt_cursor_text, cursor_numbers,
  receipt_cursor_of,
}

cursor_numbers-receipt_cursor_text :
    (c : ReceiptCursor)
    → cursor_numbers (receipt_cursor_text c)
      ≡ (some c.created_at ∷ some c.chain_id ∷ some c.block_number ∷ some c.transaction_index ∷ [])
unfolding cursor_numbers receipt_cursor_text
cursor_numbers-receipt_cursor_text c =
    rw
      (
        split-digits (number_text c.created_at) _ (all_digits-number_text _),
        split-digits (number_text c.chain_id) _ (all_digits-number_text _),
        split-digits (number_text c.block_number) _ (all_digits-number_text _),
        split-digits_alone (number_text c.transaction_index) (all_digits-number_text _),
        parse_int-number_text c.created_at,
        parse_int-number_text c.chain_id,
        parse_int-number_text c.block_number,
        parse_int-number_text c.transaction_index,
      )
      refl

-- What is relied on of the package: a text of a cursor is read back, and is not empty in base 64.
pub record IsBase64 (B : Base64) : Type 0 where
  pub decode-encode : (c : Cursor) → B.decode (B.encode (cursor_text c)) ≡ ok (cursor_text c)
  pub encode_text : (c : Cursor) → str_eq (B.encode (cursor_text c)) "" ≡ false
  pub decode-encode_receipt :
      (c : ReceiptCursor) → B.decode (B.encode (receipt_cursor_text c)) ≡ ok (receipt_cursor_text c)
  pub encode_receipt_text :
      (c : ReceiptCursor) → str_eq (B.encode (receipt_cursor_text c)) "" ≡ false

module _ (B : Base64) (good : IsBase64 B) where
  pub receipt_cursor_of-position :
      (c : ReceiptCursor)
      → receipt_cursor_of B (some (B.encode (receipt_cursor_text c))) ≡ ok (some c)
  unfolding receipt_cursor_of
  receipt_cursor_of-position c =
      rw
        (
          good.encode_receipt_text c,
          good.decode-encode_receipt c,
          cursor_numbers-receipt_cursor_text c,
        )
        refl
