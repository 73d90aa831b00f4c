-- ===== src/Queries/Skipped.antt =====
-- Paging through the receipts by cursor: `getTransactionReceiptsByCursor` of
-- src/db/contractTransactionReceipts/getContractTransactionReceipts.ts.
use thirdweb_engine.Base.{
  ◌≡◌, refl, sym, ◌∙◌, ap, Bool, true, false, ◌&&◌, Option, String, some, List, [], ◌∷◌, ◌==◌, any,
  filter, take, arith, zero, suc, ℕ, Bool-cases, inl, inr,
}
use thirdweb_engine.Engine.{ok, err, Thrown, Result-cases, ok_inj, ok-ne-err}
use thirdweb_engine.Queries.{StoredReceipt}
use thirdweb_engine.Queries.Order.{last}
use thirdweb_engine.Queries.RoundTrip.{IsBase64, receipt_cursor_of-position}
use thirdweb_engine.Queries.Cursors.{
  Base64, ReceiptCursor, receipt_position, is_after_receipt_cursor, is_after_receipt, CursorQuery,
  receipt_matches, receipt_cursor_text, receipt_cursor_of, new_receipt_cursor,
  get_transaction_receipts_by_cursor,
}

-- Two receipts that were stored at the same time and are of the same block.
abbrev pub same_block : StoredReceipt → StoredReceipt → Bool
same_block l r =
    r.created_at == l.created_at
    && (r.receipt.chain_id == l.receipt.chain_id
        && r.receipt.block_number == l.receipt.block_number)

not-after :
    (l r : StoredReceipt)
    → is_after_receipt_cursor (receipt_position l) r ≡ true
    → same_block l r ≡ false
unfolding is_after_receipt_cursor
not-after l r h = ground (arith, h)

any-taken :
    (p q : StoredReceipt → Bool) (n : ℕ) (rs : List StoredReceipt)
    → ((r : StoredReceipt) → q r ≡ true → p r ≡ false)
    → any p (take n (filter q rs)) ≡ false
any-taken p q zero rs h = refl
any-taken p q (suc n) [] h = refl
any-taken p q (suc n) (r ∷ rs) h = elim (Bool-cases (q r)) [
  | inl y ↦ simp (y, h r y, any-taken p q n rs h)
  | inr f ↦ simp f (any-taken p q (suc n) rs h)
]

and_right : (a b : Bool) → (a && b) ≡ true → b ≡ true
and_right true b h = h
and_right false b h = cc

module _ (B : Base64) (good : IsBase64 B) where
  abbrev taken : CursorQuery → Option ReceiptCursor → List StoredReceipt → List StoredReceipt
  taken q c rows = take q.limit (filter (λ r. receipt_matches q r && is_after_receipt c r) rows)

  answer :
      (q : CursorQuery) (rows : List StoredReceipt) (c : Option ReceiptCursor)
      → receipt_cursor_of B q.cursor ≡ ok c
      → get_transaction_receipts_by_cursor B q rows
        ≡ ok (new_receipt_cursor B q.cursor (taken q c rows), taken q c rows)
  unfolding get_transaction_receipts_by_cursor
  answer q rows c h = rw h refl

  refused :
      (q : CursorQuery) (rows : List StoredReceipt) (e : Thrown)
      → receipt_cursor_of B q.cursor ≡ err e
      → get_transaction_receipts_by_cursor B q rows ≡ err e
  unfolding get_transaction_receipts_by_cursor
  refused q rows e h = rw h refl

  new_receipt_cursor-last :
      (cursor : Option String) (receipts : List StoredReceipt) (l : StoredReceipt)
      → last receipts ≡ some l
      → new_receipt_cursor B cursor receipts
        ≡ some (B.encode (receipt_cursor_text (receipt_position l)))
  unfolding new_receipt_cursor
  new_receipt_cursor-last cursor receipts l h = rw h refl

  -- The cursor of a page is that of its last receipt.
  cursor_of_page :
      (q : CursorQuery) (rows receipts : List StoredReceipt) (cursor : Option String)
      (l : StoredReceipt)
      → get_transaction_receipts_by_cursor B q rows ≡ ok (cursor, receipts)
      → last receipts ≡ some l
      → cursor ≡ some (B.encode (receipt_cursor_text (receipt_position l)))
  cursor_of_page q rows receipts cursor l page h =
      elim (Result-cases (receipt_cursor_of B q.cursor)) [
        | inr (e, k) ↦ absurd (ok-ne-err (sym (refused q rows e k) ∙ page))
        | inl (c, k) ↦
            let same = ok_inj (sym (answer q rows c k) ∙ page) in
            sym (ap (λ p. p.0) same)
            ∙ new_receipt_cursor-last q.cursor (taken q c rows) l (ap (λ p. last p.1) same ∙ h)
      ]

  -- When a page of receipts ends with `l`, the page that its cursor asks for, whatever was stored in
  -- between, has no receipt of the block of `l` that was stored at the same time.
  pub get_transaction_receipts_by_cursor-skips :
      (q next : CursorQuery) (rows later receipts more : List StoredReceipt)
      (after_more : Option String) (l : StoredReceipt)
      → get_transaction_receipts_by_cursor B q rows ≡ ok (next.cursor, receipts)
      → last receipts ≡ some l
      → get_transaction_receipts_by_cursor B next later ≡ ok (after_more, more)
      → any (same_block l) more ≡ false
  get_transaction_receipts_by_cursor-skips q next rows later receipts more after_more l page h
        page' =
      let cursor = cursor_of_page q rows receipts next.cursor l page h in
      let read : receipt_cursor_of B next.cursor ≡ ok (some (receipt_position l)) =
        rw cursor (receipt_cursor_of-position B good (receipt_position l)) in
      let same = ok_inj (sym (answer next later (some (receipt_position l)) read) ∙ page') in
      sym (ap (λ p. any (same_block l) p.1) same)
      ∙ any-taken (same_block l) _ next.limit later (λ r k. not-after l r (and_right _ _ k))
