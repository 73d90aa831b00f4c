-- ===== src/Queries/Pages.antt =====
-- Paging through the event logs by cursor: `getEventLogsByCursor` of
-- src/db/contractEventLogs/getContractEventLogs.ts.
use thirdweb_engine.Base.{
  ℕ, zero, suc, Bool, ◌&&◌, String, Option, none, List, [], ◌++◌, take, filter, is_empty,
  if◌then◌else◌,
}
use thirdweb_engine.Engine.{Result, ok, then_ok}
use thirdweb_engine.Queries.{StoredLog}
use thirdweb_engine.Queries.RoundTrip.{IsBase64}
use thirdweb_engine.Queries.Order.{Sorted}
use thirdweb_engine.Queries.Cursors.{
  Base64, Cursor, position, is_after_cursor, is_after, CursorQuery, matches, new_cursor,
  get_event_logs_by_cursor,
}

-- The row `r` comes after the row `l`.
abbrev pub after : StoredLog → StoredLog → Bool
after l r = is_after_cursor (position l) r

-- The rows of a table in the order of the query.
abbrev pub IsOrdered : List StoredLog → Type 0
IsOrdered = Sorted after

-- A client that asks for page after page, with the cursor of the page before, until one is empty.
abbrev pub read_pages : Base64 → ℕ → CursorQuery → List StoredLog → Result (List StoredLog)
read_pages B zero q rows = ok []
read_pages B (suc n) q rows = then_ok (get_event_logs_by_cursor B q rows) (λ p.
    let more = read_pages B n (record q { cursor = p.0 }) rows in
    if is_empty p.1 then ok [] else then_ok more (λ logs. ok (p.1 ++ logs)))

module _ (B : Base64) (good : IsBase64 B) where
  -- The cursor that stands behind some rows.
  abbrev cursor_behind : List StoredLog → Option String
  cursor_behind = new_cursor B none

  module _ (rows : List StoredLog) (ordered : IsOrdered rows) where
    -- The rows that a query with a cursor takes.
    abbrev taken : CursorQuery → Option Cursor → List StoredLog
    taken q c = take q.limit (filter (λ r. matches q r && is_after c r) rows)
