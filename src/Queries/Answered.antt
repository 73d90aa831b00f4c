-- ===== src/Queries/Answered.antt =====
-- What the route of event logs by block answers: getContractEventLogs.ts of
-- src/server/routes/contract/events/.
use thirdweb_engine.Base.{ℕ, zero, suc, ◌+◌, ◌≤◌, ◌≡◌, Option, none, some}
use thirdweb_engine.Base.Text.{to_lower}
use thirdweb_engine.Delivery.Schemas.{EventLogSchema}
use thirdweb_engine.Queries.Routes.{BlockParams}

-- A bound that is there and is not 0 is no lower than the first block, and at most 100 above it.
abbrev pub IsRange : ℕ → Option ℕ → Type 0
IsRange from none = Unit
IsRange from (some zero) = Unit
IsRange from (some (suc to)) = (from ≤ suc to) × (suc to ≤ from + 100)

-- Up to the bound.
abbrev pub IsUpTo : Option ℕ → ℕ → Type 0
IsUpTo none n = Unit
IsUpTo (some zero) n = Unit
IsUpTo (some (suc b)) n = n ≤ suc b

-- A log that a request may be answered with.
abbrev pub IsAsked : BlockParams → ℕ → EventLogSchema → Type 0
IsAsked p chain l =
    (l.chain_id ≡ chain)
    × (l.contract_address ≡ to_lower p.contract_address)
    × (p.from_block ≤ l.block_number)
    × IsUpTo p.to_block l.block_number
