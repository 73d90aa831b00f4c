-- ===== src/Transaction/WellFormed.antt =====
-- What the type of each status demands of a transaction: src/utils/transaction/types.ts.
use thirdweb_engine.Base.{◌≡◌, Bool, true, false, Option, some, is_some, ◌&&◌}
use thirdweb_engine.Transaction.{
  Transaction, Status, queued, sent, mined, cancelled, errored, Nonce, number, text,
}

abbrev is_number : Option Nonce → Bool
is_number (some (number _)) = true
is_number _ = false

abbrev is_text : Option Nonce → Bool
is_text (some (text _)) = true
is_text _ = false

-- The two alternatives of `SentTransaction`, by `isUserOp`.
abbrev has_send : Bool → Transaction → Bool
has_send true t = is_text t.nonce && is_some t.user_op_hash
has_send false t = is_number t.nonce && is_some t.sent_transaction_hashes

abbrev was_sent : Transaction → Bool
was_sent t = is_some t.sent_at && is_some t.sent_at_block && has_send t.inserted.is_user_op t

abbrev demands : Status → Transaction → Bool
demands queued t = is_some t.inserted.value
demands sent t = is_some t.inserted.value && was_sent t
demands mined t = is_some t.inserted.value && was_sent t && is_some t.mined_details
demands cancelled t = is_some t.inserted.value && was_sent t && is_some t.cancelled_at
demands errored t = is_some t.inserted.value && is_some t.error_message

-- The object has every property that the type of its status demands.
abbrev pub IsWellFormed : Transaction → Type 0
IsWellFormed t = demands t.status t ≡ true
