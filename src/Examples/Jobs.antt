-- ===== src/Examples/Jobs.antt =====
-- The workers' jobs and the store of transactions, at concrete stores.
use thirdweb_engine.Base.{◌≡◌, refl, false, none, some, [], ◌∷◌}
use thirdweb_engine.Base.Int.{pos}
use thirdweb_engine.Base.Text.{to_lower}
use thirdweb_engine.Redis.Memory.{memory, at, write}
use thirdweb_engine.Redis.Values.{key_eq, wallet_eq, id_eq}
use thirdweb_engine.Engine.{World, ok, err, error, Populated}
use thirdweb_engine.Transaction.{Transaction, number, sent}
use thirdweb_engine.Errors.{
  is_nonce_already_used_error, is_replacement_gas_fee_too_low, parse_message, is_ethers_error_code,
  prettify_error, is_insufficient_funds_error,
}
use thirdweb_engine.Nonce.{
  wallet_key, acquire_nonce, acquire_recycled_nonce, fresh_nonce, incr_last_used, update_nonce_map,
}
use thirdweb_engine.SendWorker.{handle_send}
use thirdweb_engine.SendWorker.Prepare.{
  get_populated_or_errored_transaction, resend_request, populated,
}
use thirdweb_engine.SendWorker.Outcomes.{handle_send-refused, handle_send-sent, handle_send-lost}
use thirdweb_engine.SendWorker.Resends.{handle_send-resent}
use thirdweb_engine.MineWorker.{handle_mine, first_receipt}
use thirdweb_engine.MineWorker.Outcomes.{handle_mine-mined, handle_mine-waits}
use thirdweb_engine.Examples.Setup.{
  transaction, env, refusing, blockless, failure, sender, receipt, queued_one, sent_one, mined_one,
  holding,
}

-- What the queued transaction is sent as, and sent again as.
abbrev first_send : Populated
first_send = record {
  chain_id = 1;
  nonce = some (number (pos 1));
  to = some "0xb2";
  value = some 0;
  call_data = some "0x";
  fees = record {
    gas = none;
    gas_price = none;
    max_fee_per_gas = some 100;
    max_priority_fee_per_gas = some 2;
  };
}

abbrev second_send : Populated
second_send = record first_send { nonce = some (number (pos 5)) }

abbrev acquired : World (memory.Store)
acquired = (acquire_nonce memory env "q" 1 sender (holding queued_one)).1

is_prepared : get_populated_or_errored_transaction env queued_one ≡ populated first_send
unfolding get_populated_or_errored_transaction
is_prepared = refl

is_acquired :
    acquire_nonce memory env "q" 1 sender (holding queued_one) ≡ (ok (pos 5, false), acquired)
unfolding acquire_nonce acquire_recycled_nonce fresh_nonce incr_last_used update_nonce_map at write
    key_eq wallet_key wallet_eq id_eq to_lower
is_acquired = refl

handle_send-sent_example : (handle_send memory env "q" 0 (holding queued_one)).0 ≡ ok tt
unfolding at key_eq id_eq
handle_send-sent_example =
    (handle_send-sent memory env (holding queued_one) queued_one refl refl refl first_send
      is_prepared (pos 5) false acquired is_acquired refl 0 "0xnew" 100 refl refl).0

is_prepared_too : get_populated_or_errored_transaction refusing queued_one ≡ populated first_send
unfolding get_populated_or_errored_transaction
is_prepared_too = refl

is_acquired_too :
    acquire_nonce memory refusing "q" 1 sender (holding queued_one) ≡ (ok (pos 5, false), acquired)
unfolding acquire_nonce acquire_recycled_nonce fresh_nonce incr_last_used update_nonce_map at write
    key_eq wallet_key wallet_eq id_eq to_lower
is_acquired_too = refl

handle_send-refused_example :
    (handle_send memory refusing "q" 0 (holding queued_one)).0 ≡ err failure
unfolding at key_eq id_eq is_nonce_already_used_error is_replacement_gas_fee_too_low parse_message
    to_lower
handle_send-refused_example =
    (handle_send-refused memory refusing (holding queued_one) queued_one refl refl refl first_send
      is_prepared_too (pos 5) false acquired is_acquired_too refl 0 failure refl refl).0

is_prepared_blockless :
    get_populated_or_errored_transaction blockless queued_one ≡ populated first_send
unfolding get_populated_or_errored_transaction
is_prepared_blockless = refl

is_acquired-blockless :
    acquire_nonce memory blockless "q" 1 sender (holding queued_one) ≡ (ok (pos 5, false), acquired)
unfolding acquire_nonce acquire_recycled_nonce fresh_nonce incr_last_used update_nonce_map at write
    key_eq wallet_key wallet_eq id_eq to_lower
is_acquired-blockless = refl

handle_send-lost_example :
    (handle_send memory blockless "q" 0 (holding queued_one)).0
    ≡ error "Error getting latest block number."
unfolding acquire_nonce acquire_recycled_nonce fresh_nonce incr_last_used update_nonce_map at write
    key_eq wallet_key wallet_eq id_eq to_lower
handle_send-lost_example =
    (handle_send-lost memory blockless (holding queued_one) queued_one refl refl refl first_send
      is_prepared_blockless (pos 5) false acquired is_acquired-blockless refl 0 "0xnew" failure refl
      refl refl).0

handle_send-resent_example : (handle_send memory env "q" 1 (holding sent_one)).0 ≡ ok tt
unfolding at key_eq id_eq resend_request
handle_send-resent_example =
    (handle_send-resent memory env (holding sent_one) sent_one refl refl refl second_send refl refl
      1 "0xnew" 100 refl refl).0

is_pretty :
    prettify_error memory env mined_one failure (holding mined_one)
    ≡ (ok "insufficient funds", holding mined_one)
unfolding prettify_error is_insufficient_funds_error is_ethers_error_code parse_message to_lower
is_pretty = refl

-- A sent transaction whose second hash is in a block.
abbrev sent_twice : Transaction
sent_twice = transaction sent (some (number (pos 5))) (some ("0xold" ∷ "0xmined" ∷ "0xlast" ∷ []))

handle_mine-mined_example : (handle_mine memory env "q" (holding sent_twice)).0 ≡ ok tt
unfolding at key_eq id_eq
handle_mine-mined_example =
    (handle_mine-mined memory env (holding sent_twice) sent_twice refl refl refl (pos 5) refl
      ("0xold" ∷ []) ("0xlast" ∷ []) "0xmined" receipt refl ((_, refl), tt) refl).0

handle_mine-waits_example :
    (handle_mine memory env "q" (holding sent_one)).0 ≡ error "NOT_CONFIRMED_YET"
unfolding at key_eq id_eq first_receipt
handle_mine-waits_example =
    (handle_mine-waits memory env (holding sent_one) sent_one refl refl refl (pos 5) refl 100 refl
      refl).0
