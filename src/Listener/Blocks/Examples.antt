-- ===== src/Listener/Blocks/Examples.antt =====
-- A block with two native transactions, one of which changes a nonce and executes a meta transaction.
use go_sequence.Base.{◌≡◌, refl, ap, List, Option, get_elem?, [], ◌∷◌, none, some, true, replicate}
use go_sequence.Base.Bytes.{bytes_equal}
use go_sequence.Ethkit.StandIn.{stand_in}
use go_sequence.Digest.{Hash}
use go_sequence.Receipt.{
  Log, meta_txn_executed, meta_txn_failed, Events, decode_tx_failed_event, reason_of,
}
use go_sequence.Listener.{
  ReceiptResult, BlockOfReceipts, handle_receipts, populate_loop, populate_from, assign_receipt,
  enter_round, filled, push_receipts, find_past, find_in_block,
}
use go_sequence.Listener.Unfilled.{start, handled, find_past-unfilled}
use go_sequence.Listener.Blocks.{
  BlockLog, logs_of, contains, failed_result, tx_hashes, result_of, add_result, add_log, collect,
  receipts_of_tx, handle_block,
}
use go_sequence.Listener.Blocks.Collected.{results_in, results_of, collect-results_of}

abbrev the_id : Hash
the_id = replicate 32 7

abbrev events : Events
events = record {
  tx_failed_sig = 1 ∷ [];
  nonce_change_sig = 2 ∷ [];
  decode_failure = λ b. some (the_id, []);
  decode_nonces = λ b. some (0, 1);
  unpack_revert = λ b. some (33 ∷ []);
}

abbrev nonce_change : Log
nonce_change = record { topics = (2 ∷ []) ∷ []; log_data = [] }

abbrev failed : Log
failed = record { topics = (1 ∷ []) ∷ []; log_data = [] }

abbrev executed : Log
executed = record { topics = []; log_data = the_id }

abbrev the_block : List BlockLog
the_block =
    record { tx_hash = 5 ∷ []; log = nonce_change }
    ∷ record { tx_hash = 6 ∷ []; log = executed }
    ∷ record { tx_hash = 5 ∷ []; log = executed }
    ∷ record { tx_hash = 5 ∷ []; log = failed }
    ∷ []

abbrev the_receipt : ReceiptResult
the_receipt = record {
  meta_txn_id = replicate 30 7;
  results =
      record { status = meta_txn_executed; reason = [] }
      ∷ record { status = meta_txn_failed; reason = 33 ∷ [] }
      ∷ [];
  txn_receipt = none;
}

block_handled : handle_block events stand_in true the_block ≡ (5 ∷ [], the_receipt ∷ []) ∷ []
unfolding handle_block receipts_of_tx tx_hashes logs_of contains collect add_log add_result
    result_of failed_result decode_tx_failed_event reason_of bytes_equal
block_handled = refl

-- The receipt is the first one in the block's.
abbrev at_first : Option (Hash × BlockOfReceipts)
at_first = some (5 ∷ [], the_receipt ∷ [])

first_handled : get_elem? (handle_block events stand_in true the_block) 0 ≡ at_first
first_handled = ap (λ handed. get_elem? handed 0) block_handled

-- The receipts of the block, pushed after the native receipt was fetched.
abbrev the_past : List BlockOfReceipts
the_past = handle_receipts (some (9 ∷ [])) (the_receipt ∷ []) []

past_found : find_past the_past (replicate 30 7) ≡ some the_receipt
unfolding find_past find_in_block bytes_equal handle_receipts populate_loop populate_from
    assign_receipt enter_round filled push_receipts
past_found = refl

find_past-unfilled_example : the_receipt.txn_receipt ≡ none
find_past-unfilled_example =
    find_past-unfilled events stand_in the_past (replicate 30 7) the_receipt
      (handled [] true the_block 0 (5 ∷ []) (the_receipt ∷ []) (some (9 ∷ [])) start first_handled)
      past_found

collect-results_of_example :
    results_in the_id (collect events stand_in [] (nonce_change ∷ executed ∷ failed ∷ []))
    ≡ results_of events the_id (nonce_change ∷ executed ∷ failed ∷ [])
collect-results_of_example =
    collect-results_of events stand_in the_id (nonce_change ∷ executed ∷ failed ∷ [])
