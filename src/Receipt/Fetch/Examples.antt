-- ===== src/Receipt/Fetch/Examples.antt =====
-- The logs of a wallet's call that is executed.
use go_sequence.Base.{◌≡◌, refl, List, [], ◌∷◌, none, some, true, replicate}
use go_sequence.Base.Bytes.{bytes_equal}
use go_sequence.Digest.{Hash}
use go_sequence.Receipt.{Log, Events, status_unknown, is_tx_executed_event}
use go_sequence.Receipt.Fetch.{
  fetch_loop, is_tx_failed_event, filter_meta_transaction_id, found_nonce_event,
}
use go_sequence.Receipt.Fetch.Found.{is_known, fetch_loop_iff}

abbrev events : Events
events = record {
  tx_failed_sig = 1 ∷ [];
  nonce_change_sig = 2 ∷ [];
  decode_failure = λ b. none;
  decode_nonces = λ b. some (0, 1);
  unpack_revert = λ b. none;
}

abbrev the_hash : Hash
the_hash = replicate 32 4

abbrev logs : List Log
logs =
    record { topics = (2 ∷ []) ∷ []; log_data = [] }
    ∷ record { topics = []; log_data = the_hash }
    ∷ []

accepted : filter_meta_transaction_id events the_hash logs ≡ true
unfolding filter_meta_transaction_id is_tx_executed_event is_tx_failed_event bytes_equal
accepted = refl

nonce_found : found_nonce_event events logs ≡ true
unfolding found_nonce_event bytes_equal
nonce_found = refl

fetch_loop_iff_example :
    is_known (fetch_loop events the_hash logs (status_unknown, [])).0
    ≡ filter_meta_transaction_id events the_hash logs
fetch_loop_iff_example = fetch_loop_iff events the_hash logs
