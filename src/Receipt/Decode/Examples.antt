-- ===== src/Receipt/Decode/Examples.antt =====
-- Receipts of a bundle of two calls of which the first is executed.
use go_sequence.Base.{List, ℕ, ◌≡◌, ◌+◌, refl, ◌*◌, [], ◌∷◌, ◌++◌, none, some, false, take, length}
use go_sequence.Base.Bytes.{Bytes, bytes_equal, to_bytes, from_bytes}
use go_sequence.Base.Int.{pos}
use go_sequence.Base.Result.{ok}
use go_sequence.Ethkit.{Ethkit}
use go_sequence.Ethkit.StandIn.{stand_in}
use go_sequence.Digest.{
  Hash, pack_message_data, sub_digest, compute_meta_txn_id_from_digest, meta_txn_id_of,
}
use go_sequence.Transaction.{
  Transaction, transaction, zero_body, no_children, end, next, clone_children, is_bundle,
}
use go_sequence.Transaction.Encode.{
  Abi, encoded_transactions, compute_meta_txn_id, exec_digest, compute_wallet_exec_digest,
}
use go_sequence.Receipt.{
  Log, Status, receipt, Receipts, more, no_receipts, meta_txn_executed, meta_txn_reverted, Events,
  is_tx_executed_event, decode_tx_failed_event, decode_nonce_change_event,
}
use go_sequence.Receipt.Decode.{
  digest_type, outcome, failure_of, take_logs, take_nonce_change, after_nonce_change, all_consumed,
  decode_with, receipts_loop, decode_receipt,
}
use go_sequence.Receipt.Decode.Kept.{count, count_receipts, count-decode_receipt}
use go_sequence.Receipt.Decode.Logged.{AreEvents}
use go_sequence.Receipt.Decode.Order.{AreDealt, decode_receipt-AreDealt}

abbrev counting : Abi
counting = record {
  execute = λ ts n sig. ok (1 ∷ length ts ∷ sig);
  self_execute = λ ts. ok (2 ∷ length ts ∷ []);
  pack_nonce = λ n ts. ok (3 ∷ length ts ∷ []);
  pack_string = λ s ts. ok (4 ∷ length ts ∷ s);
}

-- A hexadecimal text of the right length.
abbrev writing : Ethkit
writing = record stand_in { hex_encode = λ b. 48 ∷ 120 ∷ (b ++ b) }

abbrev call : Transaction
call = transaction (record zero_body { to = 0xabc; data' = some [] }) no_children

abbrev the_hash : Hash
the_hash = take 32 (to_bytes 32 (3 * 256 + 2))

abbrev events : Events
events = record {
  tx_failed_sig = 1 ∷ [];
  nonce_change_sig = 2 ∷ [];
  decode_failure = λ b. none;
  decode_nonces = λ b. some (0, 1);
  unpack_revert = λ b. none;
}

abbrev nonce_change : Log
nonce_change = record { topics = (2 ∷ []) ∷ []; log_data = [] }

abbrev transfer : Log
transfer = record { topics = (7 ∷ []) ∷ []; log_data = 5 ∷ [] }

abbrev executed : Log
executed = record { topics = []; log_data = the_hash }

abbrev the_receipts : Receipts
the_receipts =
    more
      (receipt
        (record {
          meta_txn_id = the_hash ++ the_hash;
          status = meta_txn_executed;
          reason = [];
          logs = transfer ∷ [];
          index = 0;
          transaction = call;
          native = none;
        })
        no_receipts)
      (more
        (receipt
          (record {
            meta_txn_id = the_hash ++ the_hash;
            status = meta_txn_reverted;
            reason = [];
            logs = [];
            index = 1;
            transaction = call;
            native = none;
          })
          no_receipts)
        no_receipts)

decode_two :
    decode_receipt events counting writing
      (some 1)
      (nonce_change ∷ transfer ∷ executed ∷ [])
      (next call (next call end))
      (some (pos 0))
      0xabc
      false
    ≡ ok (nonce_change ∷ executed ∷ [], the_receipts)
unfolding decode_receipt decode_with receipts_loop compute_meta_txn_id exec_digest
    compute_wallet_exec_digest encoded_transactions compute_meta_txn_id_from_digest sub_digest
    pack_message_data meta_txn_id_of digest_type take_nonce_change after_nonce_change
    decode_nonce_change_event take_logs outcome failure_of is_tx_executed_event
    decode_tx_failed_event all_consumed to_bytes from_bytes clone_children is_bundle bytes_equal
decode_two = refl

abbrev length_of : Log → ℕ
length_of log = 1 + length log.log_data

count-decode_receipt_example :
    count length_of (nonce_change ∷ transfer ∷ executed ∷ [])
    ≡ count length_of (nonce_change ∷ executed ∷ []) + count_receipts length_of the_receipts
count-decode_receipt_example =
    count-decode_receipt events length_of counting writing (some 1)
      (nonce_change ∷ transfer ∷ executed ∷ []) (next call (next call end)) (some (pos 0)) 0xabc
      false decode_two

decode_receipt-AreDealt_example :
    (id : Bytes × Hash) × (compute_meta_txn_id counting writing
        (some 1)
        0xabc
        (next call (next call end))
        (some (pos 0))
        (digest_type (some (pos 0)) false)
      ≡ ok id)
    × (split : List Log × List Log) × (take_nonce_change events
          (digest_type (some (pos 0)) false)
          (nonce_change ∷ transfer ∷ executed ∷ [])
        ≡ ok split)
    × (os : List (Status × Bytes)) × AreEvents events id.1 split.1 os
    × AreDealt os the_receipts
decode_receipt-AreDealt_example =
    decode_receipt-AreDealt events counting writing (some 1)
      (nonce_change ∷ transfer ∷ executed ∷ []) (next call (next call end)) (some (pos 0)) 0xabc
      false decode_two
