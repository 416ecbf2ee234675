-- ===== src/Receipt/Native/Examples.antt =====
-- The receipts of a native transaction that carries one call.
use go_sequence.Base.{◌≡◌, refl, ◌+◌, [], ◌∷◌, ◌++◌, none, some, length}
use go_sequence.Base.Bytes.{bytes_equal, to_bytes, from_bytes}
use go_sequence.Base.Int.{pos}
use go_sequence.Base.Result.{Result, ok}
use go_sequence.Ethkit.{Ethkit}
use go_sequence.Ethkit.StandIn.{stand_in}
use go_sequence.Digest.{
  Hash, pack_message_data, sub_digest, compute_meta_txn_id_from_digest, meta_txn_id_of,
}
use go_sequence.Transaction.{transaction, zero_body, no_children, clone_children, is_bundle}
use go_sequence.Transaction.Encode.{
  encoded_transactions, compute_meta_txn_id, exec_digest, compute_wallet_exec_digest,
}
use go_sequence.Transaction.Decode.{
  decode_execdata, decode_on, decode_nested, with_execution, unpack_call,
}
use go_sequence.Transaction.Decode.StandIn.{one_abi, one_decoder}
use go_sequence.Receipt.{
  Log, NativeReceipt, receipt, Receipts, more, no_receipts, meta_txn_reverted, Events,
  is_tx_executed_event, decode_tx_failed_event, decode_nonce_change_event,
}
use go_sequence.Receipt.Decode.{
  digest_type, outcome, failure_of, take_logs, take_nonce_change, after_nonce_change, all_consumed,
  decode_with, receipts_loop, decode_receipt,
}
use go_sequence.Receipt.Decode.Kept.{count, count_receipts}
use go_sequence.Receipt.Native.{
  NativeTransaction, set_native_receipts, receiver, is_guest_execute, decode_native_receipt,
}
use go_sequence.Receipt.Native.Whole.{HaveNative, count-decode_native_receipt}

-- A hexadecimal text of the right length.
abbrev writing : Ethkit
writing = record stand_in { hex_encode = λ b. 48 ∷ 120 ∷ (b ++ b) }

abbrev events : Events
events = record {
  tx_failed_sig = 1 ∷ [];
  nonce_change_sig = 2 ∷ [];
  decode_failure = λ b. none;
  decode_nonces = λ b. some (0, 1);
  unpack_revert = λ b. none;
}

abbrev nonce_change : Log
nonce_change = record { topics = (2 ∷ []) ∷ []; log_data = [] }

abbrev transfer : Log
transfer = record { topics = (7 ∷ []) ∷ []; log_data = 5 ∷ [] }

abbrev sent : Hash → Result NativeTransaction
sent hash = ok (record {
  data' = 1 ∷ 0 ∷ 0 ∷ 0 ∷ 3 ∷ 1 ∷ 5 ∷ (0 ∷ 0 ∷ 0 ∷ 0xabc ∷ 0 ∷ 7 ∷ 8 ∷ []);
  to = some 0xdef;
  chain_id = some 1;
})

abbrev native_receipt : NativeReceipt
native_receipt = record { tx_hash = 9 ∷ []; native_logs = nonce_change ∷ transfer ∷ [] }

abbrev the_hash : Hash
the_hash = to_bytes 32 (from_bytes (0 ∷ 0 ∷ 0 ∷ 0xabc ∷ 0 ∷ 7 ∷ 8 ∷ []))

abbrev the_receipts : Receipts
the_receipts =
    more
      (receipt
        (record {
          meta_txn_id = the_hash ++ the_hash;
          status = meta_txn_reverted;
          reason = [];
          logs = transfer ∷ [];
          index = 0;
          transaction =
              transaction
                (record zero_body {
                  to = 0xabc;
                  value = some (pos 0);
                  gas_limit = some (pos 0);
                  data' = some (7 ∷ 8 ∷ []);
                })
                no_children;
          native = some native_receipt;
        })
        no_receipts)
      no_receipts

decoded :
    decode_native_receipt events one_abi one_decoder writing sent native_receipt
    ≡ ok (the_receipts, nonce_change ∷ [])
unfolding decode_native_receipt receiver is_guest_execute set_native_receipts decode_execdata
    decode_on decode_nested with_execution unpack_call decode_receipt decode_with receipts_loop
    compute_meta_txn_id exec_digest compute_wallet_exec_digest encoded_transactions
    compute_meta_txn_id_from_digest sub_digest pack_message_data meta_txn_id_of digest_type
    take_nonce_change after_nonce_change decode_nonce_change_event take_logs outcome failure_of
    is_tx_executed_event decode_tx_failed_event all_consumed to_bytes from_bytes clone_children
    is_bundle bytes_equal
decoded = refl

count-decode_native_receipt_example :
    HaveNative native_receipt the_receipts
    × (count (λ log. length log.log_data) (nonce_change ∷ transfer ∷ [])
        ≡ count (λ log. length log.log_data) (nonce_change ∷ [])
          + count_receipts (λ log. length log.log_data) the_receipts)
count-decode_native_receipt_example =
    count-decode_native_receipt events one_abi one_decoder writing sent native_receipt
      (λ log. length log.log_data) decoded
