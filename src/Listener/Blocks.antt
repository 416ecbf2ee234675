-- ===== src/Listener/Blocks.antt =====
-- `handleBlock` of legacy_receipt_listener.go: the receipts in the logs of a block. A Go map is an
-- association list here, in the order in which its keys came in; the code goes through it in any order.
pub mod Collected
mod Examples
use go_sequence.Base.{
  ℕ, List, [], ◌∷◌, ◌++◌, map, Option, none, some, Bool, true, false, not, ◌&&◌, ◌||◌, ◌==◌,
  if◌then◌else◌, length, drop,
}
use go_sequence.Base.Bytes.{Bytes, bytes_equal}
use go_sequence.Base.Result.{Result, ok, err, panic, out_of_fuel}
use go_sequence.Ethkit.{Ethkit}
use go_sequence.Digest.{Hash}
use go_sequence.Receipt.{
  Log, meta_txn_executed, meta_txn_failed, Events, has_only_topic, decode_tx_failed_event,
}
use go_sequence.Listener.{MetaTxnResult, ReceiptResult, BlockOfReceipts}

-- A log of a block, with the hash of its native transaction.
pub record BlockLog : Type 0 where
  pub tx_hash : Hash
  pub log : Log

-- `txLogs[txHash]`
unfoldable pub logs_of : Hash → List BlockLog → List Log
logs_of hash [] = []
logs_of hash (l ∷ ls) =
    let rest = logs_of hash ls in if bytes_equal l.tx_hash hash then l.log ∷ rest else rest

unfoldable pub contains : Hash → List Hash → Bool
contains hash [] = false
contains hash (h ∷ hs) = bytes_equal h hash || contains hash hs

-- `metaTxnReceipts`
abbrev pub ReceiptMap : Type 0
ReceiptMap = List (Hash × ReceiptResult)

-- The end of the branch of a failed event: an event that cannot be read is skipped.
unfoldable pub failed_result : Result (Hash × Bytes) → Option (Hash × MetaTxnResult)
failed_result (ok failed) = some (failed.0, record { status = meta_txn_failed; reason = failed.1 })
failed_result _ = none

module _ (ev : Events) where
  -- `txHashes`: the native transactions with a NonceChange event.
  unfoldable pub tx_hashes : List BlockLog → List Hash → List Hash
  tx_hashes [] seen = seen
  tx_hashes (l ∷ ls) seen = tx_hashes ls (
      if has_only_topic l.log.topics ev.nonce_change_sig && not (contains l.tx_hash seen)
      then seen ++ (l.tx_hash ∷ [])
      else seen)

  -- The result in one log, and the meta transaction that it is of.
  unfoldable pub result_of : Log → Option (Hash × MetaTxnResult)
  result_of log =
      if length log.topics == 0 && length log.log_data == 32
      then some (log.log_data, record { status = meta_txn_executed; reason = [] })
      else if has_only_topic log.topics ev.tx_failed_sig
      then failed_result (decode_tx_failed_event ev log)
      else none

  module _ (k : Ethkit) where
    -- The function `receipt`, and the result that is appended to what it returns.
    unfoldable pub add_result : Hash → MetaTxnResult → ReceiptMap → ReceiptMap
    add_result hash result [] =
        (
          hash,
          record {
            meta_txn_id = drop 2 (k.hex_encode hash);
            results = result ∷ [];
            txn_receipt = none;
          },
        )
        ∷ []
    add_result hash result ((h, r) ∷ m) =
        if bytes_equal h hash
        then (h, record r { results = r.results ++ (result ∷ []) }) ∷ m
        else (h, r) ∷ add_result hash result m

    -- What a log adds.
    unfoldable pub add_log : Option (Hash × MetaTxnResult) → ReceiptMap → ReceiptMap
    add_log none m = m
    add_log (some (hash, result)) m = add_result hash result m

    -- The loop over the logs of one native transaction.
    unfoldable pub collect : ReceiptMap → List Log → ReceiptMap
    collect m [] = m
    collect m (log ∷ logs) = collect (add_log (result_of log) m) logs

    unfoldable pub receipts_of_tx : List BlockLog → Hash → Hash × BlockOfReceipts
    receipts_of_tx logs hash = (hash, map (λ entry. entry.1) (collect [] (logs_of hash logs)))

    -- `handleBlock`: what is given to `handleReceipts`, for each native transaction.
    unfoldable pub handle_block : (added : Bool) → List BlockLog → List (Hash × BlockOfReceipts)
    handle_block false logs = []
    handle_block true logs = map (receipts_of_tx logs) (tx_hashes logs [])
