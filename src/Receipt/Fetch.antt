-- ===== src/Receipt/Fetch.antt =====
-- receipt_fetcher.go: the result of one meta-transaction and the filters on the logs of a receipt.
pub mod Found
mod Examples
use go_sequence.Base.{
  ℕ, List, [], ◌∷◌, Bool, true, false, ◌&&◌, ◌||◌, ◌==◌, if◌then◌else◌, length, take,
}
use go_sequence.Base.Bytes.{Bytes, bytes_equal}
use go_sequence.Base.Result.{Result, ok}
use go_sequence.Digest.{Hash}
use go_sequence.Receipt.{
  Log, Status, status_unknown, meta_txn_executed, meta_txn_failed, Events, has_only_topic,
  is_tx_executed_event, decode_tx_failed_event,
}

-- The result's status and reason.
abbrev pub Outcome : Type 0
Outcome = Status × Bytes

-- The reason, empty when `DecodeTxFailedEvent` returns an error.
pub reason_or_empty : Result (Hash × Bytes) → Bytes
reason_or_empty (ok (hash, reason)) = reason
reason_or_empty _ = []

abbrev pub first_topic_is : List Hash → Hash → Bool
first_topic_is [] sig = false
first_topic_is (t ∷ _) sig = bytes_equal t sig

module _ (ev : Events) where
  -- `IsTxFailedEvent` of receipts.go.
  pub is_tx_failed_event : Log → Hash → Bool
  is_tx_failed_event log hash =
      has_only_topic log.topics ev.tx_failed_sig
      && bytes_equal (take (length hash) log.log_data) hash

  -- The loop of `FetchMetaTransactionReceipt` over the logs: it stops at an executed event only.
  pub fetch_loop : Hash → List Log → Outcome → Outcome
  fetch_loop hash [] result = result
  fetch_loop hash (log ∷ logs) result =
      let failed =
        fetch_loop hash logs (meta_txn_failed, reason_or_empty (decode_tx_failed_event ev log)) in
      let other = fetch_loop hash logs result in
      if is_tx_executed_event log hash
      then (meta_txn_executed, result.1)
      else if is_tx_failed_event log hash
      then failed
      else other

  -- The filter of `FilterMetaTransactionID`.
  pub filter_meta_transaction_id : Hash → List Log → Bool
  filter_meta_transaction_id hash [] = false
  filter_meta_transaction_id hash (log ∷ logs) =
      let rest = filter_meta_transaction_id hash logs in
      if is_tx_executed_event log hash || is_tx_failed_event log hash then true else rest

  -- The two loops of `FilterMetaTransactionAny`.
  pub found_nonce_event : List Log → Bool
  found_nonce_event [] = false
  found_nonce_event (log ∷ logs) =
      let rest = found_nonce_event logs in
      if first_topic_is log.topics ev.nonce_change_sig then true else rest

  pub found_outcome : List Log → Bool
  found_outcome [] = false
  found_outcome (log ∷ logs) =
      let rest = found_outcome logs in
      if has_only_topic log.topics ev.tx_failed_sig
      then true
      else if length log.topics == 0 && length log.log_data == 32
      then true
      else rest

  -- The filter of `FilterMetaTransactionAny`.
  pub filter_meta_transaction_any : List Log → Bool
  filter_meta_transaction_any logs = if found_nonce_event logs then found_outcome logs else false
