-- ===== src/Receipt/Decode.antt =====
-- `decodeReceipt` of receipts.go: the logs are dealt out to the transactions of a bundle.
pub mod Kept
pub mod Logged
pub mod Order
mod Examples
use go_sequence.Base.{
  ℕ, suc, List, [], ◌∷◌, ◌++◌, Option, none, some, Bool, true, false, ◌&&◌, length, ◌==◌,
  if◌then◌else◌,
}
use go_sequence.Base.Bytes.{Bytes, bytes_equal}
use go_sequence.Base.Int.{ℤ}
use go_sequence.Base.Result.{
  Result, ok, err, panic, out_of_fuel, ◌>>=◌, expected_nonce_change, unexpected_events,
}
use go_sequence.Ethkit.{Ethkit, Address}
use go_sequence.Digest.{Hash}
use go_sequence.Transaction.{
  Body, Transaction, transaction, Children, no_children, children, Transactions, end, absent, next,
}
use go_sequence.Transaction.Encode.{
  Abi, ExecType, wallet_exec, self_exec, guest_exec, compute_meta_txn_id,
}
use go_sequence.Receipt.{
  Log, Status, meta_txn_executed, meta_txn_failed, meta_txn_reverted, Entry, Receipt, receipt,
  Receipts, no_receipts, more, Events, is_tx_executed_event, decode_tx_failed_event,
  decode_nonce_change_event,
}

-- `digestType`
unfoldable pub digest_type : Option ℤ → Bool → ExecType
digest_type none is_guest = self_exec
digest_type (some n) true = guest_exec
digest_type (some n) false = wallet_exec

-- `isGuestExecuteTransaction`
pub is_guest_execute_transaction : Body → Bool
is_guest_execute_transaction b = elim b.nonce [
  | none ↦ false
  | some n ↦ elim b.signature [ none ↦ true | some s ↦ length s == 0 ]
]

-- What one transaction takes off the logs: its own, and at most one event that ends them.
pub record Taken : Type 0 where
  pub status : Status
  pub reason : Bytes
  pub own : List Log
  pub event : List Log
  pub rest : List Log

-- The check that no log is left.
unfoldable pub all_consumed : List Log → Receipts → List Log → Result (List Log × Receipts)
all_consumed top rs [] = ok (top, rs)
all_consumed top rs (log ∷ logs) = err unexpected_events

-- `isTxFailed`, on what `DecodeTxFailedEvent` says, and the reason.
unfoldable pub failure_of : Hash → Result (Hash × Bytes) → Option (Status × Bytes)
failure_of hash (ok failed) =
    if bytes_equal failed.0 hash then some (meta_txn_failed, failed.1) else none
failure_of hash _ = none

-- The first log, by what `DecodeNonceChangeEvent` says of it.
unfoldable pub after_nonce_change : Result (ℕ × ℕ) → Log → List Log → Result (List Log × List Log)
after_nonce_change (ok nonces) log logs = ok (log ∷ [], logs)
after_nonce_change (err e) log logs = err expected_nonce_change
after_nonce_change panic log logs = panic
after_nonce_change out_of_fuel log logs = out_of_fuel

module _ (ev : Events) where
  -- The kind of event that a log is for the transaction with the hash, and its reason.
  unfoldable pub outcome : Hash → Log → Option (Status × Bytes)
  outcome hash log =
      if is_tx_executed_event log hash
      then some (meta_txn_executed, [])
      else failure_of hash (decode_tx_failed_event ev log)

  -- The loop over the logs.
  unfoldable pub take_logs : Hash → List Log → Taken
  take_logs hash [] = record {
    status = meta_txn_reverted;
    reason = [];
    own = [];
    event = [];
    rest = [];
  }
  take_logs hash (log ∷ logs) =
      let later = take_logs hash logs in
      elim (outcome hash log) [
        | some o ↦ record { status = o.0; reason = o.1; own = []; event = log ∷ []; rest = logs }
        | none ↦ record later { own = log ∷ later.own }
      ]

  -- The NonceChange event that a wallet's own call begins with: what is consumed, and the other logs.
  unfoldable pub take_nonce_change : ExecType → List Log → Result (List Log × List Log)
  take_nonce_change wallet_exec (log ∷ logs) =
      after_nonce_change (decode_nonce_change_event ev log) log logs
  take_nonce_change _ logs = ok ([], logs)

  module _ (abi : Abi) (k : Ethkit) (chain_id : Option ℕ) where
    -- `decodeReceipt` around the loop over its transactions, which takes the id, the hash and the logs
    -- and returns the top level logs, the receipts and the logs that are left.
    unfoldable pub decode_with :
        (Bytes → Hash → List Log → Result (List Log × (Receipts × List Log)))
        → List Log
        → Transactions
        → Option ℤ
        → Address
        → Bool
        → Result (List Log × Receipts)
    decode_with loop logs ts nonce address is_guest = do
      id ← compute_meta_txn_id abi k chain_id address ts nonce (digest_type nonce is_guest)
      split ← take_nonce_change (digest_type nonce is_guest) logs
      dealt ← loop id.0 id.1 split.1
      all_consumed (split.0 ++ dealt.0) dealt.1.0 dealt.1.1

    unfoldable mutual
      -- The loop over the transactions, from the index on.
      pub receipts_loop :
          Transactions → ℕ → Bytes → Hash → List Log → Result (List Log × (Receipts × List Log))
      receipts_loop end i id hash logs = ok ([], (no_receipts, logs))
      receipts_loop (absent ts) i id hash logs = panic
      receipts_loop (next t ts) i id hash logs = do
        first ← decode_transaction t i id (take_logs hash logs)
        later ← receipts_loop ts (suc i) id hash (take_logs hash logs).rest
        ok ((take_logs hash logs).event ++ later.0, (more first later.1.0, later.1.1))

      -- The receipt of one transaction: the logs of a bundle are dealt out to its children.
      pub decode_transaction : Transaction → ℕ → Bytes → Taken → Result Receipt
      decode_transaction (transaction b c) i id taken = do
        nested ← decode_children c b taken.own
        ok (
            receipt
              (record {
                meta_txn_id = id;
                status = taken.status;
                reason = taken.reason;
                logs = nested.0;
                index = i;
                transaction = transaction b c;
                native = none;
              })
              nested.1)

      pub decode_children : Children → Body → List Log → Result (List Log × Receipts)
      decode_children no_children b logs = ok (logs, no_receipts)
      decode_children (children ts) b logs =
          decode_with (receipts_loop ts 0) logs ts b.nonce b.to (is_guest_execute_transaction b)

    -- `decodeReceipt`
    unfoldable pub decode_receipt :
        List Log → Transactions → Option ℤ → Address → Bool → Result (List Log × Receipts)
    decode_receipt logs ts nonce address is_guest =
        decode_with (receipts_loop ts 0) logs ts nonce address is_guest
