-- ===== src/Receipt.antt =====
-- receipts.go: the receipts of meta-transactions, out of the logs of a native transaction.
pub mod Decode
pub mod Find
pub mod Fetch
pub mod Native
use go_sequence.Base.{
  ℕ, List, [], ◌∷◌, ◌++◌, Option, none, some, Bool, true, false, ◌&&◌, ◌==◌, length,
}
use go_sequence.Base.Bytes.{Bytes, bytes_equal}
use go_sequence.Base.Result.{
  Result, ok, err, panic, out_of_fuel, ◌>>=◌, not_tx_failed, not_nonce_change, external,
}
use go_sequence.Digest.{Hash}
use go_sequence.Transaction.{Transaction}

-- `types.Log`, the fields that the client reads.
pub record Log : Type 0 where
  pub topics : List Hash
  pub log_data : Bytes

-- `MetaTxnStatus` of relayer.go.
pub data Status : Type 0 where
  status_unknown meta_txn_executed meta_txn_failed meta_txn_reverted : Status

-- `types.Receipt`, the fields that the client reads.
pub record NativeReceipt : Type 0 where
  pub tx_hash : Hash
  pub native_logs : List Log

-- `Receipt` less its children; a nil native receipt is `none`.
pub record Entry : Type 0 where
  pub meta_txn_id : Bytes
  pub status : Status
  pub reason : Bytes
  pub logs : List Log
  pub index : ℕ
  pub transaction : Transaction
  pub native : Option NativeReceipt

mutual
  pub data Receipt : Type 0 where
    receipt : Entry → Receipts → Receipt

  pub data Receipts : Type 0 where
    no_receipts : Receipts
    more : Receipt → Receipts → Receipts

abbrev pub entry_of : Receipt → Entry
entry_of (receipt e rs) = e

abbrev pub receipts_of : Receipt → Receipts
receipts_of (receipt e rs) = rs

-- What the module calls to read an event.
pub record Events : Type 0 where
  -- `TxFailedEventSig` and `NonceChangeEventSig`
  pub tx_failed_sig : Hash
  pub nonce_change_sig : Hash
  -- `ethcoder.AbiDecoder` of (bytes32, bytes) and of (uint256, uint256), and `abi.UnpackRevert`; an
  -- error is `none`
  pub decode_failure : Bytes → Option (Hash × Bytes)
  pub decode_nonces : Bytes → Option (ℕ × ℕ)
  pub unpack_revert : Bytes → Option Bytes

abbrev pub has_only_topic : List Hash → Hash → Bool
has_only_topic (t ∷ []) sig = bytes_equal t sig
has_only_topic _ sig = false

-- `IsTxExecutedEvent`
unfoldable pub is_tx_executed_event : Log → Hash → Bool
is_tx_executed_event log hash =
    length log.topics == 0 && (length log.log_data == 32 && bytes_equal log.log_data hash)

module _ (ev : Events) where
  -- The end of `DecodeTxFailedEvent`.
  unfoldable pub reason_of : Option (Hash × Bytes) → Result (Hash × Bytes)
  reason_of none = err (external 0)
  reason_of (some (hash, revert)) = elim (ev.unpack_revert revert) [
    | none ↦ err (external 0)
    | some reason ↦ ok (hash, reason)
  ]

  -- `DecodeTxFailedEvent`
  unfoldable pub decode_tx_failed_event : Log → Result (Hash × Bytes)
  decode_tx_failed_event log = elim (has_only_topic log.topics ev.tx_failed_sig) [
    | true ↦ reason_of (ev.decode_failure log.log_data)
    | false ↦ err not_tx_failed
  ]

  -- `DecodeNonceChangeEvent`
  unfoldable pub decode_nonce_change_event : Log → Result (ℕ × ℕ)
  decode_nonce_change_event log = elim (has_only_topic log.topics ev.nonce_change_sig) [
    | true ↦ elim (ev.decode_nonces log.log_data) [
      | none ↦ err (external 0)
      | some nonces ↦ ok nonces
    ]
    | false ↦ err not_nonce_change
  ]
