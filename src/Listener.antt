-- ===== src/Listener.antt =====
-- legacy_receipt_listener.go: the listener that keeps the receipts of past blocks and passes new ones
-- on to those who wait.
pub mod Past
pub mod Unfilled
pub mod Buffer
pub mod Waiting
pub mod Blocks
mod Examples
use go_sequence.Base.{
  ℕ, zero, suc, get_elem?, List, [], ◌∷◌, ◌++◌, Option, none, some, ltb, if◌then◌else◌, length,
  drop,
}
use go_sequence.Base.Bytes.{Bytes, bytes_equal}
use go_sequence.Receipt.{Status}

-- `LegacyMetaTxnResult`
pub record MetaTxnResult : Type 0 where
  pub status : Status
  pub reason : Bytes

-- `ReceiptResult`; a native receipt is known by its transaction's hash, and none yet is nil.
pub record ReceiptResult : Type 0 where
  pub meta_txn_id : Bytes
  pub results : List MetaTxnResult
  pub txn_receipt : Option Bytes

-- `BlockOfReceipts`
abbrev pub BlockOfReceipts : Type 0
BlockOfReceipts = List ReceiptResult

-- `legacyPastReceiptsBufSize`
abbrev pub past_receipts_buf_size : ℕ
past_receipts_buf_size = 4096

-- `pushReceipts`, on `pastReceipts`.
unfoldable pub push_receipts : List BlockOfReceipts → BlockOfReceipts → List BlockOfReceipts
push_receipts past receipts =
    if ltb (length past) past_receipts_buf_size
    then past ++ (receipts ∷ [])
    else drop 1 past ++ (receipts ∷ [])

-- The look-up in the past blocks of `WaitForMetaTxn`: the first receipt with the id.
unfoldable pub find_in_block : BlockOfReceipts → Bytes → Option ReceiptResult → Option ReceiptResult
find_in_block [] id later = later
find_in_block (r ∷ receipts) id later =
    let rest = find_in_block receipts id later in
    if bytes_equal r.meta_txn_id id then some r else rest

unfoldable pub find_past : List BlockOfReceipts → Bytes → Option ReceiptResult
find_past [] id = none
find_past (block ∷ past) id = find_in_block block id (find_past past id)

-- The state of the loop of `handleReceipts` over the indices of the slice: the slice, and the loop
-- variable, which is no pointer but a `ReceiptResult` of its own.
pub record Ranging : Type 0 where
  pub txn_receipts : BlockOfReceipts
  pub txn_receipt : Option ReceiptResult

-- A round begins: the element at the index is copied to the loop variable.
pub enter_round : ℕ → Ranging → Ranging
enter_round i s = record s { txn_receipt = get_elem? s.txn_receipts i }

-- The receipt with its native receipt, if there is one.
pub filled : Bytes → Option ReceiptResult → Option ReceiptResult
filled receipt none = none
filled receipt (some r) = some (record r { txn_receipt = some receipt })

-- The assignment to the field of the loop variable.
pub assign_receipt : Bytes → Ranging → Ranging
assign_receipt receipt s = record s { txn_receipt = filled receipt s.txn_receipt }

-- The rounds from an index on, as many as are left.
pub populate_from : Bytes → (left i : ℕ) → Ranging → Ranging
populate_from receipt zero i s = s
populate_from receipt (suc left) i s =
    populate_from receipt left (suc i) (assign_receipt receipt (enter_round i s))

-- The loop of `handleReceipts` that is to fill in the native receipt, and the slice behind it.
pub populate_loop : Bytes → BlockOfReceipts → BlockOfReceipts
populate_loop receipt receipts =
    let start : Ranging = record { txn_receipts = receipts; txn_receipt = none } in
    (populate_from receipt (length receipts) 0 start).txn_receipts

-- What `handleReceipts` pushes: `fetched` is the native receipt, or `none` when the provider failed.
-- No receipts are not pushed at all.
pub handle_receipts : Option Bytes → BlockOfReceipts → List BlockOfReceipts → List BlockOfReceipts
handle_receipts fetched [] past = past
handle_receipts none (r ∷ receipts) past = push_receipts past (r ∷ receipts)
handle_receipts (some receipt) (r ∷ receipts) past =
    push_receipts past (populate_loop receipt (r ∷ receipts))
