-- ===== src/Receipt/Native.antt =====
-- `DecodeReceipt` and `setNativeReceipt` of receipts.go: the receipts of the transactions that a native
-- transaction executed.
pub mod Whole
mod Examples
use go_sequence.Base.{ℕ, List, [], ◌∷◌, Option, none, some, Bool, true, false, ◌&&◌, ◌==◌, length}
use go_sequence.Base.Bytes.{Bytes}
use go_sequence.Base.Result.{Result, ok, err, panic, out_of_fuel, ◌>>=◌}
use go_sequence.Ethkit.{Ethkit, Address}
use go_sequence.Digest.{Hash}
use go_sequence.Transaction.{is_some}
use go_sequence.Transaction.Encode.{Abi}
use go_sequence.Transaction.Encode.Twice.{of_values}
use go_sequence.Transaction.Decode.{AbiDecoder, Execution, bytes_of, decode_execdata}
use go_sequence.Receipt.{
  Log, NativeReceipt, Entry, Receipt, receipt, Receipts, no_receipts, more, Events,
}
use go_sequence.Receipt.Decode.{decode_receipt}

-- `types.Transaction`, the fields that the client reads; the receiver of a contract creation is nil.
pub record NativeTransaction : Type 0 where
  pub data' : Bytes
  pub to : Option Address
  pub chain_id : Option ℕ

-- `setNativeReceipt`, and the loop over the children.
unfoldable mutual
  pub set_native_receipt : NativeReceipt → Receipt → Receipt
  set_native_receipt n (receipt e rs) =
      receipt (record e { native = some n }) (set_native_receipts n rs)

  pub set_native_receipts : NativeReceipt → Receipts → Receipts
  set_native_receipts n no_receipts = no_receipts
  set_native_receipts n (more r rs) = more (set_native_receipt n r) (set_native_receipts n rs)

-- `*transaction.To()`
pub receiver : Option Address → Result Address
receiver none = panic
receiver (some a) = ok a

-- `isGuestExecute`
pub is_guest_execute : Execution → Bool
is_guest_execute e = is_some e.nonce && length (bytes_of e.signature) == 0

-- `DecodeReceipt`: `transaction_by_hash` is the call of the provider. The result is the receipts and the
-- logs at the top level.
pub decode_native_receipt :
    Events
    → Abi
    → AbiDecoder
    → Ethkit
    → (Hash → Result NativeTransaction)
    → NativeReceipt
    → Result (Receipts × List Log)
decode_native_receipt ev abi d k transaction_by_hash n = do
  transaction ← transaction_by_hash n.tx_hash
  e ← decode_execdata d transaction.data'
  to ← receiver transaction.to
  decoded ←
      decode_receipt ev abi k transaction.chain_id n.native_logs (of_values e.transactions) e.nonce
        to (is_guest_execute e)
  ok (set_native_receipts n decoded.1, decoded.0)
