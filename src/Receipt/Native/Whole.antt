-- ===== src/Receipt/Native/Whole.antt =====
-- What `DecodeReceipt` returns holds the whole native receipt.
use go_sequence.Base.{ℕ, ◌+◌, ◌≡◌, refl, List, some, arith}
use go_sequence.Base.Result.{Result, ok, bind-ok, ok-subst}
use go_sequence.Ethkit.{Ethkit}
use go_sequence.Digest.{Hash}
use go_sequence.Transaction.Encode.{Abi}
use go_sequence.Transaction.Encode.Twice.{of_values}
use go_sequence.Transaction.Decode.{AbiDecoder, decode_execdata}
use go_sequence.Receipt.{Log, NativeReceipt, Receipt, receipt, Receipts, no_receipts, more, Events}
use go_sequence.Receipt.Decode.{decode_receipt}
use go_sequence.Receipt.Decode.Kept.{count, count_receipt, count_receipts, count-decode_receipt}
use go_sequence.Receipt.Native.{
  NativeTransaction, set_native_receipt, set_native_receipts, receiver, is_guest_execute,
  decode_native_receipt,
}

-- Every receipt, the nested ones included, embeds the native receipt.
abbrev mutual
  pub HasNative : NativeReceipt → Receipt → Type 0
  HasNative n (receipt e rs) = (e.native ≡ some n) × HaveNative n rs

  pub HaveNative : NativeReceipt → Receipts → Type 0
  HaveNative n no_receipts = Unit
  HaveNative n (more r rs) = HasNative n r × HaveNative n rs

mutual
  unfolding set_native_receipts

  HasNative-set : (n : NativeReceipt) (r : Receipt) → HasNative n (set_native_receipt n r)
  HasNative-set n (receipt e rs) = (refl, HaveNative-set n rs)

  HaveNative-set : (n : NativeReceipt) (rs : Receipts) → HaveNative n (set_native_receipts n rs)
  HaveNative-set n no_receipts = tt
  HaveNative-set n (more r rs) = (HasNative-set n r, HaveNative-set n rs)

mutual
  unfolding set_native_receipts count_receipts

  count-set_native :
      (f : Log → ℕ) (n : NativeReceipt) (r : Receipt)
      → count_receipt f (set_native_receipt n r) ≡ count_receipt f r
  count-set_native f n (receipt e rs) = omega (arith, counts-set_native f n rs)

  counts-set_native :
      (f : Log → ℕ) (n : NativeReceipt) (rs : Receipts)
      → count_receipts f (set_native_receipts n rs) ≡ count_receipts f rs
  counts-set_native f n no_receipts = refl
  counts-set_native f n (more r rs) =
      omega (arith, count-set_native f n r, counts-set_native f n rs)

-- When `DecodeReceipt` succeeds, every receipt, the nested ones included, embeds the native receipt, and
-- every log of the native receipt is in exactly one place, at the top level or in one of the receipts.
pub count-decode_native_receipt :
    (ev : Events) (abi : Abi) (d : AbiDecoder) (k : Ethkit)
    (transaction_by_hash : Hash → Result NativeTransaction) (n : NativeReceipt) (f : Log → ℕ)
    {out : Receipts × List Log}
    → decode_native_receipt ev abi d k transaction_by_hash n ≡ ok out
    → HaveNative n out.0 × (count f n.native_logs ≡ count f out.1 + count_receipts f out.0)
unfolding decode_native_receipt
count-decode_native_receipt ev abi d k by_hash n f {out} h =
    let (t, _, h1) = bind-ok (by_hash n.tx_hash) _ h in
    let (e, _, h2) = bind-ok (decode_execdata d t.data') _ h1 in
    let (to, _, h3) = bind-ok (receiver t.to) _ h2 in
    let (decoded, h4, h5) =
      bind-ok
        (decode_receipt ev abi k t.chain_id n.native_logs (of_values e.transactions) e.nonce to
          (is_guest_execute e))
        _ h3 in
    ok-subst
      (λ (out : Receipts × List Log).
        HaveNative n out.0 × (count f n.native_logs ≡ count f out.1 + count_receipts f out.0))
      h5
      (
        HaveNative-set n decoded.1,
        omega (
          arith,
          counts-set_native f n decoded.1,
          count-decode_receipt ev f abi k t.chain_id n.native_logs (of_values e.transactions)
              e.nonce to (is_guest_execute e) h4,
        ),
      )
