-- ===== src/Transaction/Reduce.antt =====
-- `Transaction.ReduceSignatures` and `ReduceExecdataSignatures` of transactions.go.
pub mod Kept
mod Examples
use go_sequence.Base.{
  ℕ, List, [], ◌∷◌, Option, none, some, Bool, true, false, ◌==◌, if◌then◌else◌, length,
}
use go_sequence.Base.Bytes.{Bytes}
use go_sequence.Base.Int.{ℤ}
use go_sequence.Base.Result.{Result, ok, err, panic, out_of_fuel, ◌>>=◌, ◌>>◌}
use go_sequence.Ethkit.{Ethkit}
use go_sequence.Transaction.{
  Body, zero_body, Transaction, transaction, Children, no_children, children, Transactions, end,
  absent, next, is_valid,
}
use go_sequence.Transaction.Encode.{Abi, wallet_exec, compute_meta_txn_id, execdata, slice_of}
use go_sequence.Transaction.Encode.Twice.{of_values}
use go_sequence.Transaction.Decode.{AbiDecoder, bytes_of, decode_execdata}
use go_sequence.Signature.Codec.{encode, decode_signature}
use go_sequence.Signature.Reduce.{reduce}

module _ (abi : Abi) (k : Ethkit) (chain_id : Option ℕ) where
  -- The signature of one transaction, reduced; an empty one stays as it is.
  unfoldable pub reduced_signature : Body → Children → Result (Option Bytes)
  reduced_signature b c =
      let reduced = (do
        signature ← decode_signature k (bytes_of b.signature)
        id ← compute_meta_txn_id abi k chain_id b.to (slice_of c) b.nonce wallet_exec
        reduced ← reduce k id.1 signature
        encoded ← encode k reduced
        ok (some encoded)) in
      if length (bytes_of b.signature) == 0 then ok b.signature else reduced

  -- What is left of `ReduceSignatures` once the transaction's own signature is known: it is stored, and
  -- the children follow. On an error nothing is stored.
  pub store_signature :
      Body
      → Children
      → Children × Result {0} Unit
      → Result (Option Bytes)
      → Transaction × Result {0} Unit
  store_signature b c done (ok signature) =
      (transaction (record b { signature = signature }) done.0, done.1)
  store_signature b c done (err e) = (transaction b c, err e)
  store_signature b c done panic = (transaction b c, panic)
  store_signature b c done out_of_fuel = (transaction b c, out_of_fuel)

  -- What is left of the loop over the children after one of them.
  pub after_child :
      Transaction × Result {0} Unit
      → Transactions
      → Transactions × Result {0} Unit
      → Transactions × Result {0} Unit
  after_child (t, ok u) ts later = (next t later.0, later.1)
  after_child (t, err e) ts later = (next t ts, err e)
  after_child (t, panic) ts later = (next t ts, panic)
  after_child (t, out_of_fuel) ts later = (next t ts, out_of_fuel)

  -- `ReduceSignatures`: the transaction as it is afterwards, and the error.
  unfoldable mutual
    pub reduce_signatures : Transaction → Transaction × Result {0} Unit
    reduce_signatures (transaction b c) =
        store_signature b c (reduce_children c)
          (is_valid (transaction b c) >> reduced_signature b c)

    pub reduce_children : Children → Children × Result {0} Unit
    reduce_children no_children = (no_children, ok tt)
    reduce_children (children ts) = let (ts', r) = reduce_all ts in (children ts', r)

    pub reduce_all : Transactions → Transactions × Result {0} Unit
    reduce_all end = (end, ok tt)
    reduce_all (absent ts) = (absent ts, panic)
    reduce_all (next t ts) = after_child (reduce_signatures t) ts (reduce_all ts)

  -- `ReduceExecdataSignatures`: the transaction that is made of the call has no receiver.
  pub reduce_execdata_signatures : AbiDecoder → Bytes → Result Bytes
  reduce_execdata_signatures d data' = do
    e ← decode_execdata d data'
    let t =
        transaction (record zero_body { nonce = e.nonce; signature = e.signature })
          (children (of_values e.transactions))
    (reduce_signatures t).1
    execdata abi (reduce_signatures t).0
