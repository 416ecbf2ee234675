-- ===== src/Transaction/Encode.antt =====
-- The encoding of bundles of transactions.go, and the digests of bundles of digests.go.
pub mod Twice
mod Examples
use go_sequence.Base.{ℕ, List, [], ◌∷◌, Option, none, some, Bool, true, false, if◌then◌else◌}
use go_sequence.Base.Bytes.{Bytes, codes}
use go_sequence.Base.Int.{ℤ, pos}
use go_sequence.Base.Result.{
  Result, ok, err, panic, out_of_fuel, ◌>>=◌, ◌>>◌, nil_transaction, not_a_bundle,
  bundle_with_calldata, nonce_required, unknown_exec_type,
}
use go_sequence.Ethkit.{Ethkit, Address}
use go_sequence.Digest.{Hash, compute_meta_txn_id_from_digest}
use go_sequence.Transaction.{
  Body, Transaction, transaction, Children, no_children, children, Transactions, end, absent, next,
  clone_children, is_valid, is_bundle,
}

-- The ABI encoders that the client calls, on the values of the transactions.
pub record Abi : Type 0 where
  -- `contracts.WalletMainModule.Encode("execute", …)` and `("selfExecute", …)`
  pub execute : List Transaction → Option ℤ → Bytes → Result Bytes
  pub self_execute : List Transaction → Result Bytes
  -- `abiTransactionsDigestType.Pack` and `abiTransactionsStringDigestType.Pack`
  pub pack_nonce : ℤ → List Transaction → Result Bytes
  pub pack_string : Bytes → List Transaction → Result Bytes

-- `MetaTxnExecType`: the three constants and the other values of the type.
pub data ExecType : Type 0 where
  wallet_exec self_exec guest_exec unknown_exec : ExecType

-- The default of 0 for a nil pointer.
abbrev pub or_zero : Option ℤ → Option ℤ
or_zero none = some (pos 0)
or_zero (some n) = some n

-- A clone with the defaults that the ABI coder expects.
abbrev pub defaulted : Body → Body
defaulted b = record b { value = or_zero b.value; gas_limit = or_zero b.gas_limit; encoded = false }

-- The end of the loop's body: a bundle gets its call as data.
abbrev pub flattened : Bool → Result Bytes → Body → Children → Result Transaction
flattened false call b c = ok (transaction (record b { encoded = true }) c)
flattened true call b c = do
  execdata ← call
  ok (transaction (record b { data' = some execdata; encoded = true }) c)

-- The slice of the children; a nil slice is empty.
abbrev pub slice_of : Children → Transactions
slice_of no_children = end
slice_of (children ts) = ts

module _ (abi : Abi) where
  -- The choice at the end of `Execdata`.
  unfoldable pub execute_call : List Transaction → Option ℤ → Option Bytes → Result Bytes
  execute_call encoded n (some signature) = abi.execute encoded n signature
  execute_call encoded n none = abi.self_execute encoded

  -- `EncodedTransactions` and `Execdata`, the latter on the fields and the children. A clone has the
  -- children of the transaction but for their flag `encoded`, which the clone in the next call resets
  -- again, so the recursion is on the children themselves.
  unfoldable mutual
    pub encoded_transactions : Transactions → Result (List Transaction)
    encoded_transactions end = ok []
    encoded_transactions (absent ts) = err nil_transaction
    encoded_transactions (next t ts) = do
      e ← encoded_transaction t
      es ← encoded_transactions ts
      ok (e ∷ es)

    pub encoded_transaction : Transaction → Result Transaction
    encoded_transaction (transaction b c) =
        let call = execdata_of (defaulted b) c in
        do c' ← clone_children c; flattened (is_bundle (transaction b c)) call (defaulted b) c'

    pub execdata_of : Body → Children → Result Bytes
    execdata_of b no_children = is_valid (transaction b no_children) >> err not_a_bundle
    execdata_of b (children ts) =
        let call = do encoded ← encoded_transactions ts; execute_call encoded b.nonce b.signature
        in is_valid (transaction b (children ts))
          >> (if is_bundle (transaction b (children ts)) then call else err not_a_bundle)

  -- `Transaction.Execdata`
  unfoldable pub execdata : Transaction → Result Bytes
  execdata (transaction b c) = execdata_of b c

  module _ (k : Ethkit) where
    -- `ComputeWalletExecDigest`, `ComputeSelfExecDigest` and `ComputeGuestExecDigest`.
    unfoldable pub compute_wallet_exec_digest : Option ℤ → Transactions → Result Hash
    compute_wallet_exec_digest none txns = err nonce_required
    compute_wallet_exec_digest (some nonce) txns = do
      encoded ← encoded_transactions txns
      message ← abi.pack_nonce nonce encoded
      ok (k.keccak256 message)

    pub compute_self_exec_digest : Transactions → Result Hash
    compute_self_exec_digest txns = do
      encoded ← encoded_transactions txns
      message ← abi.pack_string (codes "self:") encoded
      ok (k.keccak256 message)

    pub compute_guest_exec_digest : Transactions → Result Hash
    compute_guest_exec_digest txns = do
      encoded ← encoded_transactions txns
      message ← abi.pack_string (codes "guest:") encoded
      ok (k.keccak256 message)

    unfoldable pub exec_digest : Transactions → Option ℤ → ExecType → Result Hash
    exec_digest txns n wallet_exec = compute_wallet_exec_digest n txns
    exec_digest txns n self_exec = compute_self_exec_digest txns
    exec_digest txns n guest_exec = compute_guest_exec_digest txns
    exec_digest txns n unknown_exec = err unknown_exec_type

    -- `ComputeMetaTxnID`
    unfoldable pub compute_meta_txn_id :
        Option ℕ → Address → Transactions → Option ℤ → ExecType → Result (Bytes × Hash)
    compute_meta_txn_id chain_id address txns nonce exec_type = do
      digest ← exec_digest txns nonce exec_type
      compute_meta_txn_id_from_digest k chain_id address digest

    -- `Transaction.Digest` and `Transaction.GuestDigest`.
    pub digest : Transaction → Result Hash
    digest (transaction b c) = elim b.data' [
      | some _ ↦ err bundle_with_calldata
      | none ↦ elim b.nonce [
        | some n ↦ compute_wallet_exec_digest (some n) (slice_of c)
        | none ↦ compute_self_exec_digest (slice_of c)
      ]
    ]

    pub guest_digest : Transaction → Result Hash
    guest_digest (transaction b c) = elim b.data' [
      | some _ ↦ err bundle_with_calldata
      | none ↦ compute_guest_exec_digest (slice_of c)
    ]
