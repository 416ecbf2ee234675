-- ===== src/Relayer.antt =====
-- relayer.go: the interface of a relayer, and the call that a relayer sends.
pub mod Wait
pub mod Local
use go_sequence.Base.{ℕ, Option}
use go_sequence.Base.Bytes.{Bytes}
use go_sequence.Base.Int.{ℤ}
use go_sequence.Base.Result.{Result, ok, err, ◌>>=◌, empty_transactions}
use go_sequence.Ethkit.{Ethkit, Address}
use go_sequence.Network.{WalletContext}
use go_sequence.Config.{WalletConfig, address_from_wallet_config}
use go_sequence.Transaction.{Transactions, end}
use go_sequence.Transaction.Encode.{Abi, encoded_transactions}
use go_sequence.Transaction.Signed.{SignedTransactions}

-- `Relayer`, the calls that a wallet makes; a nil relayer is `none` of the option. The block number of
-- `GetNonce` may be nil, and so may the space.
pub record Relayer : Type 0 where
  pub estimate_gas_limits : WalletConfig → WalletContext → Transactions → Result Transactions
  pub get_nonce : WalletConfig → WalletContext → Option ℤ → Option ℕ → Result ℤ
  pub relay : SignedTransactions → Result Bytes

module _ (abi : Abi) (k : Ethkit) where
  -- `EncodeTransactionsForRelaying` behind its first check.
  pub encode_nonempty :
      WalletConfig → WalletContext → Transactions → Option ℤ → Bytes → Result (Address × Bytes)
  encode_nonempty config context txns n seq_sig = do
    address ← address_from_wallet_config k config context
    encoded ← encoded_transactions abi txns
    execdata ← abi.execute encoded n seq_sig
    ok (address, execdata)

  -- `EncodeTransactionsForRelaying`
  pub encode_transactions_for_relaying :
      WalletConfig → WalletContext → Transactions → Option ℤ → Bytes → Result (Address × Bytes)
  encode_transactions_for_relaying config context end n seq_sig = err empty_transactions
  encode_transactions_for_relaying config context txns n seq_sig =
      encode_nonempty config context txns n seq_sig
