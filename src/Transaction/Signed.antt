-- ===== src/Transaction/Signed.antt =====
-- `SignedTransactions` of transactions.go: a signed bundle for the relayer.
use go_sequence.Base.{ℕ, Option}
use go_sequence.Base.Bytes.{Bytes}
use go_sequence.Base.Int.{ℤ}
use go_sequence.Base.Result.{Result, ◌>>=◌}
use go_sequence.Network.{WalletContext}
use go_sequence.Config.{WalletConfig}
use go_sequence.Digest.{Hash}
use go_sequence.Transaction.{Transactions}
use go_sequence.Transaction.Encode.{Abi, encoded_transactions}

pub record SignedTransactions : Type 0 where
  pub chain_id : Option ℕ
  pub wallet_config : WalletConfig
  pub wallet_context : WalletContext
  pub transactions : Transactions
  pub nonce : Option ℤ
  pub digest : Hash
  pub signature : Bytes

-- `SignedTransactions.Execdata`
pub signed_execdata : Abi → SignedTransactions → Result Bytes
signed_execdata abi t = do
  encoded ← encoded_transactions abi t.transactions
  abi.execute encoded t.nonce t.signature
