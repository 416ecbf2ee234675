-- ===== src/Relayer/Local.antt =====
-- relayer/local_relayer.go: the gas limits that a local relayer gives the transactions of a wallet, and
-- the call that it sends.
pub mod Kept
mod Examples
use go_sequence.Base.{
  ℕ, List, [], ◌∷◌, Option, none, some, Bool, true, false, not, ◌&&◌, ◌==◌, if◌then◌else◌,
}
use go_sequence.Base.Bytes.{Bytes}
use go_sequence.Base.Int.{ℤ, pos, ltb_ℤ}
use go_sequence.Base.Result.{Result, ok, err, panic, out_of_fuel, ◌>>=◌}
use go_sequence.Ethkit.{Ethkit, Address, Provider}
use go_sequence.Network.{WalletContext}
use go_sequence.Config.{WalletConfig, address_from_wallet_config}
use go_sequence.Transaction.{Body, Transaction, transaction, Transactions, end, absent, next, body}
use go_sequence.Transaction.Encode.{Abi, encoded_transactions}
use go_sequence.Wallet.{is_wallet_deployed}

-- `ethereum.CallMsg`: no receiver is a nil pointer.
pub record CallMsg : Type 0 where
  pub from : Address
  pub to : Option Address
  pub value : Option ℤ
  pub data' : Option Bytes

abbrev pub default_gas_limit : Option ℤ
default_gas_limit = some (pos 800000)

-- `txn.GasLimit != nil && txn.GasLimit.Cmp(big.NewInt(0)) > 0`
abbrev pub is_requested : Option ℤ → Bool
is_requested none = false
is_requested (some limit) = ltb_ℤ (pos 0) limit

-- What follows `EstimateGas` of the provider.
unfoldable pub estimated_limit : Result ℕ → Result (Option ℤ)
estimated_limit (ok gas_limit) = ok (some (pos gas_limit))
estimated_limit (err e) = ok default_gas_limit
estimated_limit panic = panic
estimated_limit out_of_fuel = out_of_fuel

unfoldable pub call_msg : Address → Body → CallMsg
call_msg wallet b = record {
  from = wallet;
  to = if b.to == 0 then none else some b.to;
  value = b.value;
  data' = b.data';
}

-- The body of the loop; `estimate_gas` is that of the provider.
unfoldable pub gas_limit_of :
    (CallMsg → Result ℕ) → Address → (is_deployed : Bool) → Body → Result (Option ℤ)
gas_limit_of estimate_gas wallet is_deployed b =
    if is_requested b.gas_limit
    then ok b.gas_limit
    else if b.delegate_call
    then ok default_gas_limit
    else if (b.to == wallet) && not is_deployed
    then ok default_gas_limit
    else estimated_limit (estimate_gas (call_msg wallet b))

-- The loop over the encoded transactions: their gas limits.
unfoldable pub gas_limits_of :
    (CallMsg → Result ℕ)
    → Address
    → (is_deployed : Bool) → List Transaction
    → Result (List (Option ℤ))
gas_limits_of estimate_gas wallet is_deployed [] = ok []
gas_limits_of estimate_gas wallet is_deployed (t ∷ ts) = do
  limit ← gas_limit_of estimate_gas wallet is_deployed (body t)
  limits ← gas_limits_of estimate_gas wallet is_deployed ts
  ok (limit ∷ limits)

-- The loop over the original transactions: an index out of range and a nil transaction panic. The
-- pointers are taken to be different: no transaction stands twice.
unfoldable pub update_gas_limits : List (Option ℤ) → Transactions → Result Transactions
update_gas_limits limits end = ok end
update_gas_limits limits (absent ts) = panic
update_gas_limits [] (next t ts) = panic
update_gas_limits (limit ∷ limits) (next (transaction b c) ts) = do
  ts ← update_gas_limits limits ts
  ok (next (transaction (record b { gas_limit = limit }) c) ts)

-- `LocalRelayer.EstimateGasLimits`
unfoldable pub estimate_gas_limits :
    Ethkit
    → Abi
    → (CallMsg → Result ℕ)
    → Provider
    → WalletConfig
    → WalletContext
    → Transactions
    → Result Transactions
estimate_gas_limits k abi estimate_gas provider config context txns = do
  wallet ← address_from_wallet_config k config context
  is_deployed ← is_wallet_deployed provider wallet
  encoded ← encoded_transactions abi txns
  limits ← gas_limits_of estimate_gas wallet is_deployed encoded
  update_gas_limits limits txns
