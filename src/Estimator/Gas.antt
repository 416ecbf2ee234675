-- ===== src/Estimator/Gas.antt =====
-- `BuildProxy`, `EstimateCall` and `Estimate` of estimator.go. The signers that are no contracts are
-- what `AreEOAs` returned, and the sorted signers what the sort in `PickSigners` did.
pub mod Limits
mod Examples
use go_sequence.Base.{
  ℕ, suc, ◌+◌, ◌-◌, ◌%◌, ◌^◌, List, [], ◌∷◌, ◌++◌, Option, none, some, Bool, true, false, ltb, ◌==◌,
  ◌||◌, if◌then◌else◌, drop, length,
}
use go_sequence.Base.Bytes.{Bytes, codes}
use go_sequence.Base.Int.{ℤ, pos, negsuc, ◌+ℤ◌, ◌-ℤ◌}
use go_sequence.Base.Result.{Result, ok, err, panic, ◌>>=◌, override_from, estimate_failed}
use go_sequence.Ethkit.{Ethkit, Address, Provider, zero_address}
use go_sequence.Network.{WalletContext}
use go_sequence.Config.{WalletConfig}
use go_sequence.Transaction.{Transaction, transaction, Transactions, end, absent, next, append_all}
use go_sequence.Transaction.Encode.{Abi, encoded_transactions}
use go_sequence.Wallet.{is_wallet_deployed}
use go_sequence.Estimator.{Estimator, calldata_cost, SortedSigner, pick_signers}
use go_sequence.Estimator.Stub.{stub_address, build_stub_signature}

-- The codes that an estimate puts in place of those on the chain.
abbrev pub Overrides : Type 0
Overrides = List (Address × Bytes)

-- What an estimate needs of others.
pub record Simulator : Type 0 where
  -- `eth_call` of the gas estimator that stands at the first address, decoded: whether the call of the
  -- second address with the data succeeds, what it returns, and its gas.
  pub gas_of : (from to : Address) → Overrides → Bytes → Result (Bool × Bytes × ℕ)
  -- `gasEstimatorCode` and `walletGasEstimatorCode`, from the generated artifacts
  pub gas_estimator_code : Bytes
  pub wallet_gas_estimator_code : Bytes
  -- `Address.String()`
  pub address_string : Address → Bytes

-- `int64(x)` of a uint64, as a *big.Int.
unfoldable pub int64_of_cost : ℕ → ℤ
int64_of_cost x = if ltb x (2 ^ 63) then pos x else negsuc (2 ^ 64 - x - 1)

-- `Uint64()`, on the range of a uint64.
unfoldable pub uint64_of : ℤ → ℕ
uint64_of (pos n) = n % 2 ^ 64
uint64_of (negsuc n) = (n + 1) % 2 ^ 64

unfoldable pub overrides_address : Address → Overrides → Bool
overrides_address a [] = false
overrides_address a ((b, code) ∷ overrides) = (b == a) || overrides_address a overrides

-- The end of `EstimateCall`: the gas of a call that fails is not used by any caller.
unfoldable pub gas_or_error : Estimator → Bytes → Bool × Bytes × ℕ → Result ℤ
gas_or_error e data' (true, result, gas) = ok (pos gas +ℤ int64_of_cost (calldata_cost e data'))
gas_or_error e data' (false, result, gas) = err estimate_failed

module _ (sim : Simulator) where
  -- `BuildProxy`
  unfoldable pub build_proxy : Address → Bytes
  build_proxy a =
      codes "0x363d3d3730543d3d3d363d73"
      ++ (drop 2 (sim.address_string a) ++ codes "5af43d82803e903d91602d57fd5bf3")

  -- `EstimateCall`, from the stub address that is drawn for it.
  unfoldable pub estimate_call : Estimator → (from to : Address) → Bytes → Overrides → Result ℤ
  estimate_call e from to data' overrides =
      if overrides_address from overrides then err override_from else do
        answer ← sim.gas_of from to ((from, sim.gas_estimator_code) ∷ overrides) data'
        gas_or_error e data' answer

  -- The overrides of `Estimate`: a wallet that is not deployed is given a proxy.
  unfoldable pub estimate_overrides : WalletContext → Address → (is_deployed : Bool) → Overrides
  estimate_overrides context wallet is_deployed =
      (if is_deployed then [] else (wallet, build_proxy context.main_module_address) ∷ [])
      ++ ((context.main_module_address, sim.wallet_gas_estimator_code)
          ∷ (context.main_module_upgradable_address, sim.wallet_gas_estimator_code)
          ∷ [])

  module _ (k : Ethkit) (abi : Abi) (e : Estimator) (draw : ℕ → Bytes) where
    -- The estimate of the transactions in front, which is the `i`-th.
    unfoldable pub estimate_prefix :
        ℕ → (wallet : Address) → Bytes → Overrides → Transactions → Result ℤ
    estimate_prefix i wallet signature overrides sub_txs = do
      enc_txs ← encoded_transactions abi sub_txs
      exec_data ← abi.execute enc_txs (some (pos 4294967295)) signature
      estimate_call e (stub_address k (draw i)) wallet exec_data overrides

    -- The first loop of `Estimate`, from the prefix on that stands in front of the rest.
    unfoldable pub estimate_prefixes :
        ℕ → (wallet : Address) → Bytes → Overrides → (front rest : Transactions) → Result (List ℤ)
    estimate_prefixes i wallet signature overrides front end = do
      estimated ← estimate_prefix i wallet signature overrides front
      ok (estimated ∷ [])
    estimate_prefixes i wallet signature overrides front (absent rest) = do
      estimated ← estimate_prefix i wallet signature overrides front
      estimates ←
          estimate_prefixes (i + 1) wallet signature overrides (append_all front (absent end)) rest
      ok (estimated ∷ estimates)
    estimate_prefixes i wallet signature overrides front (next t rest) = do
      estimated ← estimate_prefix i wallet signature overrides front
      estimates ←
          estimate_prefixes (i + 1) wallet signature overrides (append_all front (next t end)) rest
      ok (estimated ∷ estimates)

-- The second loop of `Estimate`, with the estimates from `estimates[i]` on: an index out of range and a
-- nil transaction panic. The pointers are taken to be different, as one that stands twice would have the
-- last of its limits in both places.
unfoldable pub set_gas_limits : List ℤ → Transactions → Result Transactions
set_gas_limits estimates end = ok end
set_gas_limits estimates (absent txs) = panic
set_gas_limits (a ∷ b ∷ estimates) (next (transaction body c) txs) = do
  txs ← set_gas_limits (b ∷ estimates) txs
  ok (next (transaction (record body { gas_limit = some (b -ℤ a) }) c) txs)
set_gas_limits _ (next t txs) = panic

-- `estimates[len(estimates)-1]`
unfoldable pub last_estimate : List ℤ → Result ℤ
last_estimate [] = panic
last_estimate (a ∷ []) = ok a
last_estimate (a ∷ b ∷ estimates) = last_estimate (b ∷ estimates)

-- The end of `Estimate`; the transactions are returned as they are afterwards.
unfoldable pub finish_estimate : Transactions → List ℤ → Result (ℕ × Transactions)
finish_estimate txs estimates = do
  limited ← set_gas_limits estimates txs
  total ← last_estimate estimates
  ok (uint64_of total, limited)

-- `Estimate`
unfoldable pub estimate :
    Simulator
    → Ethkit
    → Abi
    → Estimator
    → (draw : ℕ → Bytes) → (random : ℕ → ℕ → Bytes) → Provider
    → Address
    → WalletConfig
    → WalletContext
    → (are_eoas : Result (List Bool)) → List SortedSigner
    → Transactions
    → Result (ℕ × Transactions)
estimate sim k abi e draw random provider wallet c context are_eoas sorted txs = do
  is_eoa ← are_eoas
  signature ← build_stub_signature k random c (pick_signers c sorted) is_eoa
  is_deployed ← is_wallet_deployed provider wallet
  estimates ←
      estimate_prefixes sim k abi e draw 0 wallet signature
        (estimate_overrides sim context wallet is_deployed) end txs
  finish_estimate txs estimates
