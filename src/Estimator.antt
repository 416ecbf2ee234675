-- ===== src/Estimator.antt =====
-- estimator.go: what the gas of calldata costs, and which signers an estimate assumes to sign.
pub mod Picked
pub mod Eoa
pub mod Stub
pub mod Workers
pub mod Gas
mod Examples
use go_sequence.Base.{
  ℕ, ◌+◌, ◌%◌, ◌^◌, List, [], ◌∷◌, Bool, true, false, leb, ◌==◌, if◌then◌else◌, replicate, set,
  length,
}
use go_sequence.Base.Bytes.{Bytes}
use go_sequence.Config.{WalletConfig, WalletConfigSigner}

-- `Estimator` less its cache. The costs are uint64.
pub record Estimator : Type 0 where
  pub base_cost : ℕ
  pub data_one_cost : ℕ
  pub data_zero_cost : ℕ

-- `defaultEstimator`
abbrev pub default_estimator : Estimator
default_estimator = record { base_cost = 21000; data_one_cost = 16; data_zero_cost = 4 }

-- The loop of `CalldataCost`.
pub cost_loop : Estimator → ℕ → Bytes → ℕ
cost_loop e cost [] = cost
cost_loop e cost (b ∷ data') =
    cost_loop e ((cost + (if b == 0 then e.data_zero_cost else e.data_one_cost)) % 2 ^ 64) data'

-- `CalldataCost`
pub calldata_cost : Estimator → Bytes → ℕ
calldata_cost e data' = cost_loop e e.base_cost data'

-- A signer with its index in the configuration.
pub record SortedSigner : Type 0 where
  pub s : WalletConfigSigner
  pub i : ℕ

-- The loop of `PickSigners` over the sorted signers.
pub pick_loop : (threshold weight_sum : ℕ) → List SortedSigner → List Bool → List Bool
pick_loop threshold weight_sum [] will_sign = will_sign
pick_loop threshold weight_sum (p ∷ sorted) will_sign =
    let picked = set will_sign p.i true in
    let more = pick_loop threshold (weight_sum + p.s.weight) sorted picked in
    if leb threshold (weight_sum + p.s.weight) then picked else more

-- `PickSigners`, with the signers in the order that `sort.SliceStable` returns.
pub pick_signers : WalletConfig → List SortedSigner → List Bool
pick_signers c sorted = pick_loop c.threshold 0 sorted (replicate (length c.signers) false)
