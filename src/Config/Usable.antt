-- ===== src/Config/Usable.antt =====
-- When `IsWalletConfigUsable` accepts a configuration.
use native.Mathlib.Nat.{zero-add}
use go_sequence.Base.{
  Bool, ℕ, ◌+◌, ◌*◌, ◌%◌, ◌^◌, ◌≤◌, ◌<◌, ◌≡◌, ◌∙◌, [], ◌∷◌, true, length, All, arith, ◌↔◌,
}
use go_sequence.Base.Result.{ok}
use go_sequence.Config.{
  WalletConfig, WalletConfigSigner, WalletConfigSigners, weight_sum, is_wallet_config_usable,
}

-- The sum of the weights.
abbrev pub sum_of_weights : WalletConfigSigners → ℕ
sum_of_weights [] = 0
sum_of_weights (s ∷ signers) = s.weight + sum_of_weights signers

abbrev pub HasUint8Weight : WalletConfigSigner → Type 0
HasUint8Weight s = s.weight < 2 ^ 8

weight_sum-sum_of_weights :
    (total : ℕ) (signers : WalletConfigSigners)
    → All HasUint8Weight signers
    → total + 255 * length signers < 2 ^ 64
    → weight_sum total signers ≡ total + sum_of_weights signers
unfolding weight_sum
weight_sum-sum_of_weights total [] h fits = omega arith
weight_sum-sum_of_weights total (s ∷ signers) h fits =
    rw (no_wrap (total + s.weight) (omega arith))
      (weight_sum-sum_of_weights (total + s.weight) signers h.1 (omega arith) ∙ omega arith)
  where
    no_wrap : (n : ℕ) → n < 2 ^ 64 → n % 2 ^ 64 ≡ n
    no_wrap n lt = omega arith

-- A configuration of fewer than 2 ^ 56 signers is accepted exactly when its threshold is not 0 and
-- the weights of its signers can reach it.
pub is_wallet_config_usable_iff :
    (c : WalletConfig)
    → All HasUint8Weight c.signers
    → length c.signers < 2 ^ 56
    → (is_wallet_config_usable c ≡ ok true)
      ↔ ((0 < c.threshold) × (c.threshold ≤ sum_of_weights c.signers))
unfolding is_wallet_config_usable
is_wallet_config_usable_iff c h few =
    let total : weight_sum 0 c.signers ≡ sum_of_weights c.signers =
      rw zero-add at (weight_sum-sum_of_weights 0 c.signers h (omega arith)) in
    rw total (ground arith)

-- There is no other answer without an error.
pub is_wallet_config_usable-true :
    (c : WalletConfig) {b : Bool}
    → is_wallet_config_usable c ≡ ok b
    → is_wallet_config_usable c ≡ ok true
unfolding is_wallet_config_usable
is_wallet_config_usable-true c h = ground arith
