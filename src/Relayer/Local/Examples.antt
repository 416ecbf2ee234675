-- ===== src/Relayer/Local/Examples.antt =====
-- Three transactions: a limit that was requested, a delegate call, and a call that is estimated.
use go_sequence.Base.{◌≡◌, refl, [], ◌∷◌, some, true}
use go_sequence.Base.Bytes.{to_bytes, from_bytes}
use go_sequence.Base.Int.{pos}
use go_sequence.Base.Result.{ok, err, external}
use go_sequence.Ethkit.{Provider}
use go_sequence.Ethkit.StandIn.{stand_in}
use go_sequence.Network.{sequence_context}
use go_sequence.Config.{WalletConfig, address_from_wallet_config}
use go_sequence.Wallet.{is_wallet_deployed}
use go_sequence.Transaction.{
  zero_body, Transactions, transaction, no_children, end, next, clone_children, is_bundle, is_valid,
}
use go_sequence.Transaction.Encode.{Abi, encoded_transactions, execute_call}
use go_sequence.Relayer.Local.{
  call_msg, estimated_limit, gas_limit_of, gas_limits_of, update_gas_limits, estimate_gas_limits,
}
use go_sequence.Relayer.Local.Kept.{KeepsLimits, estimate_gas_limits-KeepsLimits}

abbrev empty_abi : Abi
empty_abi = record {
  execute = λ ts n sig. ok [];
  self_execute = λ ts. ok [];
  pack_nonce = λ n ts. ok [];
  pack_string = λ s ts. ok [];
}

abbrev chain : Provider
chain = record {
  chain_id = ok 1;
  code_at = λ a. ok (1 ∷ 2 ∷ 3 ∷ []);
  is_valid_signature = λ a b c. err (external 0);
}

abbrev no_signers : WalletConfig
no_signers = record { threshold = 1; signers = [] }

abbrev three_calls : Transactions
three_calls =
    next (transaction (record zero_body { to = 0xa; gas_limit = some (pos 7) }) no_children) (
      next (transaction (record zero_body { to = 0xb; delegate_call = true }) no_children)
        (next (transaction (record zero_body { to = 0xc }) no_children) end))

abbrev limited : Transactions
limited = next (transaction (record zero_body { to = 0xa; gas_limit = some (pos 7) }) no_children) (
    next
      (transaction
        (record zero_body { to = 0xb; delegate_call = true; gas_limit = some (pos 800000) })
        no_children)
      (next (transaction (record zero_body { to = 0xc; gas_limit = some (pos 21000) }) no_children)
        end))

limits_set :
    estimate_gas_limits stand_in empty_abi
      (λ msg. ok 21000)
      chain
      no_signers
      sequence_context
      three_calls
    ≡ ok limited
unfolding estimate_gas_limits update_gas_limits gas_limits_of gas_limit_of estimated_limit call_msg
    encoded_transactions execute_call clone_children is_bundle is_valid is_wallet_deployed
    address_from_wallet_config to_bytes from_bytes
limits_set = refl

estimate_gas_limits-KeepsLimits_example : KeepsLimits three_calls limited
estimate_gas_limits-KeepsLimits_example =
    estimate_gas_limits-KeepsLimits stand_in empty_abi (λ msg. ok 21000) chain no_signers
      sequence_context three_calls limited limits_set
