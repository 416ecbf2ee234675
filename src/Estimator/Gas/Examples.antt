-- ===== src/Estimator/Gas/Examples.antt =====
-- An estimate of two transactions, on a node for which each byte of the call counts.
use go_sequence.Base.{ℕ, ◌*◌, ◌≡◌, refl, List, [], ◌∷◌, true, false, length, replicate}
use go_sequence.Base.Bytes.{Bytes, to_bytes, from_bytes}
use go_sequence.Base.Int.{ℤ, pos, ◌+ℤ◌}
use go_sequence.Base.Result.{ok, err, external}
use go_sequence.Ethkit.{Provider}
use go_sequence.Ethkit.StandIn.{stand_in}
use go_sequence.Network.{sequence_context}
use go_sequence.Config.{WalletConfig, WalletConfigSigner}
use go_sequence.Signature.Codec.{encode}
use go_sequence.Transaction.{
  zero_body, Transaction, transaction, Transactions, no_children, end, next, clone_children,
  is_bundle, is_valid,
}
use go_sequence.Transaction.Encode.{Abi, encoded_transactions, execute_call}
use go_sequence.Wallet.{is_wallet_deployed}
use go_sequence.Estimator.{
  default_estimator, cost_loop, calldata_cost, SortedSigner, pick_loop, pick_signers,
}
use go_sequence.Estimator.Stub.{
  stub_sig, eoa_part, stub_parts, encoded_or_panic, build_on, build_stub_signature,
}
use go_sequence.Estimator.Gas.{
  Simulator, int64_of_cost, uint64_of, overrides_address, gas_or_error, build_proxy, estimate_call,
  estimate_overrides, estimate_prefix, estimate_prefixes, estimate,
}
use go_sequence.Estimator.Gas.Limits.{add_limits, without_limits, estimate-add_limits}

abbrev node : Simulator
node = record {
  gas_of = λ from to overrides data'. ok (true, [], 1000 * from_bytes data');
  gas_estimator_code = 1 ∷ [];
  wallet_gas_estimator_code = 2 ∷ [];
  address_string = λ a. 48 ∷ 120 ∷ a ∷ [];
}

abbrev counting : Abi
counting = record {
  execute = λ ts n sig. ok (length ts ∷ []);
  self_execute = λ ts. ok [];
  pack_nonce = λ n ts. ok [];
  pack_string = λ s ts. ok [];
}

abbrev chain : Provider
chain = record {
  chain_id = ok 1;
  code_at = λ a. ok [];
  is_valid_signature = λ a b c. err (external 0);
}

abbrev signer : WalletConfigSigner
signer = record { weight = 1; address = 5 }

abbrev one_signer : WalletConfig
one_signer = record { threshold = 1; signers = signer ∷ [] }

abbrev only : List SortedSigner
only = record { s = signer; i = 0 } ∷ []

abbrev drawn : ℕ → Bytes
drawn i = replicate 20 7

abbrev call : Transaction
call = transaction (record zero_body { to = 0xabc }) no_children

abbrev two_calls : Transactions
two_calls = next call (next call end)

abbrev signature : Bytes
signature = 0 ∷ 1 ∷ 0 ∷ 1 ∷ stub_sig

signed :
    build_stub_signature stand_in
      (λ i j. drawn i)
      one_signer
      (pick_signers one_signer only)
      (true ∷ [])
    ≡ ok signature
unfolding build_stub_signature build_on stub_parts eoa_part encoded_or_panic encode pick_signers
    pick_loop to_bytes
signed = refl

not_deployed : is_wallet_deployed chain 9 ≡ ok false
unfolding is_wallet_deployed
not_deployed = refl

abbrev estimates : List ℤ
estimates = pos 21004 ∷ pos 22016 ∷ pos 23016 ∷ []

estimated :
    estimate_prefixes node stand_in counting default_estimator drawn 0 9 signature
      (estimate_overrides node sequence_context 9 false)
      end
      two_calls
    ≡ ok estimates
unfolding estimate_prefixes estimate_prefix estimate_call estimate_overrides build_proxy
    overrides_address gas_or_error int64_of_cost calldata_cost cost_loop encoded_transactions
    execute_call clone_children is_bundle is_valid ◌+ℤ◌ from_bytes
estimated = refl

estimate-add_limits_example :
    (first last : ℤ) × (limited : Transactions) × (estimate_prefix node stand_in counting
        default_estimator drawn 0 9 signature
        (estimate_overrides node sequence_context 9 false)
        end
      ≡ ok first)
    × (estimate_prefix node stand_in counting default_estimator drawn 2 9 signature
          (estimate_overrides node sequence_context 9 false)
          two_calls
        ≡ ok last)
    × (estimate node stand_in counting default_estimator drawn
          (λ i j. drawn i)
          chain
          9
          one_signer
          sequence_context
          (ok (true ∷ []))
          only
          two_calls
        ≡ ok (uint64_of last, limited))
    × (add_limits first limited ≡ last)
    × (without_limits limited ≡ without_limits two_calls)
estimate-add_limits_example =
    estimate-add_limits node stand_in counting default_estimator drawn (λ i j. drawn i) chain 9
      one_signer sequence_context (true ∷ []) only two_calls signature false estimates tt signed
      not_deployed estimated
