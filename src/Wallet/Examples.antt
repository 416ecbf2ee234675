-- ===== src/Wallet/Examples.antt =====
-- A wallet of three signers, two of which are at hand.
use go_sequence.Base.{◌≡◌, refl, [], ◌∷◌, ◌++◌, none, some, true, false, replicate, arith}
use go_sequence.Base.Bytes.{Bytes, to_bytes, from_bytes}
use go_sequence.Base.Result.{ok, err, external}
use go_sequence.Ethkit.{Provider, Address}
use go_sequence.Ethkit.StandIn.{stand_in, stand_in-IsDocumented}
use go_sequence.Network.{sequence_context}
use go_sequence.Config.{WalletConfig, address_from_wallet_config, is_wallet_config_usable}
use go_sequence.Digest.{Hash}
use go_sequence.Signature.{Signature}
use go_sequence.Signature.Recover.{address_of_key}
use go_sequence.Signature.Validity.{is_valid_signature}
use go_sequence.Wallet.{
  Signer, Wallet, WalletOptions, new_wallet, set_chain_id, get_signer_weight, weight_of_addresses,
  get_signer_addresses, weight_of_address, configured, addressed,
}
use go_sequence.Wallet.Formed.{IsKept, here, after, set_a_chain_id, new_wallet-Reach}
use go_sequence.Wallet.Sign.{sign_digest}
use go_sequence.Wallet.Sign.Valid.{IsSigning, is_valid_signature-sign_digest}

-- The stand-in recovers the address from the last 20 of the first 64 bytes.
abbrev signer_of : Address → Signer
signer_of a = record {
  address = a;
  sign_message = λ msg. ok (replicate 44 0 ++ (to_bytes 20 a ++ (27 ∷ [])));
}

signs_a : IsSigning stand_in (signer_of 0xa)
unfolding address_of_key to_bytes from_bytes
signs_a msg = (
  _,
  refl,
  record {
    length_65 = refl;
    bytes_in_range = omega arith;
    recovery_id = omega arith;
    key = _;
    recovered = refl;
    address_of = refl;
  },
)

signs_c : IsSigning stand_in (signer_of 0xc)
unfolding address_of_key to_bytes from_bytes
signs_c msg = (
  _,
  refl,
  record {
    length_65 = refl;
    bytes_in_range = omega arith;
    recovery_id = omega arith;
    key = _;
    recovered = refl;
    address_of = refl;
  },
)

abbrev three_of_three : WalletConfig
three_of_three = record {
  threshold = 3;
  signers =
      record { weight = 1; address = 0xa }
      ∷ record { weight = 1; address = 0xb }
      ∷ record { weight = 1; address = 0xc }
      ∷ [];
}

abbrev wallet : Wallet
wallet = record {
  context = sequence_context;
  config = three_of_three;
  signers = signer_of 0xa ∷ signer_of 0xc ∷ [];
  provider = none;
  relayer = none;
  address = 1188162929720951446757261388068736794090256167699;
  skip_sort_signers = false;
  chain_id = some 1337;
}

wallet_derived :
    address_from_wallet_config stand_in three_of_three sequence_context ≡ ok wallet.address
unfolding address_from_wallet_config from_bytes to_bytes
wallet_derived = refl

abbrev bare_chain : Provider
bare_chain = record {
  chain_id = ok 1337;
  code_at = λ a. ok [];
  is_valid_signature = λ a digest sig. err (external 0);
}

abbrev message : Hash
message = replicate 32 9

is_valid_signature-sign_digest_example :
    (signed : Bytes × Signature) × (sign_digest stand_in wallet message [] ≡ ok signed)
    × (is_valid_signature stand_in wallet.address message signed.0 sequence_context
          (some 1337)
          bare_chain
        ≡ ok true)
is_valid_signature-sign_digest_example =
    is_valid_signature-sign_digest stand_in wallet bare_chain 1337 message (external 0)
      stand_in-IsDocumented
      (record {
        threshold_fits = omega arith;
        signers_fit = (
          (omega arith, omega arith),
          ((omega arith, omega arith), ((omega arith, omega arith), tt)),
        );
      })
      (omega arith) (omega arith) refl (signs_a, (signs_c, tt)) wallet_derived refl (λ sig. refl)

weight_at_hand : get_signer_weight wallet ≡ 2
unfolding get_signer_weight weight_of_addresses get_signer_addresses weight_of_address
weight_at_hand = refl

abbrev options : WalletOptions
options = record {
  config = three_of_three;
  context = none;
  skip_sort_signers = true;
  address = 0x77;
}

abbrev fresh : Wallet
fresh = record wallet { address = 0x77; signers = []; skip_sort_signers = true; chain_id = none }

fresh_made : new_wallet stand_in options [] ≡ ok fresh
unfolding new_wallet configured addressed is_wallet_config_usable
fresh_made = refl

new_wallet-Reach_example : IsKept 0x77 sequence_context (set_chain_id fresh (some 5))
new_wallet-Reach_example =
    new_wallet-Reach stand_in options [] fresh_made (λ e. absurd (omega arith))
      (after here (set_a_chain_id (some 5)))
