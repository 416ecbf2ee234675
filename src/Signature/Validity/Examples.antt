-- ===== src/Signature/Validity/Examples.antt =====
-- A wallet of three signers, not deployed.
use go_sequence.Base.{◌≡◌, refl, [], ◌∷◌, some, true, replicate, ◌++◌, arith}
use go_sequence.Base.Bytes.{Bytes, to_bytes, from_bytes}
use go_sequence.Base.Result.{ok, err, external}
use go_sequence.Ethkit.{Provider, Address}
use go_sequence.Ethkit.StandIn.{stand_in, stand_in-IsDocumented}
use go_sequence.Network.{sequence_context}
use go_sequence.Config.{WalletConfig, address_from_wallet_config}
use go_sequence.Digest.{Hash}
use go_sequence.Signature.Codec.{encode}
use go_sequence.Signature.Validity.{is_valid_signature}
use go_sequence.Signature.Validity.Unsigned.{unsigned, is_valid_signature-unsigned}

abbrev three_of_three : WalletConfig
three_of_three = record {
  threshold = 3;
  signers =
      record { weight = 1; address = 0xa }
      ∷ record { weight = 1; address = 0xb }
      ∷ record { weight = 1; address = 0xc }
      ∷ [];
}

abbrev wallet : Address
wallet = 1188162929720951446757261388068736794090256167699

abbrev unsigned_bytes : Bytes
unsigned_bytes =
    0
    ∷ 3
    ∷ (1
        ∷ 1
        ∷ (replicate 19 0
            ++ (0xa
                ∷ (1 ∷ 1 ∷ (replicate 19 0 ++ (0xb ∷ (1 ∷ 1 ∷ (replicate 19 0 ++ (0xc ∷ [])))))))))

wallet_derived : address_from_wallet_config stand_in three_of_three sequence_context ≡ ok wallet
unfolding address_from_wallet_config from_bytes to_bytes
wallet_derived = refl

unsigned_encoded : encode stand_in (unsigned three_of_three) ≡ ok unsigned_bytes
unfolding encode to_bytes
unsigned_encoded = refl

abbrev bare_chain : Provider
bare_chain = record {
  chain_id = ok 1337;
  code_at = λ a. ok [];
  is_valid_signature = λ a digest sig. err (external 0);
}

abbrev message : Hash
message = replicate 32 9

is_valid_signature-unsigned_example :
    is_valid_signature stand_in wallet message unsigned_bytes sequence_context
      (some 1337)
      bare_chain
    ≡ ok true
is_valid_signature-unsigned_example =
    is_valid_signature-unsigned stand_in three_of_three sequence_context wallet bare_chain 1337
      message unsigned_bytes (external 0) stand_in-IsDocumented
      (record {
        threshold_fits = omega arith;
        signers_fit = (
          (omega arith, omega arith),
          ((omega arith, omega arith), ((omega arith, omega arith), tt)),
        );
      })
      (omega arith) (omega arith) wallet_derived refl unsigned_encoded refl
