-- ===== src/Estimator/Stub.antt =====
-- `BuildStubSignature` of estimator.go: a signature made up to estimate what a real one costs.
pub mod Parts
pub mod Decoded
use go_sequence.Base.{
  ℕ, zero, suc, ◌+◌, List, [], ◌∷◌, ◌++◌, Option, some, Bool, true, false, replicate,
}
use go_sequence.Base.Bytes.{Bytes}
use go_sequence.Base.Result.{Result, ok, err, panic, out_of_fuel, ◌>>=◌}
use go_sequence.Ethkit.{Ethkit, Address}
use go_sequence.Config.{WalletConfig, WalletConfigSigner, WalletConfigSigners}
use go_sequence.Signature.{
  SignaturePart, SignatureParts, Signature, part_type_eoa, part_type_address, part_type_dynamic,
}
use go_sequence.Signature.Codec.{encode}

-- The constant `sig`.
abbrev pub stub_sig : Bytes
stub_sig =
    (0x1f ∷ replicate 31 0xff)
    ++ ((0x7f ∷ replicate 15 0xff)
        ++ (0x5d ∷ 0x57 ∷ 0x6e ∷ 0x73 ∷ 0x57 ∷ 0xa4 ∷ 0x50 ∷ 0x1d ∷ 0xdf ∷ 0xe9 ∷ 0x2f ∷ 0x46 ∷ 0x68
            ∷ 0x1b ∷ 0x20 ∷ 0xa0 ∷ 0x1b ∷ 0x02 ∷ []))

-- `if err != nil { panic(err) }`
unfoldable pub encoded_or_panic : Result Bytes → Result Bytes
encoded_or_panic (ok encoded) = ok encoded
encoded_or_panic (err e) = panic
encoded_or_panic panic = panic
encoded_or_panic out_of_fuel = out_of_fuel

unfoldable pub eoa_part : WalletConfigSigner → SignaturePart
eoa_part s = record {
  weight = s.weight;
  address = s.address;
  type = part_type_eoa;
  value = stub_sig;
}

unfoldable pub dynamic_part : WalletConfigSigner → Bytes → SignaturePart
dynamic_part s sig = record {
  weight = s.weight;
  address = s.address;
  type = part_type_dynamic;
  value = sig ++ (3 ∷ []);
}

unfoldable pub address_only : WalletConfigSigner → SignaturePart
address_only s = record {
  weight = s.weight;
  address = s.address;
  type = part_type_address;
  value = [];
}

-- The parts of the signers from the index `i` on, with what is left of the two lists from there: an
-- index out of range panics, and the second list is read only for a signer who signs.
unfoldable pub stub_parts :
    (nested : ℕ → Result Bytes)
    → ℕ
    → WalletConfigSigners
    → (will_sign is_eoa : List Bool) → Result SignatureParts
stub_parts nested i [] will_sign is_eoa = ok []
stub_parts nested i (s ∷ signers) [] is_eoa = panic
stub_parts nested i (s ∷ signers) (false ∷ will_sign) [] = do
  parts ← stub_parts nested (i + 1) signers will_sign []
  ok (some (address_only s) ∷ parts)
stub_parts nested i (s ∷ signers) (false ∷ will_sign) (e ∷ is_eoa) = do
  parts ← stub_parts nested (i + 1) signers will_sign is_eoa
  ok (some (address_only s) ∷ parts)
stub_parts nested i (s ∷ signers) (true ∷ will_sign) [] = panic
stub_parts nested i (s ∷ signers) (true ∷ will_sign) (true ∷ is_eoa) = do
  parts ← stub_parts nested (i + 1) signers will_sign is_eoa
  ok (some (eoa_part s) ∷ parts)
stub_parts nested i (s ∷ signers) (true ∷ will_sign) (false ∷ is_eoa) = do
  sig ← nested i
  parts ← stub_parts nested (i + 1) signers will_sign is_eoa
  ok (some (dynamic_part s sig) ∷ parts)

-- `stubAddress`, on the bytes that `rand.Read` fills in.
abbrev pub stub_address : Ethkit → Bytes → Address
stub_address k raw = k.bytes_to_address raw

abbrev pub stub_signer : Ethkit → Bytes → WalletConfigSigner
stub_signer k raw = record { address = stub_address k raw; weight = 1 }

-- The configuration of a signer that is a contract. `draw j` are the bytes of the j-th address.
abbrev pub stub_config : Ethkit → (ℕ → Bytes) → WalletConfig
stub_config k draw = record {
  threshold = 2;
  signers = stub_signer k (draw 0) ∷ stub_signer k (draw 1) ∷ stub_signer k (draw 2) ∷ [];
}

-- The recursion, on fuel. `random i j` are the bytes of the j-th address for the signer with index `i`.
unfoldable pub build_on :
    Ethkit
    → (random : ℕ → ℕ → Bytes) → ℕ
    → WalletConfig
    → (will_sign is_eoa : List Bool) → Result Bytes
build_on k random zero c will_sign is_eoa = out_of_fuel
build_on k random (suc fuel) c will_sign is_eoa =
    let nested : ℕ → Result Bytes = λ i.
      build_on k random fuel (stub_config k (random i)) (false ∷ true ∷ true ∷ [])
        (true ∷ true ∷ true ∷ []) in
    do
      parts ← stub_parts nested 0 c.signers will_sign is_eoa
      encoded_or_panic (encode k (record { threshold = c.threshold; signers = parts }))

-- `BuildStubSignature`. The signers of the nested configuration are no contracts, so two levels are
-- enough.
unfoldable pub build_stub_signature :
    Ethkit → (random : ℕ → ℕ → Bytes) → WalletConfig → (will_sign is_eoa : List Bool) → Result Bytes
build_stub_signature k random c will_sign is_eoa = build_on k random 2 c will_sign is_eoa
