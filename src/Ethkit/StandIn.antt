-- ===== src/Ethkit/StandIn.antt =====
-- A concrete instance of the third-party functions, for the examples: addresses are cropped from the
-- left, values are packed as documented, and the hash and the recovery are simple stand-ins.
use go_sequence.Base.{ℕ, ◌%◌, ◌^◌, ◌<◌, ◌≡◌, refl, List, [], ◌∷◌, ◌++◌, take, arith}
use go_sequence.Base.Bytes.{
  Bytes, to_bytes, from_bytes, length-to_bytes, to_bytes-IsByte, from_bytes-to_bytes,
  to_bytes-from_bytes, from_bytes-lt,
}
use go_sequence.Base.Result.{ok, err, external}
use go_sequence.Ethkit.{
  Ethkit, PackArg, uint8, uint16, uint256, address, bytes, bytes1, bytes32, string, packed,
  packed_all, IsDocumented, HasEnds,
}

abbrev tight : PackArg → Bytes
tight (uint8 n) = n ∷ []
tight (uint16 n) = to_bytes 2 n
tight (uint256 n) = to_bytes 32 n
tight (address a) = to_bytes 20 a
tight (bytes b) = b
tight (bytes1 b) = b
tight (bytes32 b) = b
tight (string s) = s

abbrev tight_all : List PackArg → Bytes
tight_all [] = []
tight_all (a ∷ as') = tight a ++ tight_all as'

-- The hash keeps the lowest 32 bytes; the recovered key is the head of the signature.
abbrev pub stand_in : Ethkit
stand_in = record {
  solidity_pack = λ args. ok (tight_all args);
  abi_coder_signer = λ mm w a. ok (mm ++ (to_bytes 32 w ++ to_bytes 32 a));
  keccak256 = λ b. to_bytes 32 (from_bytes b);
  ecrecover = λ hash sig. ok (4 ∷ take 64 sig);
  hex_encode = λ b. b;
  from_hex = λ b. b;
  is_valid_191_signature = λ a digest sig. err (external 0);
  bytes_to_address = λ b. from_bytes b % 2 ^ 160;
  address_bytes = to_bytes 20;
}

packed-tight : (a : PackArg) → packed stand_in a ≡ tight a
packed-tight (uint8 n) = refl
packed-tight _ = refl

packed_all-tight_all : (args : List PackArg) → packed_all stand_in args ≡ tight_all args
packed_all-tight_all [] = refl
packed_all-tight_all (a ∷ as') = rw (packed-tight a, packed_all-tight_all as')

cropped : (n : ℕ) → n < 256 ^ 20 → n % 2 ^ 160 ≡ n
cropped n h = omega arith

pub stand_in-HasEnds : HasEnds stand_in
stand_in-HasEnds = record { solidity_pack-Ends = λ args. tt; ecrecover-Ends = λ hash sig. tt }

pub stand_in-IsDocumented : IsDocumented stand_in
stand_in-IsDocumented = record {
  packs = λ args fits. rw packed_all-tight_all;
  length-keccak256 = λ b. length-to_bytes 32 (from_bytes b);
  from_hex-hex_encode = λ b h. refl;
  length-address_bytes = length-to_bytes 20;
  address_bytes-IsByte = to_bytes-IsByte 20;
  bytes_to_address-address_bytes = λ a h. rw (from_bytes-to_bytes 20 a (omega arith)) (omega arith);
  address_bytes-bytes_to_address = λ b l h.
      let fits : from_bytes b < 256 ^ 20 = rw l at (from_bytes-lt b h) in
      rw (cropped (from_bytes b) fits) (rw l at (to_bytes-from_bytes b h));
  bytes_to_address-IsAddress = λ b h. omega arith;
}
