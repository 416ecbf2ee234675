-- ===== src/Deployer/Create2/Eip1014.antt =====
-- The address that `ComputeCreate2Address` of deployer/deployer.go returns, beside EIP-1014.
use go_sequence.Base.{
  ℕ, ◌^◌, ◌<◌, ◌≡◌, refl, List, [], ◌∷◌, ◌++◌, append-nil, ltb, ◌&&◌, if◌then◌else◌, length, drop,
  All, arith,
}
use go_sequence.Base.Bytes.{Bytes, to_bytes, length-to_bytes}
use go_sequence.Base.Int.{pos}
use go_sequence.Base.Result.{ok}
use go_sequence.Ethkit.{Ethkit, Address, PackArg, bytes1, bytes32, address, Fits, IsDocumented}
use go_sequence.Deployer.Create2.{
  Packer, int64_of, universal_deployer_2_address, compute_create2_address,
}

-- EIP-1014: the last 20 bytes of `keccak256(0xff ++ address ++ salt ++ keccak256(init_code))`, for the
-- contract that creates, a salt of 32 bytes and the code.
abbrev pub create2_address : Ethkit → Address → Bytes → Bytes → Address
create2_address k creator salt code =
    k.bytes_to_address
      (drop 12 (k.keccak256 (255 ∷ (k.address_bytes creator ++ (salt ++ k.keccak256 code)))))

-- The arguments that are packed: none when the constructor has no inputs.
abbrev pub packed_args : {Arg : Type 0} → Packer Arg → List Arg → List Arg
packed_args p args = if ltb 0 (length args) && ltb 0 p.inputs then args else []

-- The ABI coder packs a uint256 in 32 bytes, and a call of `deploy` with any bytes and a uint256.
pub record IsPacker {Arg : Type 0} (p : Packer Arg) : Type 0 where
  pub packs_uint256 : (n : ℕ) → n < 2 ^ 256 → p.pack_uint256 (pos n) ≡ ok (to_bytes 32 n)
  pub packs_deploy :
      (code : Bytes) (n : ℕ)
      → n < 2 ^ 256
      → (input : Bytes) × (p.pack_deploy code (pos n) ≡ ok input)

pub int64_of-pos : (n : ℕ) → n < 2 ^ 63 → int64_of n ≡ pos n
int64_of-pos n h = ground arith

pub compute_create2_address-create2_address :
    {Arg : Type 0} (k : Ethkit) (p : Packer Arg) (contract_bin input : Bytes) (n : ℕ)
    (contract_args : List Arg)
    → IsDocumented k
    → IsPacker p
    → n < 2 ^ 63
    → p.pack (packed_args p contract_args) ≡ ok input
    → compute_create2_address k p contract_bin n contract_args
      ≡ ok (
        create2_address k universal_deployer_2_address (to_bytes 32 n) (contract_bin ++ input),
        contract_bin ++ input,
      )
unfolding compute_create2_address
compute_create2_address-create2_address k p contract_bin input n contract_args d packs small
      packed =
    let code = contract_bin ++ input in
    let args : List PackArg =
      bytes1 (255 ∷ [])
      ∷ address universal_deployer_2_address
      ∷ bytes32 (to_bytes 32 n)
      ∷ bytes32 (k.keccak256 code)
      ∷ [] in
    let fits : All Fits args =
      (refl, (omega arith, (length-to_bytes 32 n, (d.length-keccak256 code, tt)))) in
    rw (
      packed,
      int64_of-pos n small,
      packs.packs_uint256 n (omega arith),
      d.packs args fits,
      append-nil,
    )
