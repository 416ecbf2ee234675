-- ===== src/Deployer/Create2.antt =====
-- `ComputeCreate2Address` of deployer/deployer.go.
pub mod Eip1014
use go_sequence.Base.{ℕ, ◌^◌, List, [], ◌∷◌, ◌++◌, ltb, ◌&&◌, if◌then◌else◌, length, drop}
use go_sequence.Base.Bytes.{Bytes}
use go_sequence.Base.Int.{ℤ, pos, sub_ℕ}
use go_sequence.Base.Result.{Result, ok, ◌>>=◌}
use go_sequence.Ethkit.{Ethkit, Address, address, bytes1, bytes32}

abbrev pub universal_deployer_2_address : Address
universal_deployer_2_address = 0x8a5bc19e22d6ad55a2c763b93a75d09f321fe764

-- What the deployer calls of the ABI coder: the packing of the arguments of a contract's constructor,
-- which has `inputs` inputs; of the call `deploy` of the universal deployer; and
-- `ethcoder.SolidityPack([]string{"uint256"}, …)` of an integer that may be negative.
pub record Packer (Arg : Type 0) : Type 0 where
  pub inputs : ℕ
  pub pack : List Arg → Result Bytes
  pub pack_deploy : Bytes → ℤ → Result Bytes
  pub pack_uint256 : ℤ → Result Bytes

-- `int64(contractInstance)` of a `uint`, which wraps around.
abbrev pub int64_of : ℕ → ℤ
int64_of n = if ltb n (2 ^ 63) then pos n else sub_ℕ n (2 ^ 64)

-- `ComputeCreate2Address`: the address, and the code that is deployed.
unfoldable pub compute_create2_address :
    {Arg : Type 0} → Ethkit → Packer Arg → Bytes → ℕ → List Arg → Result (Address × Bytes)
compute_create2_address k p contract_bin contract_instance contract_args = do
  input ← p.pack (if ltb 0 (length contract_args) && ltb 0 p.inputs then contract_args else [])
  let deploy_data = contract_bin ++ input
  salt ← p.pack_uint256 (int64_of contract_instance)
  hash_pack ← k.solidity_pack (
      bytes1 (255 ∷ [])
      ∷ address universal_deployer_2_address
      ∷ bytes32 salt
      ∷ bytes32 (k.keccak256 deploy_data)
      ∷ [])
  ok (k.bytes_to_address (drop 12 (k.keccak256 hash_pack)), deploy_data)
