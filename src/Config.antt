-- ===== src/Config.antt =====
-- config.go: the configuration of a wallet, its image hash and the address that follows from it.
-- An error that is wrapped with a message keeps the constructor of the error inside.
pub mod Sort
pub mod Usable
mod Examples
use go_sequence.Base.{
  ℕ, zero, suc, ◌+◌, ◌%◌, ◌^◌, List, [], ◌∷◌, ◌++◌, Option, none, some, Bool, true, false, ltb,
  ◌==◌, if◌then◌else◌, take, drop, replicate,
}
use go_sequence.Base.Bytes.{Bytes, bytes_equal, to_bytes}
use go_sequence.Base.Result.{
  Result, ok, err, panic, out_of_fuel, ◌>>=◌, ◌>>◌, signer_duplicate, threshold_zero,
  threshold_above_weight,
}
use go_sequence.Ethkit.{Ethkit, PackArg, Address}
use go_sequence.Network.{WalletContext}

-- `Weight` is a uint8 and `Threshold` a uint16.
pub record WalletConfigSigner : Type 0 where
  pub weight : ℕ
  pub address : Address

abbrev pub WalletConfigSigners : Type 0
WalletConfigSigners = List WalletConfigSigner

pub record WalletConfig : Type 0 where
  pub threshold : ℕ
  pub signers : WalletConfigSigners

-- `GetWeightByAddress`
pub get_weight_by_address : WalletConfigSigners → Address → ℕ × Bool
get_weight_by_address [] a = (0, false)
get_weight_by_address (s ∷ signers) a =
    if s.address == a then (s.weight, true) else get_weight_by_address signers a

-- A slice as a [32]byte array: `copy(mm[:], b)`.
abbrev pub to_array32 : Bytes → Bytes
to_array32 b = take 32 (b ++ replicate 32 0)

-- The bytes of `WalletContractBytecode` of wallet.go.
abbrev pub wallet_contract_bytecode : Bytes
wallet_contract_bytecode =
    to_bytes 40 0x603a600e3d39601a805130553df3363d3d373d3d3d363d30545af43d82803e903d91601857fd5bf3

module _ (k : Ethkit) where
  -- The loop of `ImageHashOfWalletConfigBytes`.
  pub image_hash_loop : Bytes → WalletConfigSigners → Result Bytes
  image_hash_loop image_hash [] = ok image_hash
  image_hash_loop image_hash (s ∷ signers) = do
    aux ← k.abi_coder_signer (to_array32 image_hash) s.weight s.address
    image_hash_loop (k.keccak256 aux) signers

  -- `ImageHashOfWalletConfigBytes`
  pub image_hash_bytes : WalletConfig → Result Bytes
  image_hash_bytes c = do
    image_hash ← k.solidity_pack (PackArg.uint256 c.threshold ∷ [])
    image_hash_loop image_hash c.signers

  -- `ImageHashOfWalletConfigBytes32`
  pub image_hash_bytes32 : WalletConfig → Result Bytes
  image_hash_bytes32 c = do image_hash ← image_hash_bytes c; ok (to_array32 image_hash)

  -- `ImageHashOfWalletConfig`
  pub image_hash : WalletConfig → Result Bytes
  image_hash c = do hash ← image_hash_bytes c; ok (k.hex_encode hash)

  -- `AddressFromImageHash`, with `WalletContractBytecode` of wallet.go.
  pub address_from_image_hash : Bytes → WalletContext → Result Address
  address_from_image_hash hash context = do
    let main_module32 = replicate 12 0 ++ k.address_bytes context.main_module_address
    code_pack ←
        k.solidity_pack
          (PackArg.bytes wallet_contract_bytecode ∷ PackArg.bytes32 main_module32 ∷ [])
    let code_hash = k.keccak256 code_pack
    hash_pack ← k.solidity_pack (
        PackArg.bytes1 (0xff ∷ [])
        ∷ PackArg.address context.factory_address
        ∷ PackArg.bytes32 (k.from_hex hash)
        ∷ PackArg.bytes32 code_hash
        ∷ [])
    ok (k.bytes_to_address (drop 12 (k.keccak256 hash_pack)))

  -- `AddressFromWalletConfig`
  unfoldable pub address_from_wallet_config : WalletConfig → WalletContext → Result Address
  unfolding image_hash_loop image_hash_bytes image_hash address_from_image_hash
  address_from_wallet_config c context = do
    hash ← image_hash c
    address_from_image_hash hash context

  -- `IsWalletConfigEqual`
  pub is_wallet_config_equal : WalletConfig → WalletConfig → Bool
  is_wallet_config_equal a b = elim (image_hash a) [
    | ok hash_a ↦ elim (image_hash b) [ ok hash_b ↦ bytes_equal hash_a hash_b | _ ↦ false ]
    | _ ↦ false
  ]

-- `sort.Sort(signers)` by `Less`, the order of the addresses as numbers. The order of signers with
-- the same address is not specified; here it is kept.
pub insert_signer : WalletConfigSigner → WalletConfigSigners → WalletConfigSigners
insert_signer s [] = s ∷ []
insert_signer s (t ∷ signers) =
    if ltb t.address s.address then t ∷ insert_signer s signers else s ∷ t ∷ signers

pub sort_signers : WalletConfigSigners → WalletConfigSigners
sort_signers [] = []
sort_signers (s ∷ signers) = insert_signer s (sort_signers signers)

-- The loop of `SortWalletConfig` over neighbours.
pub has_duplicate : WalletConfigSigners → Bool
has_duplicate [] = false
has_duplicate (s ∷ []) = false
has_duplicate (s ∷ t ∷ signers) =
    if s.address == t.address then true else has_duplicate (t ∷ signers)

-- `SortWalletConfig`: it sorts the slice of the configuration in place.
pub sort_wallet_config : WalletConfig → Result WalletConfig
sort_wallet_config c =
    let sorted = sort_signers c.signers in
    if has_duplicate sorted then err signer_duplicate else ok (record c { signers = sorted })

-- The sum of the weights, on a uint64.
pub weight_sum : ℕ → WalletConfigSigners → ℕ
weight_sum total [] = total
weight_sum total (s ∷ signers) = weight_sum ((total + s.weight) % 2 ^ 64) signers

-- `IsWalletConfigUsable`
unfoldable pub is_wallet_config_usable : WalletConfig → Result Bool
unfolding weight_sum
is_wallet_config_usable c =
    if c.threshold == 0
    then err threshold_zero
    else if ltb (weight_sum 0 c.signers) c.threshold
    then err threshold_above_weight
    else ok true
