-- ===== src/Ethkit.antt =====
-- What the client calls of github.com/0xsequence/ethkit (ethcoder, common, crypto): parameters of the
-- model, and what the documentation of those functions says of them.
pub mod StandIn
use go_sequence.Base.{ℕ, ◌^◌, ◌<◌, ◌≡◌, Bool, List, [], ◌∷◌, ◌++◌, length, All}
use go_sequence.Base.Bytes.{Bytes, IsByte, to_bytes}
use go_sequence.Base.Result.{Result, ok, Ends}

-- `common.Address`, by the number that its 20 bytes stand for.
abbrev pub Address : Type 0
Address = ℕ

-- `zeroAddress`
abbrev pub zero_address : Address
zero_address = 0

abbrev pub IsAddress : Address → Type 0
IsAddress a = a < 2 ^ 160

-- A value with its type, as `ethcoder.SolidityPack` takes them.
pub data PackArg : Type 0 where
  uint8 uint16 uint256 : ℕ → PackArg
  address : Address → PackArg
  bytes bytes1 bytes32 string : Bytes → PackArg

pub record Ethkit : Type 0 where
  -- `ethcoder.SolidityPack`
  pub solidity_pack : List PackArg → Result Bytes
  -- `ethcoder.AbiCoder([]string{"bytes32", "uint8", "address"}, …)`
  pub abi_coder_signer : Bytes → ℕ → Address → Result Bytes
  -- `ethcoder.Keccak256`, `crypto.Keccak256`
  pub keccak256 : Bytes → Bytes
  -- `crypto.Ecrecover`
  pub ecrecover : Bytes → Bytes → Result Bytes
  -- `ethcoder.HexEncode` (and `hexutil.Encode`) and `common.FromHex`, on the bytes of the text
  pub hex_encode : Bytes → Bytes
  pub from_hex : Bytes → Bytes
  -- `ethwallet.IsValid191Signature`
  pub is_valid_191_signature : Address → Bytes → Bytes → Result Bool
  -- `common.BytesToAddress` and `Address.Bytes`
  pub bytes_to_address : Bytes → Address
  pub address_bytes : Address → Bytes

-- `ethrpc.Provider`: a node of the chain. A nil provider is `none` of the option.
pub record Provider : Type 0 where
  -- `ChainID`
  pub chain_id : Result ℕ
  -- `CodeAt`
  pub code_at : Address → Result Bytes
  -- `ierc1271.NewIERC1271` and a call of the contract's `isValidSignature(bytes32,bytes)`
  pub is_valid_signature : Address → Bytes → Bytes → Result Bytes

-- A packed value is in range for its type.
abbrev pub Fits : PackArg → Type 0
Fits (uint8 n) = n < 2 ^ 8
Fits (uint16 n) = n < 2 ^ 16
Fits (uint256 n) = n < 2 ^ 256
Fits (address a) = IsAddress a
Fits (bytes b) = Unit
Fits (bytes1 b) = length b ≡ 1
Fits (bytes32 b) = length b ≡ 32
Fits (string s) = Unit

-- The third-party calls come to an end.
pub record HasEnds (k : Ethkit) : Type 0 where
  pub solidity_pack-Ends : (args : List PackArg) → Ends (k.solidity_pack args)
  pub ecrecover-Ends : (hash sig : Bytes) → Ends (k.ecrecover hash sig)

module _ (k : Ethkit) where
  -- The bytes of one value in Solidity's packed mode.
  abbrev pub packed : PackArg → Bytes
  packed (uint8 n) = n ∷ []
  packed (uint16 n) = to_bytes 2 n
  packed (uint256 n) = to_bytes 32 n
  packed (address a) = k.address_bytes a
  packed (bytes b) = b
  packed (bytes1 b) = b
  packed (bytes32 b) = b
  packed (string s) = s

  abbrev pub packed_all : List PackArg → Bytes
  packed_all [] = []
  packed_all (a ∷ as') = packed a ++ packed_all as'

  -- Packing succeeds on values that fit and puts their bytes one after the other, a hash has 32
  -- bytes, hexadecimal text stands for its bytes, and an address is its 20 bytes.
  pub record IsDocumented : Type 0 where
    pub packs : (args : List PackArg) → All Fits args → k.solidity_pack args ≡ ok (packed_all args)
    pub length-keccak256 : (b : Bytes) → length (k.keccak256 b) ≡ 32
    pub from_hex-hex_encode : (b : Bytes) → All IsByte b → k.from_hex (k.hex_encode b) ≡ b
    pub length-address_bytes : (a : Address) → length (k.address_bytes a) ≡ 20
    pub address_bytes-IsByte : (a : Address) → All IsByte (k.address_bytes a)
    pub bytes_to_address-address_bytes :
        (a : Address) → IsAddress a → k.bytes_to_address (k.address_bytes a) ≡ a
    pub address_bytes-bytes_to_address :
        (b : Bytes) → length b ≡ 20 → All IsByte b → k.address_bytes (k.bytes_to_address b) ≡ b
    pub bytes_to_address-IsAddress : (b : Bytes) → All IsByte b → IsAddress (k.bytes_to_address b)
