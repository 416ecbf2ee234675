-- ===== src/Signature.antt =====
-- signature.go: the data of a Sequence signature.
pub mod Codec
pub mod Knapsack
pub mod Weight
pub mod Join
pub mod Recover
pub mod Validity
pub mod Reduce
use go_sequence.Base.{ℕ, List, Option}
use go_sequence.Base.Bytes.{Bytes}
use go_sequence.Ethkit.{Address}

-- The fields `Weight` and `Type` are uint8. A nil `Value` is the empty list: the code reads only its
-- length and its bytes.
pub record SignaturePart : Type 0 where
  pub weight : ℕ
  pub address : Address
  pub type : ℕ
  pub value : Bytes

-- `[]*SignaturePart`: `none` is a nil pointer.
abbrev pub SignatureParts : Type 0
SignatureParts = List (Option SignaturePart)

pub record Signature : Type 0 where
  pub threshold : ℕ
  pub signers : SignatureParts

-- `SignaturePartTypeEOA`, `SignaturePartTypeAddress`, `SignaturePartTypeDynamic`
abbrev pub part_type_eoa : ℕ
part_type_eoa = 0

abbrev pub part_type_address : ℕ
part_type_address = 1

abbrev pub part_type_dynamic : ℕ
part_type_dynamic = 2

-- `SignatureTypeEip712`, `SignatureTypeEthSign`, `SignatureTypeEip1271`
abbrev pub signature_type_eip712 : ℕ
signature_type_eip712 = 1

abbrev pub signature_type_eth_sign : ℕ
signature_type_eth_sign = 2

abbrev pub signature_type_eip1271 : ℕ
signature_type_eip1271 = 3
