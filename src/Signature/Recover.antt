-- ===== src/Signature/Recover.antt =====
-- `SignaturePart.Recover`, `SignaturePart.IsValid` and `Signature.Recover` of signature.go.
pub mod Kept
pub mod Signed
mod Examples
use go_sequence.Base.{
  ℕ, zero, suc, ◌+◌, ◌-◌, ◌/◌, ◌%◌, List, [], ◌∷◌, ◌++◌, Option, none, some, Bool, true, false, not,
  ◌||◌, ltb, ◌==◌, if◌then◌else◌, length, get_or, set, take, drop,
}
use go_sequence.Base.Bytes.{Bytes, bytes_equal, codes}
use go_sequence.Base.Result.{
  Result, ok, err, panic, out_of_fuel, ◌>>=◌, bad_signature_length, signature_type_not_implemented,
  invalid_signature, validate_without_address, eip712_not_implemented,
}
use go_sequence.Ethkit.{Ethkit, Provider, Address, zero_address}
use go_sequence.Signature.{
  SignaturePart, SignatureParts, Signature, signature_type_eip712, signature_type_eth_sign,
  signature_type_eip1271,
}

-- A number in decimal (`%d`): as many digits as the fuel allows, in front of `digits`.
pub decimal_loop : ℕ → ℕ → Bytes → Bytes
decimal_loop zero n digits = digits
decimal_loop (suc fuel) n digits =
    let more = decimal_loop fuel (n / 10) ((48 + n % 10) ∷ digits) in
    if ltb n 10 then (48 + n) ∷ digits else more

-- A number below 2 ^ 64 has at most 20 digits.
pub decimal : ℕ → Bytes
decimal n = decimal_loop 20 n []

-- "\x19Ethereum Signed Message:\n", the length of the message and the message.
pub eth_signed_message : Bytes → Bytes
eth_signed_message msg =
    0x19 ∷ (codes "Ethereum Signed Message:" ++ (10 ∷ (decimal (length msg) ++ msg)))

abbrev pub last_byte : Bytes → ℕ
last_byte b = get_or b (length b - 1) 0

-- `sigx`: the first 65 bytes, with 27 taken off the last of them if it is above 1.
pub recovery_signature : Bytes → Bytes
recovery_signature b =
    let sigx = take 65 b in
    let v = get_or sigx 64 0 in if ltb 1 v then set sigx 64 ((v + 256 - 27) % 256) else sigx

-- The address of a public key; `pubkey[1:]` panics on an empty slice.
unfoldable pub address_of_key : Ethkit → Bytes → Result Address
address_of_key k [] = panic
address_of_key k (_ ∷ key) = ok (k.bytes_to_address (drop 12 (k.keccak256 key)))

module _ (k : Ethkit) where
  -- `SignaturePart.Recover`
  unfoldable pub part_recover : SignaturePart → Bytes → Result Address
  unfolding recovery_signature eth_signed_message decimal decimal_loop
  part_recover p msg =
      let recovered = do
        pubkey ← k.ecrecover (k.keccak256 (eth_signed_message msg)) (recovery_signature p.value)
        address_of_key k pubkey
      in if length p.value == 65 || length p.value == 66
        then if last_byte p.value == signature_type_eth_sign
          then recovered
          else err signature_type_not_implemented
        else err bad_signature_length

  -- The call of the EIP-1271 wallet in `IsValid`. `p.Value[:len(p.Value)-2]` panics on a slice of one
  -- byte.
  pub eip1271_is_valid : SignaturePart → Bytes → Provider → Result Bool
  eip1271_is_valid p digest provider =
      let answer = do
        res ← provider.is_valid_signature p.address digest (take (length p.value - 2) p.value)
        ok (not (bytes_equal (codes "0x1626ba7e") (k.hex_encode res)))
      in if ltb (length p.value) 2 then panic else answer

  -- `SignaturePart.IsValid`
  pub part_is_valid : SignaturePart → Bytes → Provider → Result Bool
  part_is_valid p digest provider =
      let by_recovery = do recovered ← part_recover p digest; ok (recovered == p.address)
      in if length p.value == 0
        then panic
        else if p.address == zero_address
        then err validate_without_address
        else if last_byte p.value == signature_type_eip712
        then err eip712_not_implemented
        else if last_byte p.value == signature_type_eth_sign
        then by_recovery
        else if last_byte p.value == signature_type_eip1271
        then eip1271_is_valid p digest provider
        else err signature_type_not_implemented

  -- The branch of `Signature.Recover` for a part with an address: it is only checked, and only when
  -- there is a provider. `msg[:32]` panics on a message that is shorter, as a slice has no capacity
  -- beyond its length here; in Go it reads into the capacity when there is some.
  pub recover_dynamic : SignaturePart → Bytes → Option Provider → Result SignaturePart
  recover_dynamic p msg none = if ltb (length msg) 32 then panic else ok p
  recover_dynamic p msg (some provider) =
      let checked = do
        valid ← part_is_valid p (take 32 msg) provider
        if valid then ok p else err invalid_signature
      in if ltb (length msg) 32 then panic else checked

  -- The body of the loop of `Signature.Recover`. In the branch for a part without an address the test
  -- for a conflict is never reached.
  pub recover_one : Bytes → Option Provider → Option SignaturePart → Result SignaturePart
  recover_one msg provider none = panic
  recover_one msg provider (some p) =
      let eoa = do rc ← part_recover p msg; ok (record p { address = rc })
      in if length p.value == 0
        then ok p
        else if not (p.address == zero_address)
        then recover_dynamic p msg provider
        else eoa

  pub recover_loop : Bytes → Option Provider → SignatureParts → Result SignatureParts
  recover_loop msg provider [] = ok []
  recover_loop msg provider (p ∷ parts) = do
    q ← recover_one msg provider p
    qs ← recover_loop msg provider parts
    ok (some q ∷ qs)

  -- `Signature.Recover`
  pub recover : Signature → Bytes → Option Provider → Result Signature
  recover s msg provider = do
    parts ← recover_loop msg provider s.signers
    ok (record s { signers = parts })
