-- ===== src/Signature/Codec.antt =====
-- `Signature.Encode` and `DecodeSignature` of signature.go.
pub mod Layout
pub mod Canonical
pub mod RoundTrip
pub mod Longest
mod Examples
use go_sequence.Base.{
  ℕ, zero, suc, List, [], ◌∷◌, ◌++◌, Option, none, some, ltb, ◌==◌, if◌then◌else◌, length, take,
  drop,
}
use go_sequence.Base.Bytes.{Bytes, from_bytes}
use go_sequence.Base.Result.{
  Result, Error, ok, err, panic, out_of_fuel, ◌>>=◌, unknown_signer_type, threshold_out_of_bounds,
  signature_type_out_of_bounds, weight_out_of_bounds, eoa_signature_out_of_bounds,
  address_part_out_of_bounds, dynamic_address_out_of_bounds, signature_size_out_of_bounds,
  dynamic_signature_out_of_bounds, unknown_part,
}
use go_sequence.Ethkit.{Ethkit, PackArg, zero_address}
use go_sequence.Signature.{
  SignaturePart, SignatureParts, Signature, part_type_eoa, part_type_address, part_type_dynamic,
}

-- `if s < ni { return nil, err }`, `sig[i:ni]` and `i = ni`, for `ni = i + n`: the list is what is
-- left of the input from `i` on.
unfoldable pub read : Error → ℕ → Bytes → Result (Bytes × Bytes)
read e n rest = if ltb (length rest) n then err e else ok (take n rest, drop n rest)

read_byte : Error → Bytes → Result (ℕ × Bytes)
read_byte e [] = err e
read_byte e (b ∷ rest) = ok (b, rest)

module _ (k : Ethkit) where
  -- The body of the loop of `Encode`.
  pub encode_part : Option SignaturePart → Result Bytes
  encode_part none = panic
  encode_part (some p) =
      if p.type == part_type_address
      then k.solidity_pack (
          PackArg.uint8 part_type_address ∷ PackArg.uint8 p.weight ∷ PackArg.address p.address ∷ [])
      else if p.type == part_type_eoa
      then k.solidity_pack
          (PackArg.uint8 p.type ∷ PackArg.uint8 p.weight ∷ PackArg.bytes p.value ∷ [])
      else if p.type == part_type_dynamic
      then k.solidity_pack (
          PackArg.uint8 p.type
          ∷ PackArg.uint8 p.weight
          ∷ PackArg.address p.address
          ∷ PackArg.uint16 (length p.value)
          ∷ PackArg.bytes p.value
          ∷ [])
      else err unknown_signer_type

  pub encode_loop : Bytes → SignatureParts → Result Bytes
  encode_loop sig [] = ok sig
  encode_loop sig (signer ∷ signers) = do
    pack ← encode_part signer
    encode_loop (sig ++ pack) signers

  unfoldable pub encode : Signature → Result Bytes
  unfolding encode_part encode_loop
  encode s = do
    sig ← encode_loop [] s.signers
    k.solidity_pack (PackArg.uint16 s.threshold ∷ PackArg.bytes sig ∷ [])

  decode_eoa : ℕ → Bytes → Result (SignaturePart × Bytes)
  decode_eoa w rest = do
    (sp, rest) ← read eoa_signature_out_of_bounds 66 rest
    ok (record { weight = w; address = zero_address; type = part_type_eoa; value = sp }, rest)

  decode_address_part : ℕ → Bytes → Result (SignaturePart × Bytes)
  decode_address_part w rest = do
    (a, rest) ← read address_part_out_of_bounds 20 rest
    let addr = k.bytes_to_address a
    ok (record { weight = w; address = addr; type = part_type_address; value = [] }, rest)

  decode_dynamic : ℕ → Bytes → Result (SignaturePart × Bytes)
  decode_dynamic w rest = do
    (a, rest) ← read dynamic_address_out_of_bounds 20 rest
    let addr = k.bytes_to_address a
    (size, rest) ← read signature_size_out_of_bounds 2 rest
    (sp, rest) ← read dynamic_signature_out_of_bounds (from_bytes size) rest
    ok (record { weight = w; address = addr; type = part_type_dynamic; value = sp }, rest)

  -- The switch of `DecodeSignature` on the type `t` of the entry.
  decode_typed : ℕ → ℕ → Bytes → Result (SignaturePart × Bytes)
  decode_typed t w rest =
      if t == part_type_eoa
      then decode_eoa w rest
      else if t == part_type_address
      then decode_address_part w rest
      else if t == part_type_dynamic
      then decode_dynamic w rest
      else err unknown_part

  -- The body of the loop of `DecodeSignature`.
  pub decode_part : Bytes → Result (SignaturePart × Bytes)
  decode_part rest = do
    (t, rest) ← read_byte signature_type_out_of_bounds rest
    (w, rest) ← read_byte weight_out_of_bounds rest
    decode_typed t w rest

  -- Each round takes two bytes at least, so as much fuel as there are bytes is enough.
  pub decode_loop : ℕ → Bytes → SignatureParts → Result SignatureParts
  decode_loop fuel [] parts = ok parts
  decode_loop zero (_ ∷ _) parts = out_of_fuel
  decode_loop (suc fuel) (b ∷ bs) parts = do
    (p, rest) ← decode_part (b ∷ bs)
    decode_loop fuel rest (parts ++ (some p ∷ []))

  -- `DecodeSignature`
  unfoldable pub decode_signature : Bytes → Result Signature
  decode_signature sig = do
    (high, rest) ← read threshold_out_of_bounds 2 sig
    parts ← decode_loop (length rest) rest []
    ok (record { threshold = from_bytes high; signers = parts })
