-- ===== src/Signature/Codec/Layout.antt =====
-- What `Encode` writes for one part, and what `DecodeSignature` reads of it.
use go_sequence.Base.{
  ℕ, ◌+◌, ◌^◌, ◌<◌, ◌≡◌, refl, ◌∙◌, sym, [], ◌∷◌, ◌++◌, append_assoc, append-nil, Option, none,
  some, ◌==◌, ltb, if◌then◌else◌, length, take-append, drop-append, take-append-drop, length-take,
  length-append, All, arith, Bool-cases, inl, inr,
}
use go_sequence.Base.Bytes.{Bytes, IsByte, to_bytes, length-to_bytes, from_bytes-to_bytes}
use go_sequence.Base.Result.{
  Error, ok, address_part_out_of_bounds, dynamic_address_out_of_bounds,
  signature_size_out_of_bounds, dynamic_signature_out_of_bounds, Returns, value, error,
}
use go_sequence.Ethkit.{Ethkit, Address, IsAddress, zero_address, IsDocumented}
use go_sequence.Signature.{
  SignaturePart, SignatureParts, part_type_eoa, part_type_address, part_type_dynamic,
}
use go_sequence.Signature.Codec.{
  read, read_byte, encode_part, decode_eoa, decode_address_part, decode_dynamic, decode_typed,
  decode_part,
}

-- A part that has the length and the ranges that its type asks for.
pub data IsEncodable (p : SignaturePart) : Type 0 where
  eoa :
      p.type ≡ part_type_eoa
      → p.weight < 2 ^ 8
      → length p.value ≡ 66
      → All IsByte p.value
      → IsEncodable p
  address_part : p.type ≡ part_type_address → p.weight < 2 ^ 8 → IsAddress p.address → IsEncodable p
  dynamic :
      p.type ≡ part_type_dynamic
      → p.weight < 2 ^ 8
      → IsAddress p.address
      → length p.value < 2 ^ 16
      → All IsByte p.value
      → IsEncodable p

-- What the encoding keeps of a part: no address of an EOA part and no value of an address part.
abbrev pub keep : SignaturePart → SignaturePart
keep p =
    if p.type == part_type_eoa
    then record p { address = zero_address }
    else if p.type == part_type_address
    then record p { value = [] }
    else p

-- A nil part cannot be encoded.
abbrev pub IsEncodablePart : Option SignaturePart → Type 0
IsEncodablePart none = ⊥
IsEncodablePart (some p) = IsEncodable p

-- An encodable part that is its own reading.
abbrev pub IsCanonicalPart : Option SignaturePart → Type 0
IsCanonicalPart none = ⊥
IsCanonicalPart (some p) = IsEncodable p × (keep p ≡ p)

pub read-append :
    (e : Error) (n : ℕ) (xs rest : Bytes) → length xs ≡ n → read e n (xs ++ rest) ≡ ok (xs, rest)
unfolding read
read-append e n xs rest h =
    ground
      (arith, length-append xs rest, rw h at (take-append xs rest), rw h at (drop-append xs rest))

pub read-Returns :
    (e : Error) (n : ℕ) (b : Bytes)
    → Returns (λ (xs, rest). (length xs ≡ n) × (b ≡ xs ++ rest)) (read e n b)
unfolding read
read-Returns e n b = elim (Bool-cases (ltb (length b) n)) [
  | inl short ↦ rw short (error e)
  | inr enough ↦ rw enough (value (length-take n b (ground arith), sym (take-append-drop n b)))
]

pub length-append_bytes : (xs ys : Bytes) → length (xs ++ ys) ≡ length xs + length ys
length-append_bytes = length-append

module _ (k : Ethkit) where
  -- The bytes of a part.
  abbrev pub layout : SignaturePart → Bytes
  layout p =
      p.type
      ∷ p.weight
      ∷ (if p.type == part_type_eoa
          then p.value
          else if p.type == part_type_address
          then k.address_bytes p.address
          else k.address_bytes p.address ++ (to_bytes 2 (length p.value) ++ p.value))

  pub encode_part-layout :
      (p : SignaturePart) → IsDocumented k → IsEncodable p → encode_part k (some p) ≡ ok (layout p)
  unfolding encode_part
  encode_part-layout p d (eoa t w l v) =
      rw t (d.packs _ (omega arith, (w, (tt, tt))) ∙ rw append-nil)
  encode_part-layout p d (address_part t w a) =
      rw t (d.packs _ (omega arith, (w, (a, tt))) ∙ rw append-nil)
  encode_part-layout p d (dynamic t w a l v) =
      rw t (d.packs _ (omega arith, (w, (a, (l, (tt, tt))))) ∙ rw append-nil)

  decode_dynamic-layout :
      (w : ℕ) (a : Address) (v rest : Bytes)
      → IsDocumented k
      → IsAddress a
      → length v < 2 ^ 16
      → decode_dynamic k w ((k.address_bytes a ++ (to_bytes 2 (length v) ++ v)) ++ rest)
        ≡ ok (record { weight = w; address = a; type = part_type_dynamic; value = v }, rest)
  unfolding decode_dynamic
  decode_dynamic-layout w a v rest d ia l = simp append_assoc (
      rw (
        read-append dynamic_address_out_of_bounds 20 (k.address_bytes a)
            (to_bytes 2 (length v) ++ (v ++ rest)) (d.length-address_bytes a),
        read-append signature_size_out_of_bounds 2 (to_bytes 2 (length v)) (v ++ rest)
            (length-to_bytes 2 (length v)),
        from_bytes-to_bytes 2 (length v) (omega arith),
        read-append dynamic_signature_out_of_bounds (length v) v rest refl,
        d.bytes_to_address-address_bytes a ia,
      ))

  -- A part is read off the front of its bytes.
  pub decode_part-layout :
      (p : SignaturePart) (rest : Bytes)
      → IsDocumented k
      → IsEncodable p
      → decode_part k (layout p ++ rest) ≡ ok (keep p, rest)
  unfolding decode_part decode_typed decode_eoa decode_address_part decode_dynamic read_byte
  decode_part-layout p rest d (eoa t w l v) = rw (t, read-append _ 66 p.value rest l)
  decode_part-layout p rest d (address_part t w a) = rw t (
      rw
        (read-append address_part_out_of_bounds 20 (k.address_bytes p.address) rest
          (d.length-address_bytes p.address))
        (rw (d.bytes_to_address-address_bytes p.address a)))
  decode_part-layout p rest d (dynamic t w a l v) =
      rw t (decode_dynamic-layout p.weight p.address p.value rest d a l)

  abbrev pub layout_part : Option SignaturePart → Bytes
  layout_part none = []
  layout_part (some p) = layout p

  abbrev pub layouts : SignatureParts → Bytes
  layouts [] = []
  layouts (p ∷ ps) = layout_part p ++ layouts ps
