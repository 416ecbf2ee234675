-- ===== src/Signature/Codec/Longest.antt =====
-- How long the values of a decoded signature can be; encoding comes to an end.
use go_sequence.Base.{
  ℕ, zero, suc, ◌+◌, ◌≤◌, ◌<◌, ◌≡◌, ap, ◌∙◌, [], ◌∷◌, ◌++◌, Option, none, some, ◌==◌, Bool-cases,
  inl, inr, length, length-append, max, arith,
}
use go_sequence.Base.Bytes.{Bytes, from_bytes}
use go_sequence.Base.Result.{
  Returns, value, error, Returns-bind, Returns-map, signature_type_out_of_bounds,
  weight_out_of_bounds, eoa_signature_out_of_bounds, address_part_out_of_bounds,
  dynamic_address_out_of_bounds, signature_size_out_of_bounds, dynamic_signature_out_of_bounds,
  threshold_out_of_bounds, unknown_part, Ends, Ends-bind,
}
use go_sequence.Ethkit.{Ethkit, HasEnds}
use go_sequence.Signature.{
  SignaturePart, SignatureParts, Signature, part_type_eoa, part_type_address, part_type_dynamic,
}
use go_sequence.Signature.Codec.{
  read_byte, decode_eoa, decode_address_part, decode_dynamic, decode_typed, decode_part,
  decode_loop, decode_signature, encode_part, encode_loop, encode,
}
use go_sequence.Signature.Codec.Layout.{read-Returns}

-- The longest value of the parts.
abbrev pub longest : SignatureParts → ℕ
longest [] = 0
longest (none ∷ parts) = longest parts
longest (some p ∷ parts) = max (length p.value) (longest parts)

longest-append : (xs ys : SignatureParts) → longest (xs ++ ys) ≡ max (longest xs) (longest ys)
longest-append [] ys = omega arith
longest-append (none ∷ xs) ys = longest-append xs ys
longest-append (some p ∷ xs) ys = omega (arith, longest-append xs ys)

-- A part and the rest of the input are together no longer than the input.
abbrev IsWithin : Bytes → SignaturePart × Bytes → Type 0
IsWithin b (p, rest) = length p.value + length rest ≤ length b

length-split : (xs rest : Bytes) {b : Bytes} → b ≡ xs ++ rest → length b ≡ length xs + length rest
length-split xs rest e = ap length e ∙ length-append xs rest

module _ (k : Ethkit) where
  decode_eoa-IsWithin : (w : ℕ) (b : Bytes) → Returns (IsWithin b) (decode_eoa k w b)
  unfolding decode_eoa
  decode_eoa-IsWithin w b =
      Returns-bind (read-Returns eoa_signature_out_of_bounds 66 b)
        λ (sp, rest) (l, e). value (omega (arith, length-split sp rest e))

  decode_address_part-IsWithin :
      (w : ℕ) (b : Bytes) → Returns (IsWithin b) (decode_address_part k w b)
  unfolding decode_address_part
  decode_address_part-IsWithin w b =
      Returns-bind (read-Returns address_part_out_of_bounds 20 b)
        λ (sp, rest) (l, e). value (omega (arith, length-split sp rest e))

  decode_dynamic-IsWithin : (w : ℕ) (b : Bytes) → Returns (IsWithin b) (decode_dynamic k w b)
  unfolding decode_dynamic
  decode_dynamic-IsWithin w b =
      Returns-bind (read-Returns dynamic_address_out_of_bounds 20 b) λ (a, r1) (la, e1).
        Returns-bind (read-Returns signature_size_out_of_bounds 2 r1) λ (size, r2) (ls, e2).
          Returns-bind (read-Returns dynamic_signature_out_of_bounds (from_bytes size) r2)
            λ (sp, rest) (l, e3). value (
              omega (arith, length-split a r1 e1, length-split size r2 e2, length-split sp rest e3))

  decode_typed-IsWithin : (t w : ℕ) (b : Bytes) → Returns (IsWithin b) (decode_typed k t w b)
  unfolding decode_typed
  decode_typed-IsWithin t w b = elim (Bool-cases (t == part_type_eoa)) [
    | inl y ↦ rw y (decode_eoa-IsWithin w b)
    | inr n ↦ elim (Bool-cases (t == part_type_address)) [
      | inl y ↦ rw (n, y) (decode_address_part-IsWithin w b)
      | inr m ↦ elim (Bool-cases (t == part_type_dynamic)) [
        | inl y ↦ rw (n, m, y) (decode_dynamic-IsWithin w b)
        | inr l ↦ rw (n, m, l) (error unknown_part)
      ]
    ]
  ]

  decode_part-IsWithin :
      (b : Bytes) → Returns (λ (p, rest). length p.value + length rest < length b) (decode_part k b)
  unfolding decode_part read_byte
  decode_part-IsWithin [] = error signature_type_out_of_bounds
  decode_part-IsWithin (t ∷ []) = error weight_out_of_bounds
  decode_part-IsWithin (t ∷ w ∷ b) =
      Returns-map (decode_typed-IsWithin t w b) λ (p, rest) h. omega arith

  decode_loop-longest :
      (fuel : ℕ) (b : Bytes) (acc : SignatureParts)
      → length b ≤ fuel
      → Returns (λ parts. longest parts ≤ max (longest acc) (length b)) (decode_loop k fuel b acc)
  unfolding decode_loop
  decode_loop-longest fuel [] acc h = value (omega arith)
  decode_loop-longest zero (c ∷ b) acc h = absurd (omega arith)
  decode_loop-longest (suc fuel) (c ∷ b) acc h =
      Returns-bind (decode_part-IsWithin (c ∷ b)) λ (p, rest) q.
        Returns-map (decode_loop-longest fuel rest (acc ++ (some p ∷ [])) (omega arith))
          λ parts l. omega (arith, longest-append acc (some p ∷ []))

  -- Decoding returns, and no value of the signature is longer than the input.
  pub decode_signature-longest :
      (b : Bytes) → Returns (λ s. longest s.signers ≤ length b) (decode_signature k b)
  unfolding decode_signature
  decode_signature-longest b =
      Returns-bind (read-Returns threshold_out_of_bounds 2 b) λ (high, rest) (l, e).
        Returns-bind (decode_loop-longest (length rest) rest [] (omega arith))
          λ parts q. value (omega (arith, length-split high rest e))

  encode_part-Ends : (p : Option SignaturePart) → HasEnds k → Ends (encode_part k p)
  unfolding encode_part
  encode_part-Ends none h = tt
  encode_part-Ends (some p) h = elim (Bool-cases (p.type == part_type_address)) [
    | inl y ↦ rw y (h.solidity_pack-Ends _)
    | inr n ↦ elim (Bool-cases (p.type == part_type_eoa)) [
      | inl y ↦ rw (n, y) (h.solidity_pack-Ends _)
      | inr m ↦ elim (Bool-cases (p.type == part_type_dynamic)) [
        | inl y ↦ rw (n, m, y) (h.solidity_pack-Ends _)
        | inr l ↦ rw (n, m, l) tt
      ]
    ]
  ]

  encode_loop-Ends :
      (sig : Bytes) (parts : SignatureParts) → HasEnds k → Ends (encode_loop k sig parts)
  unfolding encode_loop
  encode_loop-Ends sig [] h = tt
  encode_loop-Ends sig (p ∷ parts) h =
      Ends-bind (encode_part k p) _ (encode_part-Ends p h)
        λ pack e. encode_loop-Ends (sig ++ pack) parts h

  pub encode-Ends : (s : Signature) → HasEnds k → Ends (encode k s)
  unfolding encode
  encode-Ends s h =
      Ends-bind (encode_loop k [] s.signers) _ (encode_loop-Ends [] s.signers h)
        λ sig e. h.solidity_pack-Ends _
