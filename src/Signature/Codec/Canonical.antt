-- ===== src/Signature/Codec/Canonical.antt =====
-- What `DecodeSignature` accepts is what `Encode` writes.
use native.Mathlib.Decide.{ℕ_discrete}
use go_sequence.Base.{
  ℕ, zero, suc, ◌^◌, ◌≤◌, ◌<◌, ◌≡◌, refl, sym, ap, ◌∙◌, subst, [], ◌∷◌, ◌++◌, append_assoc,
  append-nil, some, length, All, All-append_left, All-append_right, arith, ==_ne,
}
use go_sequence.Base.Bytes.{Bytes, IsByte, to_bytes, from_bytes, to_bytes-from_bytes, from_bytes-lt}
use go_sequence.Base.Result.{
  Returns, value, error, Returns-bind, Returns-map, eoa_signature_out_of_bounds,
  address_part_out_of_bounds, dynamic_address_out_of_bounds, signature_size_out_of_bounds,
  dynamic_signature_out_of_bounds, unknown_part,
}
use go_sequence.Ethkit.{Ethkit, IsDocumented}
use go_sequence.Signature.{
  SignaturePart, SignatureParts, part_type_eoa, part_type_address, part_type_dynamic,
}
use go_sequence.Signature.Codec.{
  read_byte, decode_eoa, decode_address_part, decode_dynamic, decode_typed, decode_part,
  decode_loop,
}
use go_sequence.Signature.Codec.Layout.{
  IsEncodable, eoa, address_part, dynamic, keep, layout, layouts, read-Returns, length-append_bytes,
  IsCanonicalPart,
}

module _ (k : Ethkit) where
  -- The part `p` stands at the front of the input, and it holds nothing that its bytes do not show.
  pub record IsRead (b : Bytes) (p : SignaturePart) (rest : Bytes) : Type 0 where
    pub encodable : IsEncodable p
    pub bytes : b ≡ layout k p ++ rest
    pub kept : keep p ≡ p

  decode_eoa-IsRead :
      (w : ℕ) (b : Bytes)
      → w < 2 ^ 8
      → All IsByte b
      → Returns (λ (p, rest). IsRead (part_type_eoa ∷ w ∷ b) p rest) (decode_eoa k w b)
  unfolding decode_eoa
  decode_eoa-IsRead w b hw h =
      Returns-bind (read-Returns eoa_signature_out_of_bounds 66 b) λ (sp, rest) (l, e).
        value (record {
          encodable = eoa refl hw l (All-append_left IsByte sp rest (subst (All IsByte) e h));
          bytes = rw e;
          kept = refl;
        })

  decode_address_part-IsRead :
      (w : ℕ) (b : Bytes)
      → IsDocumented k
      → w < 2 ^ 8
      → All IsByte b
      → Returns (λ (p, rest). IsRead (part_type_address ∷ w ∷ b) p rest) (decode_address_part k w b)
  unfolding decode_address_part
  decode_address_part-IsRead w b d hw h =
      Returns-bind (read-Returns address_part_out_of_bounds 20 b) λ (a, rest) (l, e).
        let ha = All-append_left IsByte a rest (subst (All IsByte) e h) in
        value (record {
          encodable = address_part refl hw (d.bytes_to_address-IsAddress a ha);
          bytes = rw (e, d.address_bytes-bytes_to_address a l ha);
          kept = refl;
        })

  decode_dynamic-IsRead :
      (w : ℕ) (b : Bytes)
      → IsDocumented k
      → w < 2 ^ 8
      → All IsByte b
      → Returns (λ (p, rest). IsRead (part_type_dynamic ∷ w ∷ b) p rest) (decode_dynamic k w b)
  unfolding decode_dynamic
  decode_dynamic-IsRead w b d hw h =
      Returns-bind (read-Returns dynamic_address_out_of_bounds 20 b) λ (a, r1) (la, e1).
        Returns-bind (read-Returns signature_size_out_of_bounds 2 r1) λ (size, r2) (ls, e2).
          Returns-bind (read-Returns dynamic_signature_out_of_bounds (from_bytes size) r2)
            λ (sp, rest) (l, e3).
              let h1 = subst (All IsByte) e1 h in
              let ha = All-append_left IsByte a r1 h1 in
              let h2 = subst (All IsByte) e2 (All-append_right IsByte a r1 h1) in
              let hs = All-append_left IsByte size r2 h2 in
              let h3 = subst (All IsByte) e3 (All-append_right IsByte size r2 h2) in
              let size_bytes : to_bytes 2 (length sp) ≡ size =
                rw (l, ← ls) (to_bytes-from_bytes size hs) in
              value (record {
                encodable =
                    dynamic refl hw (d.bytes_to_address-IsAddress a ha)
                      (rw l (subst (λ n. from_bytes size < 256 ^ n) ls (from_bytes-lt size hs)))
                      (All-append_left IsByte sp rest h3);
                bytes =
                    rw (d.address_bytes-bytes_to_address a la ha, size_bytes)
                      (simp (e1, e2, e3, append_assoc));
                kept = refl;
              })

  decode_typed-IsRead :
      (t w : ℕ) (b : Bytes)
      → IsDocumented k
      → All IsByte (t ∷ w ∷ b)
      → Returns (λ (p, rest). IsRead (t ∷ w ∷ b) p rest) (decode_typed k t w b)
  unfolding decode_typed
  decode_typed-IsRead t w b d h = elim (ℕ_discrete t part_type_eoa) [
    | yes e ↦ rw e (decode_eoa-IsRead w b h.1.0 h.1.1)
    | no ne ↦ elim (ℕ_discrete t part_type_address) [
      | yes e ↦ rw e (decode_address_part-IsRead w b d h.1.0 h.1.1)
      | no na ↦ elim (ℕ_discrete t part_type_dynamic) [
        | yes e ↦ rw e (decode_dynamic-IsRead w b d h.1.0 h.1.1)
        | no nd ↦ rw (==_ne t _ ne, ==_ne t _ na, ==_ne t _ nd) (error unknown_part)
      ]
    ]
  ]

  pub decode_part-IsRead :
      (b : Bytes)
      → IsDocumented k
      → All IsByte b
      → Returns (λ (p, rest). IsRead b p rest) (decode_part k b)
  unfolding decode_part read_byte
  decode_part-IsRead [] d h = error _
  decode_part-IsRead (t ∷ []) d h = error _
  decode_part-IsRead (t ∷ w ∷ b) d h = decode_typed-IsRead t w b d h

  -- What the loop has appended to `acc` when it ends.
  abbrev Appends : SignatureParts → Bytes → SignatureParts → Type 0
  Appends acc b parts =
      (new : SignatureParts) × (parts ≡ acc ++ new) × All IsCanonicalPart new × (b ≡ layouts k new)

  -- The fuel suffices: a part takes a byte at least.
  pub decode_loop-Appends :
      (fuel : ℕ) (b : Bytes) (acc : SignatureParts)
      → IsDocumented k
      → All IsByte b
      → length b ≤ fuel
      → Returns (Appends acc b) (decode_loop k fuel b acc)
  unfolding decode_loop
  decode_loop-Appends fuel [] acc d h le = value ([], sym (append-nil acc), tt, refl)
  decode_loop-Appends zero (b ∷ bs) acc d h le = absurd (omega arith)
  decode_loop-Appends (suc fuel) (b ∷ bs) acc d h le =
      Returns-bind (decode_part-IsRead (b ∷ bs) d h) λ (p, rest) r.
        Returns-map
          (decode_loop-Appends fuel rest (acc ++ (some p ∷ [])) d
            (All-append_right IsByte (layout k p) rest (subst (All IsByte) r.bytes h))
            (omega (arith, ap length r.bytes, length-append_bytes (layout k p) rest)))
          λ parts (new, e, c, l). (
            some p ∷ new,
            e ∙ append_assoc acc (some p ∷ []) new,
            ((r.encodable, r.kept), c),
            r.bytes ∙ rw l,
          )
