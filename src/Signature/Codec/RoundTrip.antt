-- ===== src/Signature/Codec/RoundTrip.antt =====
-- `DecodeSignature` reads back what `Encode` wrote, and accepts nothing else.
use go_sequence.Base.{
  ℕ, zero, suc, ◌^◌, ◌≤◌, ◌<◌, ◌≡◌, sym, ap, ◌∙◌, subst, [], ◌∷◌, ◌++◌, append_assoc, append-nil,
  Option, none, some, length, map, All, All-append_left, All-append_right, arith,
}
use go_sequence.Base.Bytes.{
  Bytes, IsByte, to_bytes, from_bytes, length-to_bytes, to_bytes-from_bytes, from_bytes-to_bytes,
  from_bytes-lt,
}
use go_sequence.Base.Result.{ok, Returns, value, Returns-bind, threshold_out_of_bounds}
use go_sequence.Ethkit.{Ethkit, IsDocumented}
use go_sequence.Signature.{SignaturePart, SignatureParts, Signature}
use go_sequence.Signature.Codec.{encode_loop, encode, decode_loop, decode_signature}
use go_sequence.Signature.Codec.Layout.{
  keep, layout, layouts, read-append, read-Returns, encode_part-layout, decode_part-layout,
  length-append_bytes, IsCanonicalPart, IsEncodablePart,
}
use go_sequence.Signature.Codec.Canonical.{decode_loop-Appends}

pub record IsEncodableSignature (s : Signature) : Type 0 where
  pub threshold_fits : s.threshold < 2 ^ 16
  pub parts : All IsEncodablePart s.signers

-- An encodable signature that is its own reading.
pub record IsCanonical (s : Signature) : Type 0 where
  pub threshold_fits : s.threshold < 2 ^ 16
  pub parts : All IsCanonicalPart s.signers

abbrev pub keep_part : Option SignaturePart → Option SignaturePart
keep_part none = none
keep_part (some p) = some (keep p)

-- What the encoding keeps of a signature.
abbrev pub keep_signature : Signature → Signature
keep_signature s = record s { signers = map keep_part s.signers }

Canonical→Encodable : (ps : SignatureParts) → All IsCanonicalPart ps → All IsEncodablePart ps
Canonical→Encodable [] h = tt
Canonical→Encodable (none ∷ ps) h = absurd h.0
Canonical→Encodable (some p ∷ ps) h = (h.0.0, Canonical→Encodable ps h.1)

module _ (k : Ethkit) where
  encode_loop-layouts :
      (sig : Bytes) (ps : SignatureParts)
      → IsDocumented k
      → All IsEncodablePart ps
      → encode_loop k sig ps ≡ ok (sig ++ layouts k ps)
  unfolding encode_loop
  encode_loop-layouts sig [] d h = rw append-nil
  encode_loop-layouts sig (none ∷ ps) d h = absurd h.0
  encode_loop-layouts sig (some p ∷ ps) d h = rw (encode_part-layout k p d h.0) (
      encode_loop-layouts (sig ++ layout k p) ps d h.1
      ∙ ap ok (append_assoc sig (layout k p) (layouts k ps)))

  abbrev pub signature_bytes : Signature → Bytes
  signature_bytes s = to_bytes 2 s.threshold ++ layouts k s.signers

  pub encode-signature_bytes :
      (s : Signature)
      → IsDocumented k
      → IsEncodableSignature s
      → encode k s ≡ ok (signature_bytes s)
  unfolding encode
  encode-signature_bytes s d h =
      rw (encode_loop-layouts [] s.signers d h.parts)
        (d.packs _ (h.threshold_fits, (tt, tt)) ∙ rw append-nil)

  decode_loop-layouts :
      (fuel : ℕ) (ps acc : SignatureParts)
      → IsDocumented k
      → All IsEncodablePart ps
      → length (layouts k ps) ≤ fuel
      → decode_loop k fuel (layouts k ps) acc ≡ ok (acc ++ map keep_part ps)
  unfolding decode_loop
  decode_loop-layouts fuel [] acc d h le = rw append-nil
  decode_loop-layouts fuel (none ∷ ps) acc d h le = absurd h.0
  decode_loop-layouts zero (some p ∷ ps) acc d h le = absurd (omega arith)
  decode_loop-layouts (suc fuel) (some p ∷ ps) acc d h le =
      rw (decode_part-layout k p (layouts k ps) d h.0) (
        decode_loop-layouts fuel ps (acc ++ (some (keep p) ∷ [])) d h.1
          (omega (arith, length-append_bytes (layout k p) (layouts k ps)))
        ∙ ap ok (append_assoc acc (some (keep p) ∷ []) (map keep_part ps)))

  decode_signature-signature_bytes :
      (s : Signature)
      → IsDocumented k
      → IsEncodableSignature s
      → decode_signature k (signature_bytes s) ≡ ok (keep_signature s)
  unfolding decode_signature
  decode_signature-signature_bytes s d h = rw (
    read-append threshold_out_of_bounds 2 (to_bytes 2 s.threshold) (layouts k s.signers)
        (length-to_bytes 2 s.threshold),
    decode_loop-layouts (length (layouts k s.signers)) s.signers [] d h.parts (omega arith),
    from_bytes-to_bytes 2 s.threshold h.threshold_fits,
  )

  -- A signature whose threshold and parts are in range is encoded, and decoding the result gives the
  -- signature back, less the addresses of its EOA parts and the values of its address parts.
  pub decode_signature-encode :
      (s : Signature)
      → IsDocumented k
      → IsEncodableSignature s
      → (b : Bytes) × (encode k s ≡ ok b) × (decode_signature k b ≡ ok (keep_signature s))
  decode_signature-encode s d h =
      (signature_bytes s, encode-signature_bytes s d h, decode_signature-signature_bytes s d h)

  -- On every byte string decoding returns: an error, or a signature in normal form whose encoding is
  -- that byte string. It never panics.
  pub decode_signature-Returns :
      (b : Bytes)
      → IsDocumented k
      → All IsByte b
      → Returns (λ s. IsCanonical s × (encode k s ≡ ok b)) (decode_signature k b)
  unfolding decode_signature
  decode_signature-Returns b d h =
      Returns-bind (read-Returns threshold_out_of_bounds 2 b) λ (high, rest) (l, e).
        let h1 = subst (All IsByte) e h in
        let hh = All-append_left IsByte high rest h1 in
        Returns-bind
          (decode_loop-Appends k (length rest) rest [] d (All-append_right IsByte high rest h1)
            (omega arith))
          λ parts (new, ep, c, eb).
            let fits : from_bytes high < 2 ^ 16 =
              subst (λ n. from_bytes high < 256 ^ n) l (from_bytes-lt high hh) in
            let all : All IsCanonicalPart parts = subst (All IsCanonicalPart) (sym ep) c in
            let high_bytes : to_bytes 2 (from_bytes high) ≡ high =
              subst (λ n. to_bytes n (from_bytes high) ≡ high) l (to_bytes-from_bytes high hh) in
            value (
              record { threshold_fits = fits; parts = all },
              encode-signature_bytes _ d
                    (record { threshold_fits = fits; parts = Canonical→Encodable parts all })
                  ∙ rw (high_bytes, ep, e, eb),
            )
