-- ===== src/Estimator/Stub/Decoded.antt =====
-- What a stub signature decodes to.
use go_sequence.Base.{
  ℕ, ◌≤◌, ◌≡◌, refl, sym, subst, List, [], ◌∷◌, map, some, Bool, true, false, length, All, arith,
}
use go_sequence.Base.Bytes.{Bytes, IsByte, to_bytes, length-to_bytes, to_bytes-IsByte}
use go_sequence.Base.Result.{Result, ok, ◌>>=◌}
use go_sequence.Ethkit.{Ethkit, IsDocumented}
use go_sequence.Config.{WalletConfig}
use go_sequence.Signature.{SignatureParts, Signature}
use go_sequence.Signature.Codec.{encode, decode_signature}
use go_sequence.Signature.Codec.RoundTrip.{
  IsEncodableSignature, keep_part, signature_bytes, encode-signature_bytes, decode_signature-encode,
}
use go_sequence.Signature.Weight.{signed_weight}
use go_sequence.Signature.Validity.Unsigned.{IsSignerInRange, IsConfigInRange}
use go_sequence.Estimator.Picked.{
  signing_weight, AreIndexed, sorted_weight, length-pick_signers, pick_signers_reach,
}
use go_sequence.Estimator.{SortedSigner, pick_signers}
use go_sequence.Estimator.Stub.{
  encoded_or_panic, eoa_part, address_only, stub_parts, stub_signer, stub_config, build_on,
  build_stub_signature,
}
use go_sequence.Estimator.Stub.Parts.{
  IsNested, IsNested-append, ArePartsOf, eoa_part-IsEncodable, address_only-IsEncodable,
  stub_parts-ArePartsOf,
}

module _ (k : Ethkit) (random : ℕ → ℕ → Bytes) (d : IsDocumented k)
    (drawn : (i j : ℕ) → All IsByte (random i j)) where
  -- The parts of a level, encoded.
  encoded_or_panic-encode :
      (s : Signature)
      → IsEncodableSignature s
      → encoded_or_panic (encode k s) ≡ ok (signature_bytes k s)
  unfolding encoded_or_panic
  encoded_or_panic-encode s h = rw (encode-signature_bytes k s d h) refl

  nested_parts : ℕ → SignatureParts
  nested_parts i =
      some (address_only (stub_signer k (random i 0)))
      ∷ some (eoa_part (stub_signer k (random i 1)))
      ∷ some (eoa_part (stub_signer k (random i 2)))
      ∷ []

  nested_signature : ℕ → Signature
  unfolding nested_parts
  nested_signature i = record { threshold = 2; signers = nested_parts i }

  stub_signer-IsSignerInRange : (i j : ℕ) → IsSignerInRange (stub_signer k (random i j))
  stub_signer-IsSignerInRange i j =
      (omega arith, d.bytes_to_address-IsAddress (random i j) (drawn i j))

  nested_signature-IsEncodable : (i : ℕ) → IsEncodableSignature (nested_signature i)
  unfolding nested_parts nested_signature
  nested_signature-IsEncodable i = record {
    threshold_fits = omega arith;
    parts = (
      address_only-IsEncodable _ (stub_signer-IsSignerInRange i 0),
      (
        eoa_part-IsEncodable _ (stub_signer-IsSignerInRange i 1),
        (eoa_part-IsEncodable _ (stub_signer-IsSignerInRange i 2), tt),
      ),
    );
  }

  build_on-nested :
      (i : ℕ)
      → build_on k random 1
          (stub_config k (random i))
          (false ∷ true ∷ true ∷ [])
          (true ∷ true ∷ true ∷ [])
        ≡ ok (signature_bytes k (nested_signature i))
  unfolding build_on stub_parts nested_parts nested_signature
  build_on-nested i = encoded_or_panic-encode (nested_signature i) (nested_signature-IsEncodable i)

  signature_bytes-IsNested : (i : ℕ) → IsNested (signature_bytes k (nested_signature i))
  unfolding nested_parts nested_signature address_only eoa_part
  signature_bytes-IsNested i =
      let a = k.bytes_to_address (random i 0) in
      IsNested-append (to_bytes 2 2) (k.address_bytes a) (length-to_bytes 2 2)
        (d.length-address_bytes a) (to_bytes-IsByte 2 2) (d.address_bytes-IsByte a)

  build_on-ArePartsOf :
      (c : WalletConfig) (will_sign is_eoa : List Bool)
      → IsConfigInRange c
      → (r : Result SignatureParts) → ArePartsOf c.signers will_sign r
      → (b : Bytes) × (parts : SignatureParts) × ((do
        ps ← r
        encoded_or_panic (encode k (record { threshold = c.threshold; signers = ps })))
          ≡ ok b)
        × (decode_signature k b ≡ ok (record { threshold = c.threshold; signers = parts }))
        × (signed_weight parts ≡ signing_weight c.signers will_sign)
  unfolding encoded_or_panic
  build_on-ArePartsOf c will_sign is_eoa range r h =
      let s : Signature = record { threshold = c.threshold; signers = h.parts } in
      let (b, encoded, decoded) =
        decode_signature-encode k s d
          (record { threshold_fits = range.threshold_fits; parts = h.encodable }) in
      (b, map keep_part h.parts, rw (h.built, encoded) refl, decoded, h.weighs)

-- The stub signature is always built, whatever addresses are drawn for the signers that are contracts.
-- It is a signature with the threshold of the configuration, and the weights of its parts that carry a
-- value add up to those of the signers that are to sign.
build_stub_signature-decoded :
    (k : Ethkit) (random : ℕ → ℕ → Bytes) (c : WalletConfig) (will_sign is_eoa : List Bool)
    → IsDocumented k
    → ((i j : ℕ) → All IsByte (random i j))
    → IsConfigInRange c
    → length will_sign ≡ length c.signers
    → length is_eoa ≡ length c.signers
    → (b : Bytes) × (parts : SignatureParts) × (build_stub_signature k random c will_sign is_eoa
        ≡ ok b)
      × (decode_signature k b ≡ ok (record { threshold = c.threshold; signers = parts }))
      × (signed_weight parts ≡ signing_weight c.signers will_sign)
unfolding build_stub_signature build_on
build_stub_signature-decoded k random c will_sign is_eoa d drawn range l l' =
    build_on-ArePartsOf k random d drawn c will_sign is_eoa range _ (
      stub_parts-ArePartsOf _
        (λ i. (_, build_on-nested k random d drawn i, signature_bytes-IsNested k random d drawn i))
        0 c.signers will_sign is_eoa range.signers_fit l l')

-- The stub signature of the signers that are picked, which are tried in whatever order, reaches the
-- threshold that it carries, when the signers have the weight for it together.
pub build_stub_signature-reach :
    (k : Ethkit) (random : ℕ → ℕ → Bytes) (c : WalletConfig) (sorted : List SortedSigner)
    (is_eoa : List Bool)
    → IsDocumented k
    → ((i j : ℕ) → All IsByte (random i j))
    → IsConfigInRange c
    → length is_eoa ≡ length c.signers
    → AreIndexed c.signers sorted
    → c.threshold ≤ sorted_weight sorted
    → (b : Bytes) × (s : Signature) × (build_stub_signature k random c
          (pick_signers c sorted)
          is_eoa
        ≡ ok b)
      × (decode_signature k b ≡ ok s)
      × (s.threshold ≤ signed_weight s.signers)
build_stub_signature-reach k random c sorted is_eoa d drawn range l indexed enough =
    let (b, parts, built, decoded, weighs) =
      build_stub_signature-decoded k random c (pick_signers c sorted) is_eoa d drawn range
        (length-pick_signers c sorted) l in
    (
      b,
      record { threshold = c.threshold; signers = parts },
      built,
      decoded,
      subst (λ n. c.threshold ≤ n) (sym weighs) (pick_signers_reach c sorted indexed enough),
    )
