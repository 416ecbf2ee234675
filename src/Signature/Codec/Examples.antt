-- ===== src/Signature/Codec/Examples.antt =====
-- The wire format at concrete signatures.
use go_sequence.Base.{◌≡◌, refl, [], ◌∷◌, ◌++◌, some, replicate, arith}
use go_sequence.Base.Bytes.{Bytes}
use go_sequence.Base.Result.{ok, err, Returns, unknown_part, unknown_signer_type}
use go_sequence.Signature.{Signature}
use go_sequence.Signature.Codec.{
  encode, encode_loop, encode_part, decode_signature, decode_loop, decode_part, decode_typed, read,
  read_byte,
}
use go_sequence.Signature.Codec.Layout.{eoa, address_part, dynamic}
use go_sequence.Signature.Codec.RoundTrip.{
  IsCanonical, keep_signature, decode_signature-encode, decode_signature-Returns,
}
use go_sequence.Ethkit.StandIn.{stand_in, stand_in-IsDocumented}

abbrev eoa_value : Bytes
eoa_value = replicate 64 7 ++ (27 ∷ 2 ∷ [])

-- 1-of-3: an EOA signer, one that did not sign, and a nested signature of two bytes.
abbrev three_signers : Signature
three_signers = record {
  threshold = 300;
  signers =
      some (record { weight = 1; address = 0; type = 0; value = eoa_value })
      ∷ some (record { weight = 2; address = 0xabc; type = 1; value = [] })
      ∷ some (record { weight = 3; address = 0xdef; type = 2; value = 0 ∷ 3 ∷ [] })
      ∷ [];
}

decode_signature-encode_example :
    (b : Bytes) × (encode stand_in three_signers ≡ ok b)
    × (decode_signature stand_in b ≡ ok (keep_signature three_signers))
decode_signature-encode_example =
    decode_signature-encode stand_in three_signers stand_in-IsDocumented (record {
      threshold_fits = omega arith;
      parts = (
        eoa refl (omega arith) refl (omega arith),
        (
          address_part refl (omega arith) (omega arith),
          (dynamic refl (omega arith) (omega arith) (omega arith) (omega arith), tt),
        ),
      );
    })

-- An address part and a truncated entry.
abbrev cut_bytes : Bytes
cut_bytes = 0 ∷ 1 ∷ 1 ∷ 5 ∷ (replicate 20 9 ++ (1 ∷ 5 ∷ []))

decode_signature-Returns_example :
    Returns
      (λ s. IsCanonical s × (encode stand_in s ≡ ok cut_bytes))
      (decode_signature stand_in cut_bytes)
decode_signature-Returns_example =
    decode_signature-Returns stand_in cut_bytes stand_in-IsDocumented (omega arith)

-- An entry of type 3.
decode_unknown_part : decode_signature stand_in (0 ∷ 1 ∷ 3 ∷ 0 ∷ []) ≡ err unknown_part
unfolding decode_signature decode_loop decode_part decode_typed read read_byte
decode_unknown_part = refl

encode_unknown_type :
    encode stand_in (record {
      threshold = 1;
      signers = some (record { weight = 1; address = 0; type = 9; value = [] }) ∷ [];
    })
    ≡ err unknown_signer_type
unfolding encode encode_loop encode_part
encode_unknown_type = refl
