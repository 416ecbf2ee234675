-- ===== src/Signature/Recover/Examples.antt =====
-- Recovery at concrete signatures, with the stand-in for the hash and the recovery.
use go_sequence.Base.{◌≡◌, refl, [], ◌∷◌, ◌++◌, none, some, replicate, take, arith}
use go_sequence.Base.Bytes.{Bytes, codes, to_bytes, from_bytes}
use go_sequence.Base.Result.{ok, err, bad_signature_length, invalid_signature}
use go_sequence.Ethkit.{Provider}
use go_sequence.Ethkit.StandIn.{stand_in}
use go_sequence.Signature.{SignaturePart, Signature}
use go_sequence.Signature.Recover.{
  decimal, decimal_loop, eth_signed_message, recovery_signature, address_of_key, part_recover,
  recover_one, recover_loop, recover,
}
use go_sequence.Signature.Recover.Kept.{AreRecovered, recover-AreRecovered, recover_confirmed}

abbrev msg : Bytes
msg = replicate 32 5

message_of_32 :
    take 29 (eth_signed_message msg)
    ≡ (0x19 ∷ codes "Ethereum Signed Message:") ++ (10 ∷ codes "32" ++ (5 ∷ []))
unfolding eth_signed_message decimal decimal_loop
message_of_32 = refl

abbrev signer : SignaturePart
signer = record { weight = 1; address = 0; type = 0; value = replicate 64 7 ++ (28 ∷ 2 ∷ []) }

abbrev before : Signature
before = record { threshold = 1; signers = some signer ∷ [] }

abbrev after : Signature
after = record {
  threshold = 1;
  signers = some (record signer { address = 0x0707070707070707070707070707070707070707 }) ∷ [];
}

recover_one_signer : recover stand_in before msg none ≡ ok after
unfolding recover recover_loop recover_one part_recover recovery_signature address_of_key from_bytes
    to_bytes
recover_one_signer = refl

recover-AreRecovered_example :
    (after.threshold ≡ before.threshold) × AreRecovered stand_in msg before.signers after.signers
recover-AreRecovered_example = recover-AreRecovered stand_in msg before none recover_one_signer

recover_short :
    part_recover stand_in (record signer { value = 2 ∷ [] }) msg ≡ err bad_signature_length
unfolding part_recover
recover_short = refl

-- A wallet that confirms every signature. The stand-in's hexadecimal text is the bytes themselves.
abbrev confirming : Provider
confirming = record {
  chain_id = ok 1;
  code_at = λ a. ok (1 ∷ 2 ∷ 3 ∷ []);
  is_valid_signature = λ a digest sig. ok (codes "0x1626ba7e");
}

abbrev nested : SignaturePart
nested = record { weight = 1; address = 0xdef; type = 2; value = 0 ∷ 1 ∷ 3 ∷ [] }

recover_refused :
    recover stand_in (record { threshold = 1; signers = some nested ∷ [] }) msg (some confirming)
    ≡ err invalid_signature
recover_refused =
    recover_confirmed stand_in msg 1 nested [] confirming (codes "0x1626ba7e") (omega arith)
      (omega arith) refl (omega arith) refl refl
