-- ===== src/Transaction/Reduce/Examples.antt =====
-- A bundle in a bundle whose signatures are reduced.
use go_sequence.Base.{◌≡◌, refl, [], ◌∷◌, some}
use go_sequence.Base.Int.{pos}
use go_sequence.Base.Result.{err, threshold_out_of_bounds}
use go_sequence.Ethkit.StandIn.{stand_in}
use go_sequence.Transaction.{
  Transaction, transaction, zero_body, no_children, children, end, next, is_valid,
}
use go_sequence.Transaction.Encode.{Abi}
use go_sequence.Signature.Codec.{read, decode_signature}
use go_sequence.Transaction.Reduce.{reduced_signature, store_signature, reduce_signatures}
use go_sequence.Transaction.Reduce.Kept.{unsigned, reduce_signatures-unsigned}

abbrev counting : Abi
counting = record {
  execute = λ ts n sig. err threshold_out_of_bounds;
  self_execute = λ ts. err threshold_out_of_bounds;
  pack_nonce = λ n ts. err threshold_out_of_bounds;
  pack_string = λ s ts. err threshold_out_of_bounds;
}

abbrev call : Transaction
call = transaction (record zero_body { to = 0xabc; data' = some (7 ∷ []) }) no_children

-- A signature of one byte is too short for its threshold.
abbrev bundle : Transaction
bundle =
    transaction (record zero_body { nonce = some (pos 1); signature = some (1 ∷ []) })
      (children (next call end))

bundle_error : (reduce_signatures counting stand_in (some 1) bundle).1 ≡ err threshold_out_of_bounds
unfolding reduce_signatures reduced_signature store_signature is_valid decode_signature read
bundle_error = refl

reduce_signatures-unsigned_example :
    unsigned (reduce_signatures counting stand_in (some 1) bundle).0 ≡ unsigned bundle
reduce_signatures-unsigned_example = reduce_signatures-unsigned counting stand_in (some 1) bundle
