-- ===== src/Transaction/Decode/Examples.antt =====
-- A bundle in a bundle, encoded and decoded.
use go_sequence.Base.{◌≡◌, refl, [], ◌∷◌, some, arith}
use go_sequence.Base.Bytes.{Bytes, bytes_equal}
use go_sequence.Base.Int.{pos}
use go_sequence.Base.Result.{ok, not_a_call, Ends}
use go_sequence.Transaction.{
  Body, zero_body, Transaction, transaction, no_children, Transactions, children, end, next,
  clone_children, is_valid, is_bundle,
}
use go_sequence.Transaction.Encode.{execdata, execute_call, encoded_transactions}
use go_sequence.Transaction.Decode.{unpack_call, decode_execdata}
use go_sequence.Transaction.Decode.StandIn.{
  one_abi, one_decoder, one_decoder-IsReading, one_decoder-IsInverse,
}
use go_sequence.Transaction.Decode.Fuel.{decode_execdata-Ends}
use go_sequence.Transaction.Decode.Wire.{decoded_all, AreSendable}
use go_sequence.Transaction.Decode.RoundTrip.{decode_execdata-execdata}

abbrev inner : Transaction
inner = transaction (record zero_body { to = 0xabc; data' = some (7 ∷ 8 ∷ []) }) no_children

abbrev nested : Transactions
nested = next (transaction (record zero_body { to = 0xdef }) (children (next inner end))) end

abbrev outer : Body
outer = record zero_body { nonce = some (pos 3); signature = some (5 ∷ []) }

abbrev encoded : Bytes
encoded =
    1
    ∷ 0
    ∷ 0
    ∷ 0
    ∷ 3
    ∷ 1
    ∷ 5
    ∷ 0
    ∷ 0
    ∷ 0
    ∷ 0xdef
    ∷ 0
    ∷ (2 ∷ 0 ∷ 0 ∷ 0 ∷ 0 ∷ 0 ∷ 0 ∷ 0xabc ∷ 0 ∷ 7 ∷ 8 ∷ [])

nested_encoded : execdata one_abi (transaction outer (children nested)) ≡ ok encoded
unfolding execdata encoded_transactions execute_call clone_children is_bundle is_valid
nested_encoded = refl

nested-AreSendable : AreSendable one_decoder nested
unfolding unpack_call bytes_equal
nested-AreSendable = (
  (
    (omega arith, omega arith, omega arith),
    tt,
    ((omega arith, omega arith, omega arith), (not_a_call, refl)),
    tt,
  ),
  tt,
)

decode_execdata-execdata_example :
    decode_execdata one_decoder encoded
    ≡ ok (record {
      transactions = decoded_all nested;
      nonce = some (pos 3);
      signature = some (5 ∷ []);
    })
decode_execdata-execdata_example =
    decode_execdata-execdata one_abi one_decoder outer nested one_decoder-IsInverse
      one_decoder-IsReading (omega arith) nested-AreSendable nested_encoded

decode_execdata-Ends_example : Ends (decode_execdata one_decoder encoded)
decode_execdata-Ends_example = decode_execdata-Ends one_decoder one_decoder-IsReading encoded
