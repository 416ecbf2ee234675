-- ===== src/Transaction/Encode/Examples.antt =====
-- Bundles at work. The encoders are stand-ins that tell how many transactions they were given.
use go_sequence.Base.{◌≡◌, refl, [], ◌∷◌, some, true, length}
use go_sequence.Base.Int.{pos}
use go_sequence.Base.Result.{ok, err, calldata_and_execdata}
use go_sequence.Transaction.{
  zero_body, Transaction, transaction, no_children, children, end, next, nonce_loop, bundle_nonce,
  clone_children, is_bundle, is_valid,
}
use go_sequence.Transaction.Encode.{Abi, encoded_transactions, execute_call}
use go_sequence.Transaction.Bundled.{Agrees, bundle_nonce-Agrees}
use go_sequence.Transaction.Encode.Twice.{of_values, encoded_transactions_twice}

abbrev call : Transaction
call = transaction (record zero_body { to = 0xabc; data' = some (1 ∷ 2 ∷ []) }) no_children

abbrev bundle : Transaction
bundle =
    transaction (record zero_body { to = 0xdef; nonce = some (pos 4); signature = some (9 ∷ []) })
      (children (next call (next call end)))

abbrev counting : Abi
counting = record {
  execute = λ ts n sig. ok (1 ∷ length ts ∷ sig);
  self_execute = λ ts. ok (2 ∷ length ts ∷ []);
  pack_nonce = λ n ts. ok (3 ∷ length ts ∷ []);
  pack_string = λ s ts. ok (4 ∷ length ts ∷ s);
}

abbrev encoded_call : Transaction
encoded_call =
    transaction
      (record zero_body {
        to = 0xabc;
        data' = some (1 ∷ 2 ∷ []);
        value = some (pos 0);
        gas_limit = some (pos 0);
        encoded = true;
      })
      no_children

abbrev encoded_bundle : Transaction
encoded_bundle =
    transaction
      (record zero_body {
        to = 0xdef;
        nonce = some (pos 4);
        signature = some (9 ∷ []);
        data' = some (1 ∷ 2 ∷ 9 ∷ []);
        value = some (pos 0);
        gas_limit = some (pos 0);
        encoded = true;
      })
      (children (next call (next call end)))

encode_two :
    encoded_transactions counting (next call (next bundle end))
    ≡ ok (encoded_call ∷ encoded_bundle ∷ [])
unfolding encoded_transactions execute_call clone_children is_bundle is_valid
encode_two = refl

encoded_transactions_twice_example :
    encoded_transactions counting (of_values (encoded_call ∷ encoded_bundle ∷ []))
    ≡ err calldata_and_execdata
unfolding is_bundle
encoded_transactions_twice_example =
    encoded_transactions_twice counting (next call (next bundle end)) encode_two

nonce_of_bundle : bundle_nonce (next call (next bundle (next bundle end))) ≡ ok (some (pos 4))
unfolding bundle_nonce nonce_loop
nonce_of_bundle = refl

nonce_of_two : bundle_nonce (next call (next bundle end)) ≡ ok (some (pos 4))
unfolding bundle_nonce nonce_loop
nonce_of_two = refl

bundle_nonce-Agrees_example : Agrees (some (pos 4)) (next call (next bundle end))
bundle_nonce-Agrees_example = bundle_nonce-Agrees (next call (next bundle end)) nonce_of_two
