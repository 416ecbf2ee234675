-- ===== src/Transaction/Decode.antt =====
-- DecodeExecdata, EncodeRaw and DecodeRawTransactions of transactions.go.
pub mod Wire
pub mod RoundTrip
pub mod Fuel
pub mod StandIn
mod Examples
use go_sequence.Base.{
  ℕ, zero, suc, List, [], ◌∷◌, Option, none, some, Bool, ltb, if◌then◌else◌, length, take, drop,
}
use go_sequence.Base.Bytes.{Bytes, bytes_equal}
use go_sequence.Base.Int.{ℤ}
use go_sequence.Base.Result.{Result, ok, err, panic, out_of_fuel, ◌>>=◌, not_a_call}
use go_sequence.Transaction.{
  Body, Transaction, transaction, Children, no_children, children, Transactions,
}
use go_sequence.Transaction.Encode.{Abi, encoded_transactions}
use go_sequence.Transaction.Encode.Twice.{of_values}

-- The ABI decoders that the client calls. What they unpack are transactions with the fields that are
-- on the wire; the others are zero. The selectors are the `ID` of the two methods.
pub record AbiDecoder : Type 0 where
  pub execute_id : Bytes
  pub self_execute_id : Bytes
  -- `executeMethod.Inputs.Unpack` and `Copy`, and those of `selfExecuteMethod`
  pub unpack_execute : Bytes → Result (List Body × Option ℤ × Option Bytes)
  pub unpack_self_execute : Bytes → Result (List Body)
  -- `abi.Arguments{…abiTransactionsType}`: `Pack`; `Unpack` and `Copy`
  pub pack_transactions : List Transaction → Result Bytes
  pub unpack_transactions : Bytes → Result (List Body)

-- What `DecodeExecdata` returns: the transactions, the nonce and the signature.
pub record Execution : Type 0 where
  pub transactions : List Transaction
  pub nonce : Option ℤ
  pub signature : Option Bytes

-- A transaction of the loop, with the outcome of the call on its data: a call in the data becomes
-- children, and data that is no call stays.
unfoldable pub with_execution : Body → Result Execution → Result Transaction
with_execution b (ok e) = ok (
    transaction (record b { data' = none; nonce = e.nonce; signature = e.signature })
      (children (of_values e.transactions)))
with_execution b (err e) = ok (transaction b no_children)
with_execution b panic = panic
with_execution b out_of_fuel = out_of_fuel

-- A nil slice has no bytes.
abbrev pub bytes_of : Option Bytes → Bytes
bytes_of none = []
bytes_of (some data') = data'

-- The loop over the transactions, with the call on the data of one.
unfoldable pub decode_nested : (Bytes → Result Execution) → List Body → Result (List Transaction)
decode_nested f [] = ok []
decode_nested f (b ∷ bs) = do
  t ← with_execution b (f (bytes_of b.data'))
  ts ← decode_nested f bs
  ok (t ∷ ts)

module _ (d : AbiDecoder) where
  abbrev pub is_execute : Bytes → Bool
  is_execute data' = bytes_equal (take 4 data') d.execute_id

  abbrev pub is_self_execute : Bytes → Bool
  is_self_execute data' = bytes_equal (take 4 data') d.self_execute_id

  -- The calls at the top level, by their selector.
  unfoldable pub unpack_call : Bytes → Result (List Body × Option ℤ × Option Bytes)
  unpack_call data' =
      let execute = d.unpack_execute (drop 4 data') in
      let self_execute = (do bs ← d.unpack_self_execute (drop 4 data'); ok (bs, none, none)) in
      if ltb (length data') 4
      then err not_a_call
      else if is_execute data'
      then execute
      else if is_self_execute data'
      then self_execute
      else err not_a_call

  unfoldable pub decode_on : ℕ → Bytes → Result Execution
  decode_on zero data' = out_of_fuel
  decode_on (suc fuel) data' = do
    (bs, nonce, signature) ← unpack_call data'
    ts ← decode_nested (decode_on fuel) bs
    ok (record { transactions = ts; nonce = nonce; signature = signature })

  -- `DecodeExecdata`: the data of a nested call is shorter than the call, so one round more than there
  -- are bytes is enough.
  unfoldable pub decode_execdata : Bytes → Result Execution
  decode_execdata data' = decode_on (suc (length data')) data'

  -- `Transactions.EncodeRaw` and `DecodeRawTransactions`
  pub encode_raw : Abi → Transactions → Result Bytes
  encode_raw abi ts = do encoded ← encoded_transactions abi ts; d.pack_transactions encoded

  pub decode_raw_transactions : Bytes → Result Transactions
  decode_raw_transactions data' = do
    bs ← d.unpack_transactions data'
    ts ← decode_nested decode_execdata bs
    ok (of_values ts)
