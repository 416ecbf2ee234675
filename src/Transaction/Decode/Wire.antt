-- ===== src/Transaction/Decode/Wire.antt =====
-- What of a transaction is on the wire, and what `Execdata` and `DecodeExecdata` need of the ABI
-- coder for a call to come back as it was sent.
use go_sequence.Base.{
  ℕ, ◌+◌, ◌<◌, ◌^◌, ◌≡◌, List, [], ◌∷◌, ◌++◌, map, Option, none, some, false, ltb, length,
  length-append, take, drop, take-append, drop-append, All, arith, subst, same,
}
use go_sequence.Base.Bytes.{Bytes, bytes_equal, bytes_equal_refl}
use go_sequence.Base.Int.{ℤ, pos}
use go_sequence.Base.Result.{Error, ok, err}
use go_sequence.Ethkit.{IsAddress}
use go_sequence.Transaction.{
  Body, zero_body, Transaction, transaction, no_children, children, Transactions, end, is_some,
  absent, next,
}
use go_sequence.Transaction.Encode.{Abi, or_zero, execute_call}
use go_sequence.Transaction.Encode.Twice.{of_values}
use go_sequence.Transaction.Decode.{AbiDecoder, bytes_of, unpack_call}

-- In range for the ABI's uint256; nil is not.
abbrev pub IsUint256 : Option ℤ → Type 0
IsUint256 (some (pos n)) = n < 2 ^ 256
IsUint256 _ = ⊥

-- In range for the ABI's tuple.
abbrev pub IsPackable : Transaction → Type 0
IsPackable (transaction b c) = IsUint256 b.value × IsUint256 b.gas_limit × IsAddress b.to

-- The fields that are on the wire.
abbrev pub on_wire : Transaction → Body
on_wire (transaction b c) = record zero_body {
  delegate_call = b.delegate_call;
  revert_on_error = b.revert_on_error;
  gas_limit = b.gas_limit;
  to = b.to;
  value = b.value;
  data' = some (bytes_of b.data');
}

-- What the decoders unpack is what the encoders packed, behind the selectors of four bytes, when the
-- numbers are in range.
pub record IsInverse (abi : Abi) (d : AbiDecoder) : Type 0 where
  pub length-execute_id : length d.execute_id ≡ 4
  pub length-self_execute_id : length d.self_execute_id ≡ 4
  pub different_ids : bytes_equal d.self_execute_id d.execute_id ≡ false
  pub unpack-execute :
      (ts : List Transaction) (n : Option ℤ) (sig : Bytes) {data' : Bytes}
      → All IsPackable ts
      → IsUint256 n
      → abi.execute ts n sig ≡ ok data'
      → (payload : Bytes) × (data' ≡ d.execute_id ++ payload)
        × (d.unpack_execute payload ≡ ok (map on_wire ts, n, some sig))
  pub unpack-self_execute :
      (ts : List Transaction) {data' : Bytes}
      → All IsPackable ts
      → abi.self_execute ts ≡ ok data'
      → (payload : Bytes) × (data' ≡ d.self_execute_id ++ payload)
        × (d.unpack_self_execute payload ≡ ok (map on_wire ts))

-- A transaction as it comes back: with the defaults, without what is not on the wire, and as a bundle
-- when it was one.
abbrev pub plain : Body → Transaction
plain b =
    transaction
      (on_wire (
        transaction (record b { gas_limit = or_zero b.gas_limit; value = or_zero b.value })
          no_children))
      no_children

abbrev mutual
  pub decoded : Transaction → Transaction
  decoded (transaction b (children (next t ts))) =
      transaction
        (record zero_body {
          delegate_call = b.delegate_call;
          revert_on_error = b.revert_on_error;
          gas_limit = or_zero b.gas_limit;
          to = b.to;
          value = or_zero b.value;
          nonce = b.nonce;
          signature = b.signature;
        })
        (children (of_values (decoded_all (next t ts))))
  decoded (transaction b _) = plain b

  pub decoded_all : Transactions → List Transaction
  decoded_all end = []
  decoded_all (absent ts) = decoded_all ts
  decoded_all (next t ts) = decoded t ∷ decoded_all ts

abbrev pub InRange : Body → Type 0
InRange b = IsUint256 (or_zero b.value) × IsUint256 (or_zero b.gas_limit) × IsAddress b.to

abbrev pub NoCall : AbiDecoder → Option Bytes → Type 0
NoCall d data' = (e : Error) × (unpack_call d (bytes_of data') ≡ err e)

abbrev pub IsNonce : Option ℤ → Type 0
IsNonce none = Unit
IsNonce (some n) = IsUint256 (some n)

-- The numbers are in range, and the data of a transaction that is not a bundle are not themselves an
-- `execute` or `selfExecute` call.
abbrev mutual
  pub IsSendable : AbiDecoder → Transaction → Type 0
  IsSendable d (transaction b (children (next t ts))) =
      InRange b × IsNonce b.nonce × IsSendable d t × AreSendable d ts
  IsSendable d (transaction b _) = InRange b × NoCall d b.data'

  pub AreSendable : AbiDecoder → Transactions → Type 0
  AreSendable d end = Unit
  AreSendable d (absent ts) = AreSendable d ts
  AreSendable d (next t ts) = IsSendable d t × AreSendable d ts

take-selector : (n : ℕ) (id payload : Bytes) → length id ≡ n → take n (id ++ payload) ≡ id
take-selector n id payload h = subst (λ m. take m (id ++ payload) ≡ id) h (take-append id payload)

drop-selector : (n : ℕ) (id payload : Bytes) → length id ≡ n → drop n (id ++ payload) ≡ payload
drop-selector n id payload h =
    subst (λ m. drop m (id ++ payload) ≡ payload) h (drop-append id payload)

not_short : (n : ℕ) (id payload : Bytes) → length id ≡ n → ltb (length (id ++ payload)) n ≡ false
not_short n id payload h =
    let sum : length (id ++ payload) ≡ length id + length payload = length-append id payload in
    ground arith

module _ (abi : Abi) (d : AbiDecoder) (h : IsInverse abi d) where
  unpack_call-execute :
      (payload : Bytes) → unpack_call d (d.execute_id ++ payload) ≡ d.unpack_execute payload
  unfolding unpack_call
  unpack_call-execute payload = rw (
    not_short 4 d.execute_id payload h.length-execute_id,
    take-selector 4 d.execute_id payload h.length-execute_id,
    drop-selector 4 d.execute_id payload h.length-execute_id,
    bytes_equal_refl d.execute_id,
  )

  unpack_call-self_execute :
      (payload : Bytes) {bs : List Body}
      → d.unpack_self_execute payload ≡ ok bs
      → unpack_call d (d.self_execute_id ++ payload) ≡ ok (bs, none, none)
  unfolding unpack_call
  unpack_call-self_execute payload e = rw (
    not_short 4 d.self_execute_id payload h.length-self_execute_id,
    take-selector 4 d.self_execute_id payload h.length-self_execute_id,
    drop-selector 4 d.self_execute_id payload h.length-self_execute_id,
    h.different_ids,
    bytes_equal_refl d.self_execute_id,
    e,
  )

  -- The call of `Execdata` is unpacked again.
  pub unpack_call-execute_call :
      (es : List Transaction) (n : Option ℤ) (signature : Option Bytes) {x : Bytes}
      → All IsPackable es
      → IsNonce n
      → is_some n ≡ is_some signature
      → execute_call abi es n signature ≡ ok x
      → unpack_call d x ≡ ok (map on_wire es, n, signature)
  unfolding execute_call
  unpack_call-execute_call es (some n) (some sig) fits fn same e =
      let (payload, e1, e2) = h.unpack-execute es (some n) sig fits fn e in
      rw (e1, unpack_call-execute payload, e2)
  unpack_call-execute_call es none none fits fn same e =
      let (payload, e1, e2) = h.unpack-self_execute es fits e in
      rw (e1, unpack_call-self_execute payload e2)
  unpack_call-execute_call es none (some sig) fits fn same e = cc
  unpack_call-execute_call es (some n) none fits fn same e = cc
