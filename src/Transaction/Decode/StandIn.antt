-- ===== src/Transaction/Decode/StandIn.antt =====
-- A concrete coder for the examples: it packs calls of one transaction, each number as one element.
use go_sequence.Base.{
  ℕ, suc, ◌-◌, ◌≤◌, ◌≡◌, refl, List, [], ◌∷◌, ◌++◌, Option, none, some, Bool, true, false, ◌==◌,
  length, take, drop, length-drop, take-append, drop-append, map, All, arith,
}
use go_sequence.Base.Bytes.{Bytes, bytes_equal}
use go_sequence.Base.Int.{ℤ, pos, negsuc}
use go_sequence.Base.Result.{Result, ok, err, ◌>>=◌, external, bind-ok, ok-subst, Ends, Ends-bind}
use go_sequence.Transaction.{Body, zero_body, Transaction, transaction}
use go_sequence.Transaction.Encode.{Abi}
use go_sequence.Transaction.Decode.{AbiDecoder, bytes_of}
use go_sequence.Transaction.Decode.Fuel.{AllWithin, IsReading}
use go_sequence.Transaction.Decode.Wire.{IsUint256, IsPackable, on_wire, IsInverse}

abbrev flag : Bool → ℕ
flag false = 0
flag true = 1

abbrev number : Option ℤ → ℕ
number (some (pos n)) = n
number _ = 0

abbrev pack_one : Transaction → Bytes
pack_one (transaction b c) =
    flag b.delegate_call
    ∷ flag b.revert_on_error
    ∷ number b.gas_limit
    ∷ b.to
    ∷ number b.value
    ∷ bytes_of b.data'

abbrev unpack_one : Bytes → Result (List Body)
unpack_one (f ∷ g ∷ gas ∷ a ∷ v ∷ data') = ok (
    record zero_body {
      delegate_call = f == 1;
      revert_on_error = g == 1;
      gas_limit = some (pos gas);
      to = a;
      value = some (pos v);
      data' = some data';
    }
    ∷ [])
unpack_one _ = err (external 1)

abbrev pack : List Transaction → Result Bytes
pack (t ∷ []) = ok (pack_one t)
pack _ = err (external 2)

abbrev unpack_signed : Bytes → Result (List Body × Option ℤ × Option Bytes)
unpack_signed (n ∷ l ∷ rest) = do
  bs ← unpack_one (drop l rest)
  ok (bs, some (pos n), some (take l rest))
unpack_signed _ = err (external 1)

abbrev pub one_abi : Abi
one_abi = record {
  execute = λ ts n sig.
      pack ts >>= λ payload. ok (1 ∷ 0 ∷ 0 ∷ 0 ∷ number n ∷ length sig ∷ (sig ++ payload));
  self_execute = λ ts. pack ts >>= λ payload. ok (2 ∷ 0 ∷ 0 ∷ 0 ∷ payload);
  pack_nonce = λ n ts. pack ts;
  pack_string = λ s ts. pack ts;
}

abbrev pub one_decoder : AbiDecoder
one_decoder = record {
  execute_id = 1 ∷ 0 ∷ 0 ∷ 0 ∷ [];
  self_execute_id = 2 ∷ 0 ∷ 0 ∷ 0 ∷ [];
  unpack_execute = unpack_signed;
  unpack_self_execute = unpack_one;
  pack_transactions = pack;
  unpack_transactions = unpack_one;
}

unpack_one-Ends : (data' : Bytes) → Ends (unpack_one data')
unpack_one-Ends (f ∷ g ∷ gas ∷ a ∷ v ∷ data') = tt
unpack_one-Ends [] = tt
unpack_one-Ends (f ∷ []) = tt
unpack_one-Ends (f ∷ g ∷ []) = tt
unpack_one-Ends (f ∷ g ∷ gas ∷ []) = tt
unpack_one-Ends (f ∷ g ∷ gas ∷ a ∷ []) = tt

unpack_one-AllWithin :
    (data' : Bytes) (n : ℕ) {bs : List Body}
    → length data' ≤ n
    → unpack_one data' ≡ ok bs
    → AllWithin n bs
unpack_one-AllWithin (f ∷ g ∷ gas ∷ a ∷ v ∷ data') n le e =
    ok-subst (AllWithin n) e (omega (arith, le), tt)
unpack_one-AllWithin [] n le e = cc
unpack_one-AllWithin (f ∷ []) n le e = cc
unpack_one-AllWithin (f ∷ g ∷ []) n le e = cc
unpack_one-AllWithin (f ∷ g ∷ gas ∷ []) n le e = cc
unpack_one-AllWithin (f ∷ g ∷ gas ∷ a ∷ []) n le e = cc

unpack_signed-Ends : (data' : Bytes) → Ends (unpack_signed data')
unpack_signed-Ends [] = tt
unpack_signed-Ends (n ∷ []) = tt
unpack_signed-Ends (n ∷ l ∷ rest) =
    Ends-bind (unpack_one (drop l rest)) _ (unpack_one-Ends (drop l rest)) (λ bs e. tt)

unpack_signed-AllWithin :
    (data' : Bytes) {r : List Body × Option ℤ × Option Bytes}
    → unpack_signed data' ≡ ok r
    → AllWithin (length data') r.0
unpack_signed-AllWithin [] e = cc
unpack_signed-AllWithin (n ∷ []) e = cc
unpack_signed-AllWithin (n ∷ l ∷ rest) e =
    let (bs, e1, e2) = bind-ok (unpack_one (drop l rest)) _ e in
    let short : length (drop l rest) ≡ length rest - l = length-drop l rest in
    ok-subst (λ r. AllWithin (suc (suc (length rest))) r.0) e2
      (unpack_one-AllWithin (drop l rest) (suc (suc (length rest))) (omega (arith, short)) e1)

pub one_decoder-IsReading : IsReading one_decoder
one_decoder-IsReading = record {
  unpack_execute-Ends = unpack_signed-Ends;
  unpack_self_execute-Ends = unpack_one-Ends;
  unpack_execute-AllWithin = λ data' e. unpack_signed-AllWithin data' e;
  unpack_self_execute-AllWithin =
      λ data' e. unpack_one-AllWithin data' (length data') (omega arith) e;
}

unpack_one-pack_one :
    (t : Transaction) → IsPackable t → unpack_one (pack_one t) ≡ ok (on_wire t ∷ [])
unpack_one-pack_one (transaction b c) h =
    rw
      (
        flag-flag b.delegate_call,
        flag-flag b.revert_on_error,
        number-number b.value h.0,
        number-number b.gas_limit h.1,
      )
      refl
  where
    flag-flag : (x : Bool) → (flag x == 1) ≡ x
    flag-flag false = refl
    flag-flag true = refl

    number-number : (n : Option ℤ) → IsUint256 n → some (pos (number n)) ≡ n
    number-number (some (pos n)) h = refl
    number-number (some (negsuc n)) h = absurd h
    number-number none h = absurd h

unpack_signed-pack :
    (ts : List Transaction) (n : Option ℤ) (sig : Bytes) {data' : Bytes}
    → All IsPackable ts
    → IsUint256 n
    → one_abi.execute ts n sig ≡ ok data'
    → (payload : Bytes) × (data' ≡ one_decoder.execute_id ++ payload)
      × (unpack_signed payload ≡ ok (map on_wire ts, n, some sig))
unpack_signed-pack [] n sig fits fn e = cc
unpack_signed-pack (t ∷ u ∷ ts) n sig fits fn e = cc
unpack_signed-pack (t ∷ []) none sig fits fn e = absurd fn
unpack_signed-pack (t ∷ []) (some (negsuc n)) sig fits fn e = absurd fn
unpack_signed-pack (t ∷ []) (some (pos n)) sig fits fn e = (
  n ∷ length sig ∷ (sig ++ pack_one t),
  cc,
  rw (drop-append sig (pack_one t), take-append sig (pack_one t), unpack_one-pack_one t fits.0)
      refl,
)

unpack_one-pack :
    (ts : List Transaction) {data' : Bytes}
    → All IsPackable ts
    → one_abi.self_execute ts ≡ ok data'
    → (payload : Bytes) × (data' ≡ one_decoder.self_execute_id ++ payload)
      × (unpack_one payload ≡ ok (map on_wire ts))
unpack_one-pack [] fits e = cc
unpack_one-pack (t ∷ u ∷ ts) fits e = cc
unpack_one-pack (t ∷ []) fits e = (pack_one t, cc, unpack_one-pack_one t fits.0)

pub one_decoder-IsInverse : IsInverse one_abi one_decoder
unfolding bytes_equal
one_decoder-IsInverse = record {
  length-execute_id = refl;
  length-self_execute_id = refl;
  different_ids = refl;
  unpack-execute = λ ts n sig fits fn e. unpack_signed-pack ts n sig fits fn e;
  unpack-self_execute = λ ts fits e. unpack_one-pack ts fits e;
}
