-- ===== src/Transaction/Decode/Fuel.antt =====
-- The rounds that `DecodeExecdata` is given.
use go_sequence.Base.{
  ℕ, zero, suc, ◌-◌, ◌≤◌, ◌<◌, ◌≡◌, List, [], ◌∷◌, Option, Bool-cases, inl, inr, ltb, length, drop,
  length-drop, All, arith,
}
use go_sequence.Base.Bytes.{Bytes}
use go_sequence.Base.Int.{ℤ}
use go_sequence.Base.Result.{
  Result, ok, err, panic, out_of_fuel, bind-ok, ok-subst, Ends, Ends-bind, not_a_call,
}
use go_sequence.Transaction.{Body}
use go_sequence.Transaction.Decode.{
  AbiDecoder, Execution, bytes_of, with_execution, decode_nested, is_execute, is_self_execute,
  unpack_call, decode_on, decode_execdata,
}

-- The data of every transaction has at most `n` bytes.
abbrev pub AllWithin : ℕ → List Body → Type 0
AllWithin n bs = All (λ b. length (bytes_of b.data') ≤ n) bs

-- The decoders come to an end, and the data that they find are part of what they are given.
pub record IsReading (d : AbiDecoder) : Type 0 where
  pub unpack_execute-Ends : (data' : Bytes) → Ends (d.unpack_execute data')
  pub unpack_self_execute-Ends : (data' : Bytes) → Ends (d.unpack_self_execute data')
  pub unpack_execute-AllWithin :
      (data' : Bytes) {r : List Body × Option ℤ × Option Bytes}
      → d.unpack_execute data' ≡ ok r
      → AllWithin (length data') r.0
  pub unpack_self_execute-AllWithin :
      (data' : Bytes) {bs : List Body}
      → d.unpack_self_execute data' ≡ ok bs
      → AllWithin (length data') bs

module _ (d : AbiDecoder) (h : IsReading d) where
  unpack_call-Ends : (data' : Bytes) → Ends (unpack_call d data')
  unfolding unpack_call
  unpack_call-Ends data' = elim (Bool-cases (ltb (length data') 4)) [
    | inl y ↦ rw y tt
    | inr n ↦ elim (Bool-cases (is_execute d data')) [
      | inl y ↦ rw (n, y) (h.unpack_execute-Ends (drop 4 data'))
      | inr m ↦ elim (Bool-cases (is_self_execute d data')) [
        | inl y ↦
            rw (n, m, y)
              (Ends-bind (d.unpack_self_execute (drop 4 data')) _
                (h.unpack_self_execute-Ends (drop 4 data')) (λ bs e. tt))
        | inr l ↦ rw (n, m, l) tt
      ]
    ]
  ]

  -- The data of a nested call are shorter than the call by its selector at least.
  pub unpack_call-AllWithin :
      (data' : Bytes) {r : List Body × Option ℤ × Option Bytes}
      → unpack_call d data' ≡ ok r
      → (4 ≤ length data') × AllWithin (length data' - 4) r.0
  unfolding unpack_call
  unpack_call-AllWithin data' {r} e = elim (Bool-cases (ltb (length data') 4)) [
    | inl y ↦ let impossible : err not_a_call ≡ ok r = rw y at e in cc
    | inr n ↦
        let long : 4 ≤ length data' = ground arith in
        let same : length (drop 4 data') ≡ length data' - 4 = length-drop 4 data' in
        elim (Bool-cases (is_execute d data')) [
          | inl y ↦ (
            long,
            rw same at (h.unpack_execute-AllWithin (drop 4 data') {r = r} (rw (n, y) at e)),
          )
          | inr m ↦ elim (Bool-cases (is_self_execute d data')) [
            | inl y ↦
                let (bs, e1, e2) =
                  bind-ok (d.unpack_self_execute (drop 4 data')) _ (rw (n, m, y) at e) in
                (
                  long,
                  ok-subst (λ r. AllWithin (length data' - 4) r.0) e2
                      (rw same at (h.unpack_self_execute-AllWithin (drop 4 data') e1)),
                )
            | inr l ↦ let impossible : err not_a_call ≡ ok r = rw (n, m, l) at e in cc
          ]
        ]
  ]

  with_execution-Ends : (b : Body) (r : Result Execution) → Ends r → Ends (with_execution b r)
  unfolding with_execution
  with_execution-Ends b (ok e) h = tt
  with_execution-Ends b (err e) h = tt
  with_execution-Ends b panic h = tt
  with_execution-Ends b out_of_fuel h = h

  decode_nested-Ends :
      (f : Bytes → Result Execution) (n : ℕ) (bs : List Body)
      → ((data' : Bytes) → length data' ≤ n → Ends (f data'))
      → AllWithin n bs
      → Ends (decode_nested f bs)
  unfolding decode_nested
  decode_nested-Ends f n [] ends within = tt
  decode_nested-Ends f n (b ∷ bs) ends within =
      Ends-bind (with_execution b (f (bytes_of b.data'))) _
        (with_execution-Ends b _ (ends (bytes_of b.data') within.0))
        (λ t e.
          Ends-bind (decode_nested f bs) _ (decode_nested-Ends f n bs ends within.1) (λ ts e'. tt))

  decode_on-Ends : (fuel : ℕ) (data' : Bytes) → length data' < fuel → Ends (decode_on d fuel data')
  unfolding decode_on
  decode_on-Ends zero data' lt = absurd (omega arith)
  decode_on-Ends (suc fuel) data' lt =
      Ends-bind (unpack_call d data') _ (unpack_call-Ends data') (λ r e.
        let within = unpack_call-AllWithin data' {r = r} e in
        Ends-bind (decode_nested (decode_on d fuel) r.0) _
          (decode_nested-Ends (decode_on d fuel) (length data' - 4) r.0
            (λ data'' le. decode_on-Ends fuel data'' (omega (arith, le, within.0, lt))) within.1)
          (λ ts e'. tt))

  -- Decoding comes to an end: the rounds that it is given, one more than there are bytes, are enough
  -- for calls that are nested at any depth.
  pub decode_execdata-Ends : (data' : Bytes) → Ends (decode_execdata d data')
  unfolding decode_execdata
  decode_execdata-Ends data' = decode_on-Ends (suc (length data')) data' (omega arith)
