-- ===== src/Transaction/Decode/RoundTrip.antt =====
-- Decoding what `Execdata` encoded.
use go_sequence.Base.{
  ℕ, zero, suc, ◌-◌, ◌≤◌, ◌<◌, ◌≡◌, refl, List, [], ◌∷◌, map, some, Bool, true, false, ◌||◌, length,
  All, arith, Bool-cases, inl, inr, same, sym, ◌&&◌,
}
use go_sequence.Base.Bytes.{Bytes}
use go_sequence.Base.Result.{
  ok, err, bind-ok, ok-subst, calldata_and_execdata, nonce_without_signature,
}
use go_sequence.Transaction.{
  Body, Transaction, transaction, Children, no_children, children, Transactions, end, is_some, body,
  has_children, absent, next, clone_children, is_valid, is_bundle,
}
use go_sequence.Transaction.Encode.{
  Abi, defaulted, encoded_transactions, encoded_transaction, execdata_of, execdata, slice_of,
}
use go_sequence.Transaction.Decode.{
  AbiDecoder, bytes_of, with_execution, decode_nested, unpack_call, decode_on, decode_execdata,
}
use go_sequence.Transaction.Decode.Fuel.{AllWithin, IsReading, unpack_call-AllWithin}
use go_sequence.Transaction.Decode.Wire.{
  IsPackable, on_wire, IsInverse, plain, decoded, decoded_all, InRange, NoCall, IsNonce, IsSendable,
  AreSendable, unpack_call-execute_call,
}

same→eq : (x y : Bool) → same x y ≡ true → x ≡ y
same→eq true y h = sym h
same→eq false true h = cc
same→eq false false h = refl

both_or_neither :
    (b : Body) (c : Children) {u : Unit}
    → is_valid (transaction b c) ≡ ok u
    → is_some b.nonce ≡ is_some b.signature
unfolding is_valid
both_or_neither b c {u} e =
    elim (Bool-cases
      (is_some b.data' && (has_children c || is_some b.nonce || is_some b.signature))) [
        | inl y ↦ let impossible : err calldata_and_execdata ≡ ok u = rw y at e in cc
        | inr n ↦ elim (Bool-cases (same (is_some b.nonce) (is_some b.signature))) [
          | inl y ↦ same→eq (is_some b.nonce) (is_some b.signature) y
          | inr m ↦ let impossible : err nonce_without_signature ≡ ok u = rw (n, m) at e in cc
        ]
      ]

encoded_transaction-IsPackable :
    (abi : Abi) (t : Transaction) {e : Transaction}
    → InRange (body t)
    → encoded_transaction abi t ≡ ok e
    → IsPackable e
unfolding encoded_transactions
encoded_transaction-IsPackable abi (transaction b c) r h =
    let (d, h1, h2) = bind-ok (clone_children c) _ h in
    elim (Bool-cases (is_bundle (transaction b c))) [
      | inl y ↦
          let (x, h3, h4) = bind-ok (execdata_of abi (defaulted b) c) _ (rw y at h2) in
          ok-subst IsPackable h4 (r.0, r.1, r.2)
      | inr n ↦ ok-subst IsPackable (rw n at h2) (r.0, r.1, r.2)
    ]

IsSendable-InRange : (d : AbiDecoder) (t : Transaction) → IsSendable d t → InRange (body t)
IsSendable-InRange d (transaction b no_children) s = s.0
IsSendable-InRange d (transaction b (children end)) s = s.0
IsSendable-InRange d (transaction b (children (absent ts))) s = s.0
IsSendable-InRange d (transaction b (children (next t ts))) s = s.0

encoded_transactions-IsPackable :
    (abi : Abi) (d : AbiDecoder) (ts : Transactions) {es : List Transaction}
    → AreSendable d ts
    → encoded_transactions abi ts ≡ ok es
    → All IsPackable es
unfolding encoded_transactions
encoded_transactions-IsPackable abi d end s h = ok-subst (All IsPackable) h tt
encoded_transactions-IsPackable abi d (absent ts) s h = cc
encoded_transactions-IsPackable abi d (next t ts) s h =
    let (e, h1, h2) = bind-ok (encoded_transaction abi t) _ h in
    let (es, h3, h4) = bind-ok (encoded_transactions abi ts) _ h2 in
    ok-subst (All IsPackable) h4 (
      encoded_transaction-IsPackable abi t (IsSendable-InRange d t s.0) h1,
      encoded_transactions-IsPackable abi d ts s.1 h3,
    )

-- What a transaction of the loop becomes, once it is known that its call is decoded.
leaf-decoded :
    (abi : Abi) (d : AbiDecoder) (b : Body) (c : Children) (fuel : ℕ) {e : Transaction}
    → is_bundle (transaction b c) ≡ false
    → NoCall d b.data'
    → encoded_transaction abi (transaction b c) ≡ ok e
    → with_execution (on_wire e) (decode_on d (suc fuel) (bytes_of (on_wire e).data'))
      ≡ ok (plain b)
unfolding encoded_transactions with_execution decode_on
leaf-decoded abi d b c fuel n no_call h =
    let (c', h1, h2) = bind-ok (clone_children c) _ h in
    ok-subst
      (λ e.
        with_execution (on_wire e) (decode_on d (suc fuel) (bytes_of (on_wire e).data'))
        ≡ ok (plain b))
      (rw n at h2) (rw no_call.1 refl)

bundle-encoded :
    (abi : Abi) (b : Body) (c : Children) {e : Transaction}
    → is_bundle (transaction b c) ≡ true
    → encoded_transaction abi (transaction b c) ≡ ok e
    → (x : Bytes) × (execdata_of abi (defaulted b) c ≡ ok x)
      × (on_wire e ≡ record (on_wire (plain b)) { data' = some x })
unfolding encoded_transactions
bundle-encoded abi b c y h =
    let (c', h1, h2) = bind-ok (clone_children c) _ h in
    let (x, h3, h4) = bind-ok (execdata_of abi (defaulted b) c) _ (rw y at h2) in
    (x, h3, ok-subst (λ e. on_wire e ≡ record (on_wire (plain b)) { data' = some x }) h4 refl)

module _ (abi : Abi) (d : AbiDecoder) (h : IsInverse abi d) (r : IsReading d) where
  mutual
    unfolding encoded_transactions decode_on decode_nested with_execution is_bundle

    decode_on-execdata_of :
        (b : Body) (c : Children) (fuel : ℕ) {x : Bytes}
        → IsNonce b.nonce
        → AreSendable d (slice_of c)
        → execdata_of abi b c ≡ ok x
        → length x < fuel
        → decode_on d fuel x
          ≡ ok (record {
            transactions = decoded_all (slice_of c);
            nonce = b.nonce;
            signature = b.signature;
          })
    decode_on-execdata_of b c zero n s e lt = absurd (omega arith)
    decode_on-execdata_of b no_children (suc fuel) n s e lt =
        let (u, e1, e2) = bind-ok (is_valid (transaction b no_children)) _ e in cc
    decode_on-execdata_of b (children end) (suc fuel) n s e lt =
        let (u, e1, e2) = bind-ok (is_valid (transaction b (children end))) _ e in cc
    decode_on-execdata_of b (children (absent ts)) (suc fuel) n s e lt =
        let (u, e1, e2) = bind-ok (is_valid (transaction b (children (absent ts)))) _ e in cc
    decode_on-execdata_of b (children (next t ts)) (suc fuel) {x} n s e lt =
        let (u, e1, e2) = bind-ok (is_valid (transaction b (children (next t ts)))) _ e in
        let (es, e3, e4) = bind-ok (encoded_transactions abi (next t ts)) _ e2 in
        let e5 : unpack_call d x ≡ ok (map on_wire es, b.nonce, b.signature) =
          unpack_call-execute_call abi d h es b.nonce b.signature
            (encoded_transactions-IsPackable abi d (next t ts) s e3) n
            (both_or_neither b (children (next t ts)) e1) e4 in
        let within = unpack_call-AllWithin d r x e5 in
        rw (
          e5,
          decode_nested-encoded_transactions (next t ts) fuel (length x - 4) s e3 within.1
              (omega (arith, within.0, lt)),
        )

    decode_nested-encoded_transactions :
        (ts : Transactions) (fuel m : ℕ) {es : List Transaction}
        → AreSendable d ts
        → encoded_transactions abi ts ≡ ok es
        → AllWithin m (map on_wire es)
        → m < fuel
        → decode_nested (decode_on d fuel) (map on_wire es) ≡ ok (decoded_all ts)
    decode_nested-encoded_transactions end fuel m s e w lt =
        ok-subst (λ es. decode_nested (decode_on d fuel) (map on_wire es) ≡ ok []) e refl
    decode_nested-encoded_transactions (absent ts) fuel m s e w lt = cc
    decode_nested-encoded_transactions (next t ts) fuel m s e w lt =
        let (u, e1, e2) = bind-ok (encoded_transaction abi t) _ e in
        let (us', e3, e4) = bind-ok (encoded_transactions abi ts) _ e2 in
        let w' : AllWithin m (map on_wire (u ∷ us')) =
          ok-subst (λ us. AllWithin m (map on_wire us)) (sym e4) w in
        ok-subst
          (λ us.
            decode_nested (decode_on d fuel) (map on_wire us) ≡ ok (decoded t ∷ decoded_all ts))
          e4
          (rw (
            with_execution-encoded_transaction t fuel m s.0 e1 w'.0 lt,
            decode_nested-encoded_transactions ts fuel m s.1 e3 w'.1 lt,
          ))

    with_execution-encoded_transaction :
        (t : Transaction) (fuel m : ℕ) {u : Transaction}
        → IsSendable d t
        → encoded_transaction abi t ≡ ok u
        → length (bytes_of (on_wire u).data') ≤ m
        → m < fuel
        → with_execution (on_wire u) (decode_on d fuel (bytes_of (on_wire u).data'))
          ≡ ok (decoded t)
    with_execution-encoded_transaction t zero m s e w lt = absurd (omega arith)
    with_execution-encoded_transaction (transaction b no_children) (suc fuel) m s e w lt =
        leaf-decoded abi d b no_children fuel refl s.1 e
    with_execution-encoded_transaction (transaction b (children end)) (suc fuel) m s e w lt =
        leaf-decoded abi d b (children end) fuel refl s.1 e
    with_execution-encoded_transaction (transaction b (children (absent ts))) (suc fuel) m s e w
          lt =
        let (x, e1, e2) = bundle-encoded abi b (children (absent ts)) refl e in
        let (v, e3, e4) =
          bind-ok (is_valid (transaction (defaulted b) (children (absent ts)))) _ e1 in
        cc
    with_execution-encoded_transaction (transaction b (children (next t ts))) (suc fuel) m {u} s e w
          lt =
        let (x, e1, e2) = bundle-encoded abi b (children (next t ts)) refl e in
        let fits : length x < suc fuel = omega (arith, (rw e2 at w), lt) in
        rw (
          e2,
          decode_on-execdata_of (defaulted b) (children (next t ts)) (suc fuel) s.1 (s.2, s.3) e1
              fits,
        )

-- Decoding what `Execdata` encoded gives back the transactions with their defaults and without what
-- is not on the wire, the bundles at every depth, the nonce and the signature, when the numbers are in
-- range and the data of the single transactions are not themselves calls.
pub decode_execdata-execdata :
    (abi : Abi) (d : AbiDecoder) (b : Body) (ts : Transactions) {x : Bytes}
    → IsInverse abi d
    → IsReading d
    → IsNonce b.nonce
    → AreSendable d ts
    → execdata abi (transaction b (children ts)) ≡ ok x
    → decode_execdata d x
      ≡ ok (record { transactions = decoded_all ts; nonce = b.nonce; signature = b.signature })
unfolding execdata decode_execdata
decode_execdata-execdata abi d b ts {x} h r n s e =
    decode_on-execdata_of abi d h r b (children ts) (suc (length x)) n s e (omega arith)
