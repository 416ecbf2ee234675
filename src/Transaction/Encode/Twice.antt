-- ===== src/Transaction/Encode/Twice.antt =====
-- What encoding does to transactions that are encoded already.
use go_sequence.Base.{
  ◌≡◌, refl, ◌∙◌, List, [], ◌∷◌, Option, none, some, Bool, true, false, ◌||◌, if◌then◌else◌,
  Bool-cases, inl, inr,
}
use go_sequence.Base.Bytes.{Bytes}
use go_sequence.Base.Int.{ℤ}
use go_sequence.Base.Result.{Result, ok, err, ◌>>=◌, bind-ok, ok-subst, calldata_and_execdata}
use go_sequence.Transaction.{
  Body, Transaction, transaction, Children, no_children, children, Transactions, end, absent, next,
  clone, clone_children, clone_all, is_valid, is_bundle,
}
use go_sequence.Transaction.Encode.{
  Abi, or_zero, defaulted, encoded_transactions, encoded_transaction, execdata_of,
}

mutual
  unfolding clone is_bundle

  clone-clone : (t : Transaction) {u : Transaction} → clone t ≡ ok u → clone u ≡ ok u
  clone-clone (transaction b c) e =
      let (c', e1, e2) = bind-ok (clone_children c) _ e in
      ok-subst (λ u. clone u ≡ ok u) e2 (rw (clone_children-clone_children c e1))

  clone_children-clone_children :
      (c : Children) {d : Children} → clone_children c ≡ ok d → clone_children d ≡ ok d
  clone_children-clone_children no_children e = ok-subst (λ d. clone_children d ≡ ok d) e refl
  clone_children-clone_children (children ts) e =
      let (ts', e1, e2) = bind-ok (clone_all ts) _ e in
      ok-subst (λ d. clone_children d ≡ ok d) e2 (rw (clone_all-clone_all ts e1))

  clone_all-clone_all :
      (ts : Transactions) {us : Transactions} → clone_all ts ≡ ok us → clone_all us ≡ ok us
  clone_all-clone_all end e = ok-subst (λ us. clone_all us ≡ ok us) e refl
  clone_all-clone_all (absent ts) e = cc
  clone_all-clone_all (next t ts) e =
      let (t', e1, e2) = bind-ok (clone t) _ e in
      let (ts', e3, e4) = bind-ok (clone_all ts) _ e2 in
      ok-subst (λ us. clone_all us ≡ ok us) e4 (rw (clone-clone t e1, clone_all-clone_all ts e3))

is_bundle-clone :
    (b b' : Body) (c : Children) {d : Children}
    → clone_children c ≡ ok d
    → is_bundle (transaction b' d) ≡ is_bundle (transaction b c)
unfolding clone is_bundle
is_bundle-clone b b' no_children e = ok-subst (λ d. is_bundle (transaction b' d) ≡ false) e refl
is_bundle-clone b b' (children end) e = ok-subst (λ d. is_bundle (transaction b' d) ≡ false) e refl
is_bundle-clone b b' (children (absent ts)) e = cc
is_bundle-clone b b' (children (next t ts)) e =
    let (us, e1, e2) = bind-ok (clone_all (next t ts)) _ e in
    let (t', e3, e4) = bind-ok (clone t) _ e1 in
    let (ts', e5, e6) = bind-ok (clone_all ts) _ e4 in
    ok-subst (λ d. is_bundle (transaction b' d) ≡ true) e2
      (ok-subst (λ us. is_bundle (transaction b' (children us)) ≡ true) e6 refl)

-- The slice of pointers to the values (`NewTransactionsFromValues`).
abbrev pub of_values : List Transaction → Transactions
of_values [] = end
of_values (t ∷ ts) = next t (of_values ts)

abbrev pub has_bundle : Transactions → Bool
has_bundle end = false
has_bundle (absent ts) = has_bundle ts
has_bundle (next t ts) = is_bundle t || has_bundle ts

or_zero-or_zero : (n : Option ℤ) → or_zero (or_zero n) ≡ or_zero n
or_zero-or_zero none = refl
or_zero-or_zero (some n) = refl

is_valid-both :
    (b : Body) (ts : Transactions) {x : Bytes}
    → b.data' ≡ some x
    → is_valid (transaction b (children ts)) ≡ err calldata_and_execdata
unfolding is_valid
is_valid-both b ts h = rw h

twice-cons :
    (x y : Bool) (e : Transaction) (es : List Transaction) (r : Result Transaction)
    (rs : Result (List Transaction))
    → r ≡ (if x then err calldata_and_execdata else ok e)
    → rs ≡ (if y then err calldata_and_execdata else ok es)
    → (r >>= λ e'. rs >>= λ es'. ok (e' ∷ es'))
      ≡ (if x || y then err calldata_and_execdata else ok (e ∷ es))
twice-cons true y e es r rs h1 h2 = rw h1
twice-cons false true e es r rs h1 h2 = rw (h1, h2)
twice-cons false false e es r rs h1 h2 = rw (h1, h2)

module _ (abi : Abi) where
  execdata_of-bundle :
      (b : Body) (c : Children) {x : Bytes}
      → b.data' ≡ some x
      → is_bundle (transaction b c) ≡ true
      → execdata_of abi b c ≡ err calldata_and_execdata
  unfolding encoded_transactions is_bundle
  execdata_of-bundle b no_children h y = cc
  execdata_of-bundle b (children ts) h y = rw (is_valid-both b ts h)

  encoded_transaction-twice :
      (t : Transaction) {e : Transaction}
      → encoded_transaction abi t ≡ ok e
      → encoded_transaction abi e ≡ (if is_bundle t then err calldata_and_execdata else ok e)
  unfolding encoded_transactions
  encoded_transaction-twice (transaction b c) {e} h =
      let (d, h1, h2) = bind-ok (clone_children c) _ h in
      elim (Bool-cases (is_bundle (transaction b c))) [
        | inl y ↦
            let (x, h3, h4) = bind-ok (execdata_of abi (defaulted b) c) _ (rw y at h2) in
            ok-subst
              (λ e.
                encoded_transaction abi e
                ≡ (if is_bundle (transaction b c) then err calldata_and_execdata else ok e))
              h4
              (rw (
                y,
                clone_children-clone_children c h1,
                is_bundle-clone b (record (defaulted b) { data' = some x; encoded = true }) c h1,
                y,
                execdata_of-bundle
                    (defaulted (record (defaulted b) { data' = some x; encoded = true })) d refl
                    (is_bundle-clone b _ c h1 ∙ y),
              ))
        | inr n ↦
            ok-subst
              (λ e.
                encoded_transaction abi e
                ≡ (if is_bundle (transaction b c) then err calldata_and_execdata else ok e))
              (rw n at h2)
              (rw (
                n,
                clone_children-clone_children c h1,
                is_bundle-clone b (record (defaulted b) { encoded = true }) c h1,
                n,
                or_zero-or_zero b.gas_limit,
                or_zero-or_zero b.value,
              ))
      ]

  encoded_transactions-of_values :
      (ts : Transactions) {es : List Transaction}
      → encoded_transactions abi ts ≡ ok es
      → encoded_transactions abi (of_values es)
        ≡ (if has_bundle ts then err calldata_and_execdata else ok es)
  unfolding encoded_transactions
  encoded_transactions-of_values end h =
      ok-subst (λ es. encoded_transactions abi (of_values es) ≡ ok es) h refl
  encoded_transactions-of_values (absent ts) h = cc
  encoded_transactions-of_values (next t ts) {es} h =
      let (e, h1, h2) = bind-ok (encoded_transaction abi t) _ h in
      let (es', h3, h4) = bind-ok (encoded_transactions abi ts) _ h2 in
      ok-subst
        (λ es.
          encoded_transactions abi (of_values es)
          ≡ (if has_bundle (next t ts) then err calldata_and_execdata else ok es))
        h4
        (twice-cons (is_bundle t) (has_bundle ts) e es' _ _ (encoded_transaction-twice t h1)
          (encoded_transactions-of_values ts h3))

-- The values that `EncodedTransactions` returns can be encoded again, which changes nothing, when
-- there is no bundle among the transactions; when there is one, the second encoding refuses them, as
-- a clone does not keep the flag that says that its data are encoded.
pub encoded_transactions_twice :
    (abi : Abi) (ts : Transactions) {es : List Transaction}
    → encoded_transactions abi ts ≡ ok es
    → encoded_transactions abi (of_values es)
      ≡ (if has_bundle ts then err calldata_and_execdata else ok es)
encoded_transactions_twice = encoded_transactions-of_values
