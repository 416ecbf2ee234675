-- ===== src/Transaction.antt =====
-- transactions.go: the meta-transactions of a wallet and their bundles.
pub mod Encode
pub mod Bundled
pub mod Signed
pub mod Decode
pub mod Reduce
use go_sequence.Base.{
  ℕ, suc, List, [], ◌∷◌, Option, none, some, Bool, true, false, not, ◌&&◌, ◌||◌, same,
  if◌then◌else◌,
}
use go_sequence.Base.Bytes.{Bytes}
use go_sequence.Base.Int.{ℤ, equal_ℤ}
use go_sequence.Base.Result.{
  Result, ok, err, panic, out_of_fuel, ◌>>=◌, ◌>>◌, calldata_and_execdata, nonce_without_signature,
  multiple_nonces,
}
use go_sequence.Ethkit.{Address}

-- The fields of `Transaction` but for the children. A nil pointer and a nil slice are `none`.
pub record Body : Type 0 where
  pub delegate_call : Bool
  pub revert_on_error : Bool
  pub gas_limit : Option ℤ
  pub to : Address
  pub value : Option ℤ
  pub data' : Option Bytes
  pub nonce : Option ℤ
  pub signature : Option Bytes
  pub encoded : Bool

-- `Transaction`, `Transactions` (a slice of pointers: `absent` is a nil pointer) and the field
-- `Transactions`, which may be a nil slice.
mutual
  pub data Transaction : Type 0 where
    transaction : Body → Children → Transaction

  pub data Children : Type 0 where
    no_children : Children
    children : Transactions → Children

  pub data Transactions : Type 0 where
    end : Transactions
    absent : Transactions → Transactions
    next : Transaction → Transactions → Transactions

abbrev pub body : Transaction → Body
body (transaction b c) = b

-- `Transaction{}`
abbrev pub zero_body : Body
zero_body = record {
  delegate_call = false;
  revert_on_error = false;
  gas_limit = none;
  to = 0;
  value = none;
  data' = none;
  nonce = none;
  signature = none;
  encoded = false;
}

abbrev pub is_some {ℓ} : {A : Type ℓ} → Option A → Bool
is_some none = false
is_some (some _) = true

abbrev pub has_children : Children → Bool
has_children no_children = false
has_children (children _) = true

-- `Clone` of a transaction and of its children: the flag `encoded` is not copied, and a nil pointer
-- is dereferenced.
unfoldable mutual
  pub clone : Transaction → Result Transaction
  clone (transaction b c) = do
    c' ← clone_children c
    ok (transaction (record b { encoded = false }) c')

  pub clone_children : Children → Result Children
  clone_children no_children = ok no_children
  clone_children (children ts) = do ts' ← clone_all ts; ok (children ts')

  pub clone_all : Transactions → Result Transactions
  clone_all end = ok end
  clone_all (absent ts) = panic
  clone_all (next t ts) = do t' ← clone t; ts' ← clone_all ts; ok (next t' ts')

-- `Transaction.IsValid`
unfoldable pub is_valid : Transaction → Result {0} Unit
is_valid (transaction b c) =
    if is_some b.data' && (has_children c || is_some b.nonce || is_some b.signature)
    then err calldata_and_execdata
    else if not (same (is_some b.nonce) (is_some b.signature))
    then err nonce_without_signature
    else ok tt

-- `Transaction.IsBundle`
unfoldable pub is_bundle : Transaction → Bool
is_bundle (transaction b (children (absent _))) = true
is_bundle (transaction b (children (next _ _))) = true
is_bundle (transaction b _) = false

abbrev pub append_all : Transactions → Transactions → Transactions
append_all end us = us
append_all (absent ts) us = absent (append_all ts us)
append_all (next t ts) us = next t (append_all ts us)

-- `Transactions.Append` and `Prepend`, on the slice that the receiver points to.
pub append : Transactions → Transactions → Transactions
append t txns = append_all t txns

pub prepend : Transactions → Transactions → Transactions
prepend t txns = append_all txns t

-- `Transaction.AddToBundle`
pub add_to_bundle : Transaction → Children → Transaction
add_to_bundle (transaction b (children (absent ts))) no_children =
    transaction b (children (absent ts))
add_to_bundle (transaction b (children (absent ts))) (children txns) =
    transaction b (children (append (absent ts) txns))
add_to_bundle (transaction b (children (next t ts))) no_children =
    transaction b (children (next t ts))
add_to_bundle (transaction b (children (next t ts))) (children txns) =
    transaction b (children (append (next t ts) txns))
add_to_bundle (transaction b _) txns = transaction b txns

-- `Transactions.AppendBundle` and `PrependBundle`: the receiver is a value, so the slice that `Append`
-- makes is lost, and the caller's slice is returned here as it is afterwards.
pub append_bundle : Transactions → Children → Transactions
append_bundle t txns =
    let local = append t (next (add_to_bundle (transaction zero_body no_children) txns) end) in t

pub prepend_bundle : Transactions → Children → Transactions
prepend_bundle t txns =
    let local = prepend t (next (add_to_bundle (transaction zero_body no_children) txns) end) in t

-- The loop of `Transactions.Nonce`, with the candidate.
pub nonce_loop : Option ℤ → Transactions → Result (Option ℤ)
nonce_loop cand end = ok cand
nonce_loop cand (absent ts) = panic
nonce_loop cand (next (transaction b c) ts) = elim b.nonce [
  | none ↦ nonce_loop cand ts
  | some n ↦ elim cand [
    | none ↦ nonce_loop (some n) ts
    | some m ↦ elim (equal_ℤ m n) [ true ↦ nonce_loop (some m) ts | false ↦ err multiple_nonces ]
  ]
]

-- `Transactions.Nonce`
pub bundle_nonce : Transactions → Result (Option ℤ)
bundle_nonce ts = nonce_loop none ts
