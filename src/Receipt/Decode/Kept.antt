-- ===== src/Receipt/Decode/Kept.antt =====
-- `decodeReceipt` of receipts.go: the logs that are dealt out, counted.
use go_sequence.Base.{
  ℕ, suc, ◌+◌, ◌≡◌, List, [], ◌∷◌, ◌++◌, Option, Option-cases, inl, inr, Bool, arith,
}
use go_sequence.Base.Bytes.{Bytes}
use go_sequence.Base.Int.{ℤ}
use go_sequence.Base.Result.{Result, ok, err, panic, out_of_fuel, bind-ok, ok-subst}
use go_sequence.Ethkit.{Ethkit, Address}
use go_sequence.Digest.{Hash}
use go_sequence.Transaction.{
  Body, Transaction, transaction, Children, no_children, children, Transactions, end, absent, next,
}
use go_sequence.Transaction.Encode.{
  Abi, ExecType, wallet_exec, self_exec, guest_exec, unknown_exec, compute_meta_txn_id,
}
use go_sequence.Receipt.{
  Log, Receipt, receipt, Receipts, no_receipts, more, Events, decode_nonce_change_event,
}
use go_sequence.Receipt.Decode.{
  Taken, outcome, take_logs, take_nonce_change, after_nonce_change, all_consumed, decode_with,
  digest_type, receipts_loop, decode_transaction, decode_children, decode_receipt,
}

-- The logs, counted by a weight for each.
abbrev pub count : (Log → ℕ) → List Log → ℕ
count f [] = 0
count f (log ∷ logs) = f log + count f logs

count-append : (f : Log → ℕ) (xs ys : List Log) → count f (xs ++ ys) ≡ count f xs + count f ys
count-append f [] ys = omega arith
count-append f (x ∷ xs) ys = omega (arith, count-append f xs ys)

-- The logs of the receipts, those of the nested receipts among them.
unfoldable mutual
  pub count_receipt : (Log → ℕ) → Receipt → ℕ
  count_receipt f (receipt e rs) = count f e.logs + count_receipts f rs

  pub count_receipts : (Log → ℕ) → Receipts → ℕ
  count_receipts f no_receipts = 0
  count_receipts f (more r rs) = count_receipt f r + count_receipts f rs

count-after_nonce_change :
    (f : Log → ℕ) (r : Result (ℕ × ℕ)) (log : Log) (logs : List Log) {split : List Log × List Log}
    → after_nonce_change r log logs ≡ ok split
    → f log + count f logs ≡ count f split.0 + count f split.1
unfolding after_nonce_change
count-after_nonce_change f (ok nonces) log logs e =
    ok-subst (λ split. f log + count f logs ≡ count f split.0 + count f split.1) e (omega arith)
count-after_nonce_change f (err x) log logs e = cc
count-after_nonce_change f panic log logs e = cc
count-after_nonce_change f out_of_fuel log logs e = cc

module _ (ev : Events) (f : Log → ℕ) where
  count-take_logs :
      (hash : Hash) (logs : List Log)
      → count f logs
        ≡ count f (take_logs ev hash logs).own
          + (count f (take_logs ev hash logs).event + count f (take_logs ev hash logs).rest)
  unfolding take_logs
  count-take_logs hash [] = omega arith
  count-take_logs hash (log ∷ logs) = elim (Option-cases (outcome ev hash log)) [
    | inl e ↦ rw (e, take_logs) (omega (arith, count-take_logs hash logs))
    | inr (o, e) ↦ rw (e, take_logs) (omega arith)
  ]

  count-take_nonce_change :
      (t : ExecType) (logs : List Log) {split : List Log × List Log}
      → take_nonce_change ev t logs ≡ ok split
      → count f logs ≡ count f split.0 + count f split.1
  unfolding take_nonce_change
  count-take_nonce_change wallet_exec [] e =
      ok-subst (λ split. 0 ≡ count f split.0 + count f split.1) e (omega arith)
  count-take_nonce_change wallet_exec (log ∷ logs) e =
      count-after_nonce_change f (decode_nonce_change_event ev log) log logs e
  count-take_nonce_change self_exec logs e =
      ok-subst (λ split. count f logs ≡ count f split.0 + count f split.1) e (omega arith)
  count-take_nonce_change guest_exec logs e =
      ok-subst (λ split. count f logs ≡ count f split.0 + count f split.1) e (omega arith)
  count-take_nonce_change unknown_exec logs e =
      ok-subst (λ split. count f logs ≡ count f split.0 + count f split.1) e (omega arith)

  count-all_consumed :
      (top : List Log) (rs : Receipts) (logs : List Log) {out : List Log × Receipts}
      → all_consumed top rs logs ≡ ok out
      → count f top + (count_receipts f rs + count f logs) ≡ count f out.0 + count_receipts f out.1
  unfolding all_consumed
  count-all_consumed top rs [] e =
      ok-subst
        (λ out. count f top + (count_receipts f rs + 0) ≡ count f out.0 + count_receipts f out.1) e
        (omega arith)
  count-all_consumed top rs (log ∷ logs) e = cc

  module _ (abi : Abi) (k : Ethkit) (chain_id : Option ℕ) where
    -- A loop keeps the logs when they are those of its top level, of its receipts and the rest.
    Keeps : (List Log → Result (List Log × (Receipts × List Log))) → Type 0
    Keeps loop =
        (logs : List Log) (out : List Log × (Receipts × List Log))
        → loop logs ≡ ok out
        → count f logs ≡ count f out.0 + (count_receipts f out.1.0 + count f out.1.1)

    count-decode_with :
        (loop : Bytes → Hash → List Log → Result (List Log × (Receipts × List Log)))
        → ((id : Bytes) (hash : Hash) → Keeps (loop id hash))
        → (logs : List Log) (ts : Transactions) (n : Option ℤ) (a : Address) (g : Bool)
        → {out : List Log × Receipts} → decode_with ev abi k chain_id loop logs ts n a g ≡ ok out
        → count f logs ≡ count f out.0 + count_receipts f out.1
    unfolding decode_with Keeps
    count-decode_with loop keeps logs ts n a g e =
        let (id, _, e1) =
          bind-ok (compute_meta_txn_id abi k chain_id a ts n (digest_type n g)) _ e in
        let (split, taken, e2) = bind-ok (take_nonce_change ev (digest_type n g) logs) _ e1 in
        let (dealt, looped, e3) = bind-ok (loop id.0 id.1 split.1) _ e2 in
        omega (
          arith,
          count-take_nonce_change (digest_type n g) logs taken,
          keeps id.0 id.1 split.1 dealt looped,
          count-all_consumed (split.0 ++ dealt.0) dealt.1.0 dealt.1.1 e3,
          count-append f split.0 dealt.0,
        )

    mutual
      unfolding receipts_loop Keeps count_receipts

      count-receipts_loop :
          (ts : Transactions) (i : ℕ) (id : Bytes) (hash : Hash)
          → Keeps (receipts_loop ev abi k chain_id ts i id hash)
      count-receipts_loop end i id hash logs out e =
          ok-subst
            (λ out. count f logs ≡ count f out.0 + (count_receipts f out.1.0 + count f out.1.1)) e
            (omega arith)
      count-receipts_loop (absent ts) i id hash logs out e = cc
      count-receipts_loop (next t ts) i id hash logs out e =
          let taken : Taken = take_logs ev hash logs in
          let (first, e1, e2) = bind-ok (decode_transaction ev abi k chain_id t i id taken) _ e in
          let (later, e3, e4) =
            bind-ok (receipts_loop ev abi k chain_id ts (suc i) id hash taken.rest) _ e2 in
          ok-subst
            (λ out. count f logs ≡ count f out.0 + (count_receipts f out.1.0 + count f out.1.1)) e4
            (omega (
              arith,
              count-take_logs hash logs,
              count-decode_transaction t i id taken e1,
              count-receipts_loop ts (suc i) id hash taken.rest later e3,
              count-append f taken.event later.0,
            ))

      pub count-decode_transaction :
          (t : Transaction) (i : ℕ) (id : Bytes) (taken : Taken) {r : Receipt}
          → decode_transaction ev abi k chain_id t i id taken ≡ ok r
          → count f taken.own ≡ count_receipt f r
      count-decode_transaction (transaction b c) i id taken e =
          let (nested, e1, e2) = bind-ok (decode_children ev abi k chain_id c b taken.own) _ e in
          ok-subst (λ r. count f taken.own ≡ count_receipt f r) e2
            (count-decode_children c b taken.own e1)

      count-decode_children :
          (c : Children) (b : Body) (logs : List Log) {out : List Log × Receipts}
          → decode_children ev abi k chain_id c b logs ≡ ok out
          → count f logs ≡ count f out.0 + count_receipts f out.1
      count-decode_children no_children b logs e =
          ok-subst (λ out. count f logs ≡ count f out.0 + count_receipts f out.1) e (omega arith)
      count-decode_children (children ts) b logs e =
          count-decode_with (receipts_loop ev abi k chain_id ts 0)
            (λ id hash. count-receipts_loop ts 0 id hash) logs ts b.nonce b.to _ e

-- When `decodeReceipt` succeeds, every log it was given is in exactly one place, at the top level or
-- in one of the receipts, the nested ones included: however the logs are counted, the sum is kept.
pub count-decode_receipt :
    (ev : Events) (f : Log → ℕ) (abi : Abi) (k : Ethkit) (chain_id : Option ℕ) (logs : List Log)
    (ts : Transactions) (n : Option ℤ) (a : Address) (is_guest : Bool) {out : List Log × Receipts}
    → decode_receipt ev abi k chain_id logs ts n a is_guest ≡ ok out
    → count f logs ≡ count f out.0 + count_receipts f out.1
unfolding decode_receipt
count-decode_receipt ev f abi k chain_id logs ts n a is_guest e =
    count-decode_with ev f abi k chain_id (receipts_loop ev abi k chain_id ts 0)
      (λ id hash. count-receipts_loop ev f abi k chain_id ts 0 id hash) logs ts n a is_guest e
