-- ===== src/Receipt/Decode/Order.antt =====
-- The order of the outcomes in a bundle.
use go_sequence.Base.{
  ◌⊎◌, ℕ, suc, ◌≡◌, refl, subst, sym, List, [], ◌∷◌, ◌++◌, Option, Option-cases, inl, inr, Bool,
  arith,
}
use go_sequence.Base.Bytes.{Bytes}
use go_sequence.Base.Int.{ℤ}
use go_sequence.Base.Result.{ok, bind-ok, ok-subst}
use go_sequence.Ethkit.{Ethkit, Address}
use go_sequence.Digest.{Hash}
use go_sequence.Transaction.{Transaction, transaction, Transactions, end, absent, next}
use go_sequence.Transaction.Encode.{Abi, compute_meta_txn_id}
use go_sequence.Receipt.{
  Log, Status, meta_txn_reverted, Receipt, receipt, Receipts, no_receipts, more, entry_of, Events,
}
use go_sequence.Receipt.Decode.{
  Taken, outcome, take_logs, take_nonce_change, all_consumed, decode_with, digest_type,
  receipts_loop, decode_transaction, decode_children, decode_receipt,
}
use go_sequence.Receipt.Decode.Logged.{AreEvents, events_of, events_of-some, events_of-AreEvents}
use go_sequence.Receipt.Decode.Kept.{count, count_receipt, count-decode_transaction}

-- The transaction is reverted, without a reason.
abbrev pub IsReverted : Receipt → Type 0
IsReverted r = ((entry_of r).status ≡ meta_txn_reverted) × ((entry_of r).reason ≡ [])

-- All are reverted, and had no effect that was logged.
abbrev pub AreUntouched : Receipts → Type 0
AreUntouched no_receipts = Unit
AreUntouched (more r rs) = IsReverted r × ((entry_of r).logs ≡ []) × AreUntouched rs

-- The events go to the receipts in order, one to each, and none is left. The receipts behind them are
-- reverted; the first of those may have logs.
abbrev pub AreDealt : List (Status × Bytes) → Receipts → Type 0
AreDealt [] no_receipts = Unit
AreDealt [] (more r rs) = IsReverted r × AreUntouched rs
AreDealt (o ∷ os) no_receipts = ⊥
AreDealt (o ∷ os) (more r rs) =
    ((entry_of r).status ≡ o.0) × ((entry_of r).reason ≡ o.1) × AreDealt os rs

no_logs : (logs : List Log) → 0 ≡ count (λ _. 1) logs → logs ≡ []
no_logs [] h = refl
no_logs (log ∷ logs) h = absurd (omega arith)

logs_none : (r : Receipt) → 0 ≡ count_receipt (λ _. 1) r → (entry_of r).logs ≡ []
unfolding count_receipt
logs_none (receipt e rs) h = no_logs e.logs (omega arith)

all_consumed-nil :
    (top : List Log) (rs : Receipts) (logs : List Log) {out : List Log × Receipts}
    → all_consumed top rs logs ≡ ok out
    → (logs ≡ []) × (out.1 ≡ rs)
unfolding all_consumed
all_consumed-nil top rs [] e = (refl, ok-subst (λ out. out.1 ≡ rs) e refl)
all_consumed-nil top rs (log ∷ logs) e = cc

module _ (ev : Events) where
  own_none : (hash : Hash) → (take_logs ev hash []).own ≡ []
  unfolding take_logs
  own_none hash = refl

  rest_none : (hash : Hash) → (take_logs ev hash []).rest ≡ []
  unfolding take_logs
  rest_none hash = refl

  take_none :
      (hash : Hash)
      → ((take_logs ev hash []).status ≡ meta_txn_reverted) × ((take_logs ev hash []).reason ≡ [])
  unfolding take_logs
  take_none hash = (refl, refl)

  -- Nothing is left for the next transaction, or the first event is taken.
  take_logs-events :
      (hash : Hash) (logs : List Log)
      → let taken = take_logs ev hash logs in
        ((events_of ev hash logs ≡ [])
          × ((taken.status ≡ meta_txn_reverted) × (taken.reason ≡ []))
          × (taken.rest ≡ []))
        ⊎ ((o : Status × Bytes) × (events_of ev hash logs ≡ o ∷ events_of ev hash taken.rest)
            × (taken.status ≡ o.0)
            × (taken.reason ≡ o.1))
  unfolding take_logs events_of
  take_logs-events hash [] = inl (refl, (refl, refl), refl)
  take_logs-events hash (log ∷ logs) = elim (Option-cases (outcome ev hash log)) [
    | inl e ↦ rw (e, take_logs, events_of) (take_logs-events hash logs)
    | inr (o, e) ↦ inr (
      o,
      rw (e, take_logs) (events_of-some ev hash log logs e),
      rw (e, take_logs) refl,
      rw (e, take_logs) refl,
    )
  ]

  module _ (abi : Abi) (k : Ethkit) (chain_id : Option ℕ) where
    decode_transaction-entry :
        (t : Transaction) (i : ℕ) (id : Bytes) (taken : Taken) {r : Receipt}
        → decode_transaction ev abi k chain_id t i id taken ≡ ok r
        → ((entry_of r).status ≡ taken.status) × ((entry_of r).reason ≡ taken.reason)
    unfolding decode_transaction
    decode_transaction-entry (transaction b c) i id taken e =
        let (nested, _, e2) = bind-ok (decode_children ev abi k chain_id c b taken.own) _ e in
        ok-subst (λ r. ((entry_of r).status ≡ taken.status) × ((entry_of r).reason ≡ taken.reason))
          e2 (refl, refl)

    decode_transaction-IsReverted :
        (t : Transaction) (i : ℕ) (id : Bytes) (taken : Taken) {r : Receipt}
        → decode_transaction ev abi k chain_id t i id taken ≡ ok r
        → (taken.status ≡ meta_txn_reverted) × (taken.reason ≡ [])
        → IsReverted r
    decode_transaction-IsReverted t i id taken e (s, n) =
        let (s', n') = decode_transaction-entry t i id taken e in (rw s' s, rw n' n)

    decode_transaction-logs :
        (t : Transaction) (i : ℕ) (id : Bytes) (taken : Taken) {r : Receipt}
        → decode_transaction ev abi k chain_id t i id taken ≡ ok r
        → taken.own ≡ []
        → (entry_of r).logs ≡ []
    decode_transaction-logs t i id taken {r} e none_left =
        logs_none r
          (rw none_left at (count-decode_transaction ev (λ _. 1) abi k chain_id t i id taken e))

    receipts_loop-AreUntouched :
        (ts : Transactions) (i : ℕ) (id : Bytes) (hash : Hash)
        {out : List Log × (Receipts × List Log)}
        → receipts_loop ev abi k chain_id ts i id hash [] ≡ ok out
        → AreUntouched out.1.0
    unfolding receipts_loop
    receipts_loop-AreUntouched end i id hash e = ok-subst (λ out. AreUntouched out.1.0) e tt
    receipts_loop-AreUntouched (absent ts) i id hash e = cc
    receipts_loop-AreUntouched (next t ts) i id hash e =
        let (first, e1, e2) =
          bind-ok (decode_transaction ev abi k chain_id t i id (take_logs ev hash [])) _ e in
        let (later, e3, e4) =
          bind-ok (receipts_loop ev abi k chain_id ts (suc i) id hash (take_logs ev hash []).rest) _
            e2 in
        ok-subst (λ out. AreUntouched out.1.0) e4
          (
            decode_transaction-IsReverted t i id (take_logs ev hash []) e1 (take_none hash),
            decode_transaction-logs t i id (take_logs ev hash []) e1 (own_none hash),
            receipts_loop-AreUntouched ts (suc i) id hash (
                subst (λ l. receipts_loop ev abi k chain_id ts (suc i) id hash l ≡ ok later)
                  (rest_none hash) e3),
          )

    receipts_loop-AreDealt :
        (ts : Transactions) (i : ℕ) (id : Bytes) (hash : Hash) (logs : List Log)
        {out : List Log × (Receipts × List Log)}
        → receipts_loop ev abi k chain_id ts i id hash logs ≡ ok out
        → out.1.1 ≡ []
        → AreDealt (events_of ev hash logs) out.1.0
    unfolding receipts_loop events_of
    receipts_loop-AreDealt end i id hash logs e =
        ok-subst (λ out. out.1.1 ≡ [] → AreDealt (events_of ev hash logs) out.1.0) e
          (λ none_left. rw none_left tt)
    receipts_loop-AreDealt (absent ts) i id hash logs e = cc
    receipts_loop-AreDealt (next t ts) i id hash logs e =
        let taken = take_logs ev hash logs in
        let (first, e1, e2) = bind-ok (decode_transaction ev abi k chain_id t i id taken) _ e in
        let (later, e3, e4) =
          bind-ok (receipts_loop ev abi k chain_id ts (suc i) id hash taken.rest) _ e2 in
        ok-subst (λ out. out.1.1 ≡ [] → AreDealt (events_of ev hash logs) out.1.0) e4
          (λ none_left. elim (take_logs-events hash logs) [
            | inl (no_events, reverted, no_rest) ↦
                subst (λ os. AreDealt os (more first later.1.0)) (sym no_events)
                  (
                    decode_transaction-IsReverted t i id taken e1 reverted,
                    receipts_loop-AreUntouched ts (suc i) id hash (
                        subst (λ l. receipts_loop ev abi k chain_id ts (suc i) id hash l ≡ ok later)
                          no_rest e3),
                  )
            | inr (o, events, status, reason) ↦
                let (status', reason') = decode_transaction-entry t i id taken e1 in
                subst (λ os. AreDealt os (more first later.1.0)) (sym events)
                  (
                    rw status' status,
                    rw reason' reason,
                    receipts_loop-AreDealt ts (suc i) id hash taken.rest e3 none_left,
                  )
          ])

-- The receipts of a bundle take the events of its logs in order, those behind the change of the nonce:
-- as many receipts as there are events have their statuses and reasons, executed or failed, one by one,
-- and no event is left. The receipts behind them are reverted without a reason, and all of them but the
-- first have no logs.
pub decode_receipt-AreDealt :
    (ev : Events) (abi : Abi) (k : Ethkit) (chain_id : Option ℕ) (logs : List Log)
    (ts : Transactions) (n : Option ℤ) (a : Address) (is_guest : Bool) {out : List Log × Receipts}
    → decode_receipt ev abi k chain_id logs ts n a is_guest ≡ ok out
    → (id : Bytes × Hash) × (compute_meta_txn_id abi k chain_id a ts n (digest_type n is_guest)
        ≡ ok id)
      × (split : List Log × List Log) × (take_nonce_change ev (digest_type n is_guest) logs
          ≡ ok split)
      × (os : List (Status × Bytes)) × AreEvents ev id.1 split.1 os
      × AreDealt os out.1
unfolding decode_receipt decode_with
decode_receipt-AreDealt ev abi k chain_id logs ts n a is_guest e =
    let (id, e_id, e1) =
      bind-ok (compute_meta_txn_id abi k chain_id a ts n (digest_type n is_guest)) _ e in
    let (split, e_split, e2) = bind-ok (take_nonce_change ev (digest_type n is_guest) logs) _ e1 in
    let (dealt, looped, e3) =
      bind-ok (receipts_loop ev abi k chain_id ts 0 id.0 id.1 split.1) _ e2 in
    let (none_left, same) = all_consumed-nil (split.0 ++ dealt.0) dealt.1.0 dealt.1.1 e3 in
    let dealt_out =
      receipts_loop-AreDealt ev abi k chain_id ts 0 id.0 id.1 split.1 looped none_left in
    (
      id,
      e_id,
      split,
      e_split,
      events_of ev id.1 split.1,
      events_of-AreEvents ev id.1 split.1,
      subst (AreDealt (events_of ev id.1 split.1)) (sym same) dealt_out,
    )
