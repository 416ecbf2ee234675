-- ===== src/Receipt/Decode/Logged.antt =====
-- The events in the logs that decodeReceipt of receipts.go reads, described apart from its loop.
use go_sequence.Base.{
  true, ap, Bool-cases, ◌⊎◌, ◌≡◌, refl, sym, List, [], ◌∷◌, none, some, Option-cases, inl, inr,
}
use go_sequence.Base.Bytes.{Bytes, bytes_equal, bytes_equal→eq, bytes_equal_refl}
use go_sequence.Base.Result.{Result, err, panic, out_of_fuel, ok}
use go_sequence.Digest.{Hash}
use go_sequence.Receipt.{
  Log, Status, meta_txn_executed, meta_txn_failed, is_tx_executed_event, decode_tx_failed_event,
  Events,
}
use go_sequence.Receipt.Decode.{failure_of, outcome}

-- The log says that a transaction with the hash is executed, or that it failed and why.
abbrev pub IsEvent : Events → Hash → Log → Status × Bytes → Type 0
IsEvent ev hash log o =
    ((is_tx_executed_event log hash ≡ true) × (o ≡ (meta_txn_executed, [])))
    ⊎ ((decode_tx_failed_event ev log ≡ ok (hash, o.1)) × (o.0 ≡ meta_txn_failed))

-- These are the events of the logs for the hash, in order.
pub data AreEvents (ev : Events) (hash : Hash) : List Log → List (Status × Bytes) → Type 0 where
  nothing : AreEvents ev hash [] []
  event :
      (log : Log) (logs : List Log) (o : Status × Bytes) (os : List (Status × Bytes))
      → IsEvent ev hash log o
      → AreEvents ev hash logs os
      → AreEvents ev hash (log ∷ logs) (o ∷ os)
  other :
      (log : Log) (logs : List Log) (os : List (Status × Bytes))
      → ((o : Status × Bytes) → ¬ IsEvent ev hash log o)
      → AreEvents ev hash logs os
      → AreEvents ev hash (log ∷ logs) os

-- The statuses and reasons that the code reads off the logs.
unfoldable pub events_of : Events → Hash → List Log → List (Status × Bytes)
events_of ev hash [] = []
events_of ev hash (log ∷ logs) =
    let later = events_of ev hash logs in
    elim (outcome ev hash log) [ some o ↦ o ∷ later | none ↦ later ]

pair_eq :
    (o : Status × Bytes) {s : Status} {reason : Bytes}
    → some (s, reason) ≡ some o
    → (s ≡ o.0) × (reason ≡ o.1)
pair_eq o {s = s} {reason = reason} e =
    let same : (s, reason) ≡ o = cc in (ap (λ x. x.0) same, ap (λ x. x.1) same)

failure_of-failed :
    (hash : Hash) (r : Result (Hash × Bytes)) {o : Status × Bytes}
    → failure_of hash r ≡ some o
    → (r ≡ ok (hash, o.1)) × (o.0 ≡ meta_txn_failed)
unfolding failure_of
failure_of-failed hash (ok (h, reason)) {o} e = elim (Bool-cases (bytes_equal h hash)) [
  | inl y ↦
      let same : h ≡ hash = bytes_equal→eq h hash y in
      let (s, n) = pair_eq o (rw y at e) in (rw (same, n) refl, sym s)
  | inr m ↦ let e' = rw m at e in cc
]
failure_of-failed hash (err x) e = cc
failure_of-failed hash panic e = cc
failure_of-failed hash out_of_fuel e = cc

failure_of-ok :
    (hash : Hash) (reason : Bytes)
    → failure_of hash (ok (hash, reason)) ≡ some (meta_txn_failed, reason)
unfolding failure_of
failure_of-ok hash reason = rw (bytes_equal_refl hash) refl

module _ (ev : Events) where
  outcome-IsEvent :
      (hash : Hash) (log : Log) {o : Status × Bytes}
      → outcome ev hash log ≡ some o
      → IsEvent ev hash log o
  unfolding outcome
  outcome-IsEvent hash log {o} e = elim (Bool-cases (is_tx_executed_event log hash)) [
    | inl y ↦ let same : o ≡ (meta_txn_executed, []) = let e' = rw y at e in cc in inl (y, same)
    | inr n ↦ inr (failure_of-failed hash (decode_tx_failed_event ev log) (rw n at e))
  ]

  outcome-none :
      (hash : Hash) (log : Log)
      → outcome ev hash log ≡ none
      → (o : Status × Bytes) → ¬ IsEvent ev hash log o
  unfolding outcome
  outcome-none hash log e o (inl (y, same)) = let e' = rw y at e in cc
  outcome-none hash log e o (inr (decoded, failed)) =
      elim (Bool-cases (is_tx_executed_event log hash)) [
        | inl y ↦ let e' = rw y at e in cc
        | inr n ↦ let e' = rw (n, decoded, failure_of-ok hash o.1) at e in cc
      ]

  pub events_of-AreEvents :
      (hash : Hash) (logs : List Log) → AreEvents ev hash logs (events_of ev hash logs)
  unfolding events_of
  events_of-AreEvents hash [] = nothing
  events_of-AreEvents hash (log ∷ logs) = elim (Option-cases (outcome ev hash log)) [
    | inl e ↦
        rw (e, events_of)
          (other log logs (events_of ev hash logs) (outcome-none hash log e)
            (events_of-AreEvents hash logs))
    | inr (o, e) ↦
        rw (e, events_of)
          (event log logs o (events_of ev hash logs) (outcome-IsEvent hash log e)
            (events_of-AreEvents hash logs))
  ]

  pub events_of-some :
      (hash : Hash) (log : Log) (logs : List Log) {o : Status × Bytes}
      → outcome ev hash log ≡ some o
      → events_of ev hash (log ∷ logs) ≡ o ∷ events_of ev hash logs
  unfolding events_of
  events_of-some hash log logs e = rw (e, events_of) refl
