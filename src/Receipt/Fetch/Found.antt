-- ===== src/Receipt/Fetch/Found.antt =====
-- What the filters say of the result.
use go_sequence.Base.{
  ◌≡◌, refl, [], ◌∷◌, List, Bool, true, false, ◌&&◌, ◌||◌, Bool-cases, inl, inr, length, ◌==◌,
}
use go_sequence.Digest.{Hash}
use go_sequence.Receipt.{
  Log, Status, status_unknown, meta_txn_executed, meta_txn_failed, Events, is_tx_executed_event,
  has_only_topic,
}
use go_sequence.Receipt.Fetch.{
  Outcome, fetch_loop, is_tx_failed_event, filter_meta_transaction_id, found_nonce_event,
  found_outcome, filter_meta_transaction_any,
}

-- The outcome of the meta-transaction is known.
abbrev pub is_known : Status → Bool
is_known meta_txn_executed = true
is_known meta_txn_failed = true
is_known _ = false

is_tx_executed_event-shape :
    (log : Log) (hash : Hash)
    → (length log.topics == 0 && length log.log_data == 32) ≡ false
    → is_tx_executed_event log hash ≡ false
unfolding is_tx_executed_event
is_tx_executed_event-shape log hash h =
    shape (length log.topics == 0) (length log.log_data == 32) _ h
  where
    shape : (a b c : Bool) → (a && b) ≡ false → (a && (b && c)) ≡ false
    shape true b c h = rw h
    shape false b c h = refl

module _ (ev : Events) where
  fetch_loop-known :
      (hash : Hash) (logs : List Log) (result : Outcome)
      → is_known (fetch_loop ev hash logs result).0
        ≡ (filter_meta_transaction_id ev hash logs || is_known result.0)
  unfolding fetch_loop filter_meta_transaction_id
  fetch_loop-known hash [] result = refl
  fetch_loop-known hash (log ∷ logs) result = elim (Bool-cases (is_tx_executed_event log hash)) [
    | inl e ↦ rw e
    | inr e ↦ elim (Bool-cases (is_tx_failed_event ev log hash)) [
      | inl f ↦
          rw (e, f, fetch_loop-known hash logs (meta_txn_failed, _))
            (or_true (filter_meta_transaction_id ev hash logs))
      | inr f ↦ rw (e, f) (fetch_loop-known hash logs result)
    ]
  ]
    where
      or_true : (b : Bool) → (b || true) ≡ true
      or_true true = refl
      or_true false = refl

  -- The result of a receipt says that the meta-transaction was executed or failed exactly when the
  -- filter for its id accepts the logs of the receipt.
  pub fetch_loop_iff :
      (hash : Hash) (logs : List Log)
      → is_known (fetch_loop ev hash logs (status_unknown, [])).0
        ≡ filter_meta_transaction_id ev hash logs
  fetch_loop_iff hash logs =
      rw (fetch_loop-known hash logs (status_unknown, []))
        (or_false (filter_meta_transaction_id ev hash logs))
    where
      or_false : (b : Bool) → (b || false) ≡ b
      or_false true = refl
      or_false false = refl

  is_tx_failed_event-topic :
      (log : Log) (hash : Hash)
      → has_only_topic log.topics ev.tx_failed_sig ≡ false
      → is_tx_failed_event ev log hash ≡ false
  unfolding is_tx_failed_event
  is_tx_failed_event-topic log hash h = rw h

  found_outcome-filter :
      (hash : Hash) (logs : List Log)
      → filter_meta_transaction_id ev hash logs ≡ true
      → found_outcome ev logs ≡ true
  unfolding filter_meta_transaction_id found_outcome
  found_outcome-filter hash [] h = h
  found_outcome-filter hash (log ∷ logs) h =
      elim (Bool-cases (has_only_topic log.topics ev.tx_failed_sig)) [
        | inl t ↦ rw t
        | inr t ↦ elim (Bool-cases (length log.topics == 0 && length log.log_data == 32)) [
          | inl e ↦ rw (t, e)
          | inr e ↦
              rw (t, e)
                (found_outcome-filter hash logs (
                  rw (is_tx_executed_event-shape log hash e, is_tx_failed_event-topic log hash t) at
                    h))
        ]
      ]

  -- When the filter for an id accepts the logs of a receipt that has a NonceChange event, the filter
  -- for any meta-transaction accepts them.
  filter_meta_transaction_any-id :
      (hash : Hash) (logs : List Log)
      → found_nonce_event ev logs ≡ true
      → filter_meta_transaction_id ev hash logs ≡ true
      → filter_meta_transaction_any ev logs ≡ true
  unfolding filter_meta_transaction_any
  filter_meta_transaction_any-id hash logs nonce h = rw nonce (found_outcome-filter hash logs h)
