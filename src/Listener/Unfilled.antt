-- ===== src/Listener/Unfilled.antt =====
-- The native receipts of legacy_receipt_listener.go: what they are in the past receipts.
use go_sequence.Base.{
  ℕ, zero, suc, ◌≡◌, refl, subst, List, [], ◌∷◌, map, Option, none, some, Bool, true, false,
  Bool-cases, inl, inr, ltb, length, drop, get_elem?, All, All-append,
}
use go_sequence.Base.Bytes.{Bytes, bytes_equal}
use go_sequence.Ethkit.{Ethkit}
use go_sequence.Digest.{Hash}
use go_sequence.Receipt.{Log, Events}
use go_sequence.Listener.{
  MetaTxnResult, ReceiptResult, BlockOfReceipts, past_receipts_buf_size, push_receipts,
  find_in_block, find_past, Ranging, enter_round, assign_receipt, populate_from, populate_loop,
  handle_receipts,
}
use go_sequence.Listener.Blocks.{
  BlockLog, ReceiptMap, logs_of, tx_hashes, result_of, add_result, add_log, collect, receipts_of_tx,
  handle_block,
}

-- The past receipts of a listener, from its start on, at each push: of any native transaction in any block, what
-- `handleBlock` collects is given to `handleReceipts`, which fetches the native receipt or fails to.
pub data Listens (ev : Events) (k : Ethkit) : List BlockOfReceipts → Type 0 where
  start : Listens ev k []
  handled :
      (past : List BlockOfReceipts) (added : Bool) (logs : List BlockLog) (i : ℕ) (hash : Hash)
      (receipts : BlockOfReceipts) (fetched : Option Bytes)
      → Listens ev k past
      → get_elem? (handle_block ev k added logs) i ≡ some (hash, receipts)
      → Listens ev k (handle_receipts fetched receipts past)

abbrev IsUnfilled : ReceiptResult → Type 0
IsUnfilled r = r.txn_receipt ≡ none

abbrev AreUnfilled : BlockOfReceipts → Type 0
AreUnfilled receipts = All IsUnfilled receipts

populate_from_lem :
    (receipt : Bytes) (left i : ℕ) (s : Ranging)
    → (populate_from receipt left i s).txn_receipts ≡ s.txn_receipts
unfolding populate_from assign_receipt enter_round
populate_from_lem receipt zero i s = refl
populate_from_lem receipt (suc left) i s =
    populate_from_lem receipt left (suc i) (assign_receipt receipt (enter_round i s))

populate_loop_lem :
    (receipt : Bytes) (receipts : BlockOfReceipts) → populate_loop receipt receipts ≡ receipts
unfolding populate_loop
populate_loop_lem receipt receipts =
    populate_from_lem receipt (length receipts) 0
      (record { txn_receipts = receipts; txn_receipt = none })

drop-AreUnfilled :
    (n : ℕ) (past : List BlockOfReceipts) → All AreUnfilled past → All AreUnfilled (drop n past)
drop-AreUnfilled zero past h = h
drop-AreUnfilled (suc n) [] h = h
drop-AreUnfilled (suc n) (receipts ∷ past) h = drop-AreUnfilled n past h.1

push_receipts-AreUnfilled :
    (past : List BlockOfReceipts) (receipts : BlockOfReceipts)
    → All AreUnfilled past
    → AreUnfilled receipts
    → All AreUnfilled (push_receipts past receipts)
unfolding push_receipts
push_receipts-AreUnfilled past receipts h h' =
    elim (Bool-cases (ltb (length past) past_receipts_buf_size)) [
      | inl e ↦ rw e (All-append AreUnfilled past (receipts ∷ []) h (h', tt))
      | inr e ↦ rw e (
          All-append AreUnfilled (drop 1 past) (receipts ∷ []) (drop-AreUnfilled 1 past h) (h', tt))
    ]

handle_receipts-AreUnfilled :
    (fetched : Option Bytes) (receipts : BlockOfReceipts) (past : List BlockOfReceipts)
    → All AreUnfilled past
    → AreUnfilled receipts
    → All AreUnfilled (handle_receipts fetched receipts past)
unfolding handle_receipts
handle_receipts-AreUnfilled fetched [] past h h' = h
handle_receipts-AreUnfilled none (r ∷ receipts) past h h' =
    push_receipts-AreUnfilled past (r ∷ receipts) h h'
handle_receipts-AreUnfilled (some receipt) (r ∷ receipts) past h h' =
    rw (populate_loop_lem receipt (r ∷ receipts))
      (push_receipts-AreUnfilled past (r ∷ receipts) h h')

find_in_block-IsUnfilled :
    (receipts : BlockOfReceipts) (id : Bytes) (later : Option ReceiptResult)
    → AreUnfilled receipts
    → ((r : ReceiptResult) → later ≡ some r → IsUnfilled r)
    → (r : ReceiptResult) → find_in_block receipts id later ≡ some r
    → IsUnfilled r
unfolding find_in_block
find_in_block-IsUnfilled [] id later h h' r e = h' r e
find_in_block-IsUnfilled (x ∷ receipts) id later h h' r e =
    elim (Bool-cases (bytes_equal x.meta_txn_id id)) [
      | inl y ↦ let same : x ≡ r = let found = rw y at e in cc in subst IsUnfilled same h.0
      | inr n ↦ find_in_block-IsUnfilled receipts id later h.1 h' r (rw n at e)
    ]

find_past-IsUnfilled :
    (past : List BlockOfReceipts) (id : Bytes)
    → All AreUnfilled past
    → (r : ReceiptResult) → find_past past id ≡ some r
    → IsUnfilled r
unfolding find_past
find_past-IsUnfilled [] id h r e = cc
find_past-IsUnfilled (block ∷ past) id h r e =
    find_in_block-IsUnfilled block id (find_past past id) h.0 (find_past-IsUnfilled past id h.1) r e

module _ (ev : Events) (k : Ethkit) where
  abbrev HasUnfilled : ReceiptMap → Type 0
  HasUnfilled m = AreUnfilled (map (λ entry. entry.1) m)

  add_result-HasUnfilled :
      (hash : Hash) (result : MetaTxnResult) (m : ReceiptMap)
      → HasUnfilled m
      → HasUnfilled (add_result ev k hash result m)
  unfolding add_result
  add_result-HasUnfilled hash result [] h = (refl, tt)
  add_result-HasUnfilled hash result ((hash', r) ∷ m) h =
      elim (Bool-cases (bytes_equal hash' hash)) [
        | inl y ↦ rw y h
        | inr n ↦ rw n (h.0, add_result-HasUnfilled hash result m h.1)
      ]

  add_log-HasUnfilled :
      (added : Option (Hash × MetaTxnResult)) (m : ReceiptMap)
      → HasUnfilled m
      → HasUnfilled (add_log ev k added m)
  unfolding add_log
  add_log-HasUnfilled none m h = h
  add_log-HasUnfilled (some (hash, result)) m h = add_result-HasUnfilled hash result m h

  collect-HasUnfilled :
      (logs : List Log) (m : ReceiptMap) → HasUnfilled m → HasUnfilled (collect ev k m logs)
  unfolding collect
  collect-HasUnfilled [] m h = h
  collect-HasUnfilled (log ∷ logs) m h =
      collect-HasUnfilled logs (add_log ev k (result_of ev log) m)
        (add_log-HasUnfilled (result_of ev log) m h)

  receipts_of_tx-AreUnfilled :
      (logs : List BlockLog) (hashes : List Hash) (i : ℕ) (hash : Hash) (receipts : BlockOfReceipts)
      → get_elem? (map (receipts_of_tx ev k logs) hashes) i ≡ some (hash, receipts)
      → AreUnfilled receipts
  unfolding receipts_of_tx
  receipts_of_tx-AreUnfilled logs [] i hash receipts e = cc
  receipts_of_tx-AreUnfilled logs (h ∷ hashes) zero hash receipts e =
      let same : map (λ entry. entry.1) (collect ev k [] (logs_of h logs)) ≡ receipts = cc in
      subst AreUnfilled same (collect-HasUnfilled (logs_of h logs) [] tt)
  receipts_of_tx-AreUnfilled logs (h ∷ hashes) (suc i) hash receipts e =
      receipts_of_tx-AreUnfilled logs hashes i hash receipts e

  handle_block-AreUnfilled :
      (added : Bool) (logs : List BlockLog) (i : ℕ) (hash : Hash) (receipts : BlockOfReceipts)
      → get_elem? (handle_block ev k added logs) i ≡ some (hash, receipts)
      → AreUnfilled receipts
  unfolding handle_block
  handle_block-AreUnfilled false logs i hash receipts e = cc
  handle_block-AreUnfilled true logs i hash receipts e =
      receipts_of_tx-AreUnfilled logs (tx_hashes ev logs []) i hash receipts e

  Listens-AreUnfilled : (past : List BlockOfReceipts) → Listens ev k past → All AreUnfilled past
  Listens-AreUnfilled _ start = tt
  Listens-AreUnfilled _ (handled past added logs i hash receipts fetched before e) =
      handle_receipts-AreUnfilled fetched receipts past (Listens-AreUnfilled past before)
        (handle_block-AreUnfilled added logs i hash receipts e)

-- Whatever blocks a listener has handled, and whichever native receipts it has fetched, no receipt that
-- is found in its past receipts has its native receipt: the loop that is to fill it in assigns it to a
-- copy.
pub find_past-unfilled :
    (ev : Events) (k : Ethkit) (past : List BlockOfReceipts) (id : Bytes) (r : ReceiptResult)
    → Listens ev k past
    → find_past past id ≡ some r
    → r.txn_receipt ≡ none
find_past-unfilled ev k past id r listens e =
    find_past-IsUnfilled past id (Listens-AreUnfilled ev k past listens) r e
