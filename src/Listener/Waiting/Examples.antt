-- ===== src/Listener/Waiting/Examples.antt =====
-- A receipt that is pushed behind the look at the past receipts and broadcast before another one.
use go_sequence.Base.{◌≡◌, refl, [], ◌∷◌, ◌++◌, none, true, ◌||◌, arith}
use go_sequence.Base.Bytes.{Bytes, bytes_equal}
use go_sequence.Listener.{ReceiptResult, BlockOfReceipts, push_receipts, find_past, find_in_block}
use go_sequence.Listener.Waiting.{
  System, initial, listening, look, deliver, receive, Reach, start, later, push, broadcast,
  subscribe, look_back, read,
}
use go_sequence.Listener.Waiting.Delivered.{holds, any_holds, Reach-listening}

abbrev the_id : Bytes
the_id = 7 ∷ []

abbrev receipt_of : Bytes → ReceiptResult
receipt_of id = record { meta_txn_id = id; results = []; txn_receipt = none }

abbrev other : BlockOfReceipts
other = receipt_of (8 ∷ []) ∷ []

abbrev wanted : BlockOfReceipts
wanted = receipt_of the_id ∷ []

-- The other block is pushed, the waiter subscribes and looks, and the wanted one is pushed.
abbrev both_pushed : System
both_pushed = record {
  past = other ∷ wanted ∷ [];
  pushed = other ∷ wanted ∷ [];
  pending = other ∷ wanted ∷ [];
  waiter = listening [];
}

both_pushed-Reach : Reach the_id both_pushed
unfolding push_receipts look find_past find_in_block bytes_equal
both_pushed-Reach =
    later
      (later (later (later start (push initial other)) (subscribe _ refl)) (look_back _ [] refl))
      (push (record both_pushed { past = other ∷ []; pushed = other ∷ []; pending = other ∷ [] })
        wanted)

-- Both are broadcast, and the waiter has read the other one.
abbrev delivered : System
delivered = record both_pushed { pending = []; waiter = listening wanted }

delivered-Reach : Reach the_id delivered
unfolding deliver receive bytes_equal
delivered-Reach =
    later
      (later (later both_pushed-Reach (broadcast both_pushed [] (wanted ∷ []) other refl))
        (broadcast _ [] [] wanted refl))
      (read (record delivered { waiter = listening (other ++ wanted) }) (receipt_of (8 ∷ [])) wanted
        refl)

was_pushed : any_holds the_id (other ∷ wanted ∷ []) ≡ true
unfolding find_past find_in_block bytes_equal
was_pushed = refl

Reach-listening_example : (any_holds the_id [] || holds the_id wanted) ≡ true
Reach-listening_example =
    Reach-listening the_id delivered wanted delivered-Reach refl (omega arith) was_pushed
