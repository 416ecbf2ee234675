-- ===== src/Listener/Examples.antt =====
-- The listener at work.
use go_sequence.Base.{◌≡◌, refl, [], ◌∷◌, none, some, true}
use go_sequence.Base.Bytes.{Bytes, bytes_equal}
use go_sequence.Receipt.{meta_txn_executed}
use go_sequence.Listener.{ReceiptResult, find_past, find_in_block}
use go_sequence.Listener.Past.{push_all, push_all-newest}
use go_sequence.Listener.Buffer.{
  received, sent, saw_close, Run, begin, then', receive, send, ignore, close, messages_in_order,
}

abbrev of_id : Bytes → ReceiptResult
of_id id = record {
  meta_txn_id = id;
  results = record { status = meta_txn_executed; reason = [] } ∷ [];
  txn_receipt = none;
}

push_all-newest_example :
    push_all [] ((of_id (1 ∷ []) ∷ []) ∷ (of_id (2 ∷ []) ∷ []) ∷ [])
    ≡ (of_id (1 ∷ []) ∷ []) ∷ (of_id (2 ∷ []) ∷ []) ∷ []
push_all-newest_example = push_all-newest ((of_id (1 ∷ []) ∷ []) ∷ (of_id (2 ∷ []) ∷ []) ∷ [])

find_second :
    find_past ((of_id (1 ∷ []) ∷ []) ∷ (of_id (2 ∷ []) ∷ []) ∷ []) (2 ∷ []) ≡ some (of_id (2 ∷ []))
unfolding find_past find_in_block bytes_equal
find_second = refl

-- Two messages, the second of which comes in before the first goes out; then the close of the channel
-- is seen twice, the first time with a message in the buffer.
two_messages-Run :
    Run
      (received (of_id (1 ∷ []))
        ∷ received (of_id (2 ∷ []))
        ∷ sent (of_id (1 ∷ []))
        ∷ saw_close
        ∷ sent (of_id (2 ∷ []))
        ∷ saw_close
        ∷ [])
      (record { buffer = []; closed = true })
two_messages-Run =
    then'
      (then'
        (then'
          (then' (then' (then' begin (receive (of_id (1 ∷ [])))) (receive (of_id (2 ∷ []))))
            (send (of_id (1 ∷ []))))
          (ignore (of_id (2 ∷ []))))
        (send (of_id (2 ∷ []))))
      close

messages_in_order_example :
    (of_id (1 ∷ []) ∷ of_id (2 ∷ []) ∷ [] ≡ of_id (1 ∷ []) ∷ of_id (2 ∷ []) ∷ [])
    × (true ≡ true → of_id (1 ∷ []) ∷ of_id (2 ∷ []) ∷ [] ≡ of_id (1 ∷ []) ∷ of_id (2 ∷ []) ∷ [])
messages_in_order_example = messages_in_order two_messages-Run
