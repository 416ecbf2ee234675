-- ===== src/Listener/Buffer.antt =====
-- `makeUnboundedBuffered`: a goroutine between two channels, as a step relation.
use go_sequence.Base.{
  ◌≡◌, refl, sym, List, [], ◌∷◌, ◌++◌, Bool, true, false, append_assoc, append-nil,
}
use go_sequence.Listener.{ReceiptResult}

-- The buffer, and whether `sendCh` has been closed, which ends the goroutine.
pub record Buffer : Type 0 where
  pub buffer : List ReceiptResult
  pub closed : Bool

-- A message comes in on `ch`, a message goes out on `sendCh`, or the close of `ch` is seen.
pub data Event : Type 0 where
  received sent : ReceiptResult → Event
  saw_close : Event

abbrev pub start : Buffer
start = record { buffer = []; closed = false }

-- With an empty buffer the goroutine only receives, and a close of `ch` closes `sendCh`; otherwise it
-- sends the first message or receives, and a close of `ch` changes nothing.
pub data Step : Buffer → Event → Buffer → Type 0 where
  receive :
      {buffer : List ReceiptResult} (message : ReceiptResult)
      → Step
          (record { buffer = buffer; closed = false })
          (received message)
          (record { buffer = buffer ++ (message ∷ []); closed = false })
  send :
      {buffer : List ReceiptResult} (message : ReceiptResult)
      → Step
          (record { buffer = message ∷ buffer; closed = false })
          (sent message)
          (record { buffer = buffer; closed = false })
  close : Step start saw_close (record { buffer = []; closed = true })
  ignore :
      {buffer : List ReceiptResult} (message : ReceiptResult)
      → Step
          (record { buffer = message ∷ buffer; closed = false })
          saw_close
          (record { buffer = message ∷ buffer; closed = false })

-- The steps from the start, the last one at the end.
pub data Run : List Event → Buffer → Type 0 where
  begin : Run [] start
  then' :
      {events : List Event} {b c : Buffer} {e : Event}
      → Run events b
      → Step b e c
      → Run (events ++ (e ∷ [])) c

abbrev pub messages_in : List Event → List ReceiptResult
messages_in [] = []
messages_in (received m ∷ events) = m ∷ messages_in events
messages_in (_ ∷ events) = messages_in events

abbrev pub messages_out : List Event → List ReceiptResult
messages_out [] = []
messages_out (sent m ∷ events) = m ∷ messages_out events
messages_out (_ ∷ events) = messages_out events

messages_in-append :
    (xs ys : List Event) → messages_in (xs ++ ys) ≡ messages_in xs ++ messages_in ys
messages_in-append [] ys = refl
messages_in-append (received m ∷ xs) ys = rw (messages_in-append xs ys)
messages_in-append (sent m ∷ xs) ys = messages_in-append xs ys
messages_in-append (saw_close ∷ xs) ys = messages_in-append xs ys

messages_out-append :
    (xs ys : List Event) → messages_out (xs ++ ys) ≡ messages_out xs ++ messages_out ys
messages_out-append [] ys = refl
messages_out-append (sent m ∷ xs) ys = rw (messages_out-append xs ys)
messages_out-append (received m ∷ xs) ys = messages_out-append xs ys
messages_out-append (saw_close ∷ xs) ys = messages_out-append xs ys

-- In every run, what came in is what went out and then what the buffer holds, in this order; when
-- `sendCh` is closed, everything that came in went out.
pub messages_in_order :
    {events : List Event} {b : Buffer}
    → Run events b
    → (messages_in events ≡ messages_out events ++ b.buffer)
      × (b.closed ≡ true → messages_in events ≡ messages_out events)
messages_in_order begin = (refl, λ h. refl)
messages_in_order (then' {events} run (receive {buffer} message)) =
    let (order, _) = messages_in_order run in
    (
      rw
          (
            messages_in-append events _,
            messages_out-append events _,
            order,
            append-nil (messages_out events),
          )
          (append_assoc (messages_out events) buffer _),
      λ h. cc,
    )
messages_in_order (then' {events} run (send {buffer} message)) =
    let (order, _) = messages_in_order run in
    (
      rw
          (
            messages_in-append events _,
            messages_out-append events _,
            order,
            append-nil (messages_out events ++ (message ∷ buffer)),
          )
          (sym (append_assoc (messages_out events) (message ∷ []) buffer)),
      λ h. cc,
    )
messages_in_order (then' {events} run close) =
    let (order, _) = messages_in_order run in
    (
      rw
          (
            messages_in-append events _,
            messages_out-append events _,
            order,
            append-nil (messages_out events),
          )
          refl,
      λ h.
          rw
            (
              messages_in-append events _,
              messages_out-append events _,
              order,
              append-nil (messages_out events),
            )
            (append-nil (messages_out events)),
    )
messages_in_order (then' {events} run (ignore {buffer} message)) =
    let (order, _) = messages_in_order run in
    (
      rw
          (
            messages_in-append events _,
            messages_out-append events _,
            order,
            append-nil (messages_out events),
          )
          (append-nil _),
      λ h. cc,
    )
