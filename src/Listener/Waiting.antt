-- ===== src/Listener/Waiting.antt =====
-- `WaitForMetaTxn` beside the goroutines of `handleReceipts`, as a step relation: the two locks make
-- each push, each look at the past receipts, each subscription and each broadcast one step.
pub mod Delivered
mod Examples
use go_sequence.Base.{
  ◌≡◌, List, [], ◌∷◌, ◌++◌, Option, none, some, Bool, true, false, if◌then◌else◌,
}
use go_sequence.Base.Bytes.{Bytes, bytes_equal}
use go_sequence.Listener.{ReceiptResult, BlockOfReceipts, push_receipts, find_past}

-- Where `WaitForMetaTxn` is, with what its subscription has received and it has not yet read; in the end
-- it unsubscribes and returns a receipt or an error.
pub data Waiter : Type 0 where
  outside : Waiter
  subscribed listening : List ReceiptResult → Waiter
  found : ReceiptResult → Waiter
  unsubscribed : Option ReceiptResult → Waiter

-- `pushed` is the history of all pushes; `pending` holds what was pushed and is still to be broadcast.
pub record System : Type 0 where
  pub past : List BlockOfReceipts
  pub pushed : List BlockOfReceipts
  pub pending : List BlockOfReceipts
  pub waiter : Waiter

abbrev pub initial : System
initial = record { past = []; pushed = []; pending = []; waiter = outside }

-- A broadcast reaches the subscription, if there is one: `sub.sendCh` is unbounded.
unfoldable pub deliver : BlockOfReceipts → Waiter → Waiter
deliver receipts (subscribed inbox) = subscribed (inbox ++ receipts)
deliver receipts (listening inbox) = listening (inbox ++ receipts)
deliver receipts w = w

-- The look at the past receipts, behind the subscription.
unfoldable pub look : List BlockOfReceipts → Bytes → List ReceiptResult → Waiter
look past id inbox = elim (find_past past id) [ none ↦ listening inbox | some r ↦ found r ]

-- One message of the subscription's channel.
unfoldable pub receive : Bytes → ReceiptResult → List ReceiptResult → Waiter
receive id r inbox = if bytes_equal r.meta_txn_id id then found r else listening inbox

pub data Step (id : Bytes) : System → System → Type 0 where
  push :
      (s : System) (receipts : BlockOfReceipts)
      → Step id s (record s {
        past = push_receipts s.past receipts;
        pushed = s.pushed ++ (receipts ∷ []);
        pending = s.pending ++ (receipts ∷ []);
      })
  broadcast :
      (s : System) (before after' : List BlockOfReceipts) (receipts : BlockOfReceipts)
      → s.pending ≡ before ++ (receipts ∷ after')
      → Step id s (record s { pending = before ++ after'; waiter = deliver receipts s.waiter })
  subscribe : (s : System) → s.waiter ≡ outside → Step id s (record s { waiter = subscribed [] })
  look_back :
      (s : System) (inbox : List ReceiptResult)
      → s.waiter ≡ subscribed inbox
      → Step id s (record s { waiter = look s.past id inbox })
  read :
      (s : System) (r : ReceiptResult) (inbox : List ReceiptResult)
      → s.waiter ≡ listening (r ∷ inbox)
      → Step id s (record s { waiter = receive id r inbox })
  time_out :
      (s : System) (inbox : List ReceiptResult)
      → s.waiter ≡ listening inbox
      → Step id s (record s { waiter = unsubscribed none })
  unsubscribe :
      (s : System) (r : ReceiptResult)
      → s.waiter ≡ found r
      → Step id s (record s { waiter = unsubscribed (some r) })

pub data Reach (id : Bytes) : System → Type 0 where
  start : Reach id initial
  later : {s t : System} → Reach id s → Step id s t → Reach id t
