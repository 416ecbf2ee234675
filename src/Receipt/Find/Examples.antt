-- ===== src/Receipt/Find/Examples.antt =====
-- A receipt with a nested one.
use go_sequence.Base.{◌≡◌, refl, [], ◌∷◌, none, some, not, ◌&&◌}
use go_sequence.Base.Bytes.{Bytes, bytes_equal}
use go_sequence.Transaction.{zero_body, transaction, no_children}
use go_sequence.Receipt.{Entry, Receipt, receipt, more, no_receipts, meta_txn_executed, receipts_of}
use go_sequence.Receipt.Find.{find}
use go_sequence.Receipt.Find.Within.{find_iff, occurs}
use go_sequence.Transaction.{is_some}

abbrev entry : Bytes → Entry
entry id = record {
  meta_txn_id = id;
  status = meta_txn_executed;
  reason = [];
  logs = [];
  index = 0;
  transaction = transaction zero_body no_children;
  native = none;
}

abbrev middle : Receipt
middle = receipt (entry (2 ∷ [])) (more (receipt (entry (3 ∷ [])) no_receipts) no_receipts)

abbrev top : Receipt
top = receipt (entry (1 ∷ [])) (more middle no_receipts)

find_three : find top (3 ∷ []) ≡ some middle
unfolding find bytes_equal
find_three = refl

find_iff_example :
    is_some (find top (3 ∷ []))
    ≡ (not (bytes_equal (1 ∷ []) (3 ∷ [])) && occurs (receipts_of top) (3 ∷ []))
find_iff_example = find_iff top (3 ∷ [])
