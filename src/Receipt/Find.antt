-- ===== src/Receipt/Find.antt =====
-- `Receipt.Find` of receipts.go: the receipt whose children have a meta transaction id.
pub mod Within
mod Examples
use go_sequence.Base.{Option, none, some, Bool, true, false, ◌||◌, if◌then◌else◌}
use go_sequence.Base.Bytes.{Bytes, bytes_equal}
use go_sequence.Receipt.{Entry, Receipt, receipt, Receipts, no_receipts, more, entry_of}

-- The first answer, if there is one.
abbrev pub or_else : Option Receipt → Option Receipt → Option Receipt
or_else (some p) later = some p
or_else none later = later

-- The receipt itself and the loop over its children, for which it is the answer.
unfoldable mutual
  pub find : Receipt → Bytes → Option Receipt
  find (receipt e rs) id =
      let among_children = find_children rs (receipt e rs) id in
      if bytes_equal e.meta_txn_id id then none else among_children

  pub find_children : Receipts → Receipt → Bytes → Option Receipt
  find_children no_receipts r id = none
  find_children (more c cs) r id =
      let found = find c id in
      let later = find_children cs r id in
      if bytes_equal (entry_of c).meta_txn_id id then some r else or_else found later
