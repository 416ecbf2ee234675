-- ===== src/Receipt/Find/Within.antt =====
-- What `Find` returns, and when.
use go_sequence.Base.{
  ◌≡◌, ◌≢◌, ◌⊎◌, refl, sym, subst, Option, none, some, Option-cases, inl, inr, Bool, true, false,
  not, ◌&&◌, ◌||◌, Bool-cases,
}
use go_sequence.Base.Bytes.{Bytes, bytes_equal}
use go_sequence.Receipt.{
  Entry, Receipt, receipt, Receipts, no_receipts, more, entry_of, receipts_of,
}
use go_sequence.Receipt.Find.{or_else, find, find_children}
use go_sequence.Transaction.{is_some}

-- One of the receipts has the id, at any depth.
unfoldable mutual
  pub occurs : Receipts → Bytes → Bool
  occurs no_receipts id = false
  occurs (more r rs) id = occurs_in r id || occurs rs id

  pub occurs_in : Receipt → Bytes → Bool
  occurs_in (receipt e rs) id = bytes_equal e.meta_txn_id id || occurs rs id

-- One of the receipts has the id, at the top.
unfoldable pub is_child : Receipts → Bytes → Bool
is_child no_receipts id = false
is_child (more r rs) id = bytes_equal (entry_of r).meta_txn_id id || is_child rs id

-- The first receipt is the second, or stands below it.
mutual
  pub data IsWithin : Receipt → Receipt → Type 0 where
    here : {r : Receipt} → IsWithin r r
    below : {p : Receipt} {e : Entry} {rs : Receipts} → IsAmong p rs → IsWithin p (receipt e rs)

  pub data IsAmong : Receipt → Receipts → Type 0 where
    first : {p r : Receipt} {rs : Receipts} → IsWithin p r → IsAmong p (more r rs)
    later : {p r : Receipt} {rs : Receipts} → IsAmong p rs → IsAmong p (more r rs)

or_else-is_some : (o rest : Option Receipt) → is_some (or_else o rest) ≡ (is_some o || is_some rest)
or_else-is_some none rest = refl
or_else-is_some (some p) rest = refl

occurs_in-occurs :
    (r : Receipt) (id : Bytes)
    → occurs_in r id ≡ (bytes_equal (entry_of r).meta_txn_id id || occurs (receipts_of r) id)
unfolding occurs
occurs_in-occurs (receipt e rs) id = refl

none_ne_some : {p : Receipt} → none ≢ some p
none_ne_some = cc

some-inj : {p r : Receipt} → some r ≡ some p → p ≡ r
some-inj h = cc

mutual
  unfolding find find_children occurs occurs_in

  is_some-find :
      (r : Receipt) (id : Bytes)
      → is_some (find r id)
        ≡ (not (bytes_equal (entry_of r).meta_txn_id id) && occurs (receipts_of r) id)
  is_some-find (receipt e rs) id = elim (Bool-cases (bytes_equal e.meta_txn_id id)) [
    | inl h ↦ rw h
    | inr h ↦ rw h (is_some-find_children rs (receipt e rs) id)
  ]

  is_some-find_children :
      (rs : Receipts) (r : Receipt) (id : Bytes) → is_some (find_children rs r id) ≡ occurs rs id
  is_some-find_children no_receipts r id = refl
  is_some-find_children (more c rs) r id =
      let others = is_some-find_children rs r id in
      elim (Bool-cases (bytes_equal (entry_of c).meta_txn_id id)) [
        | inl h ↦ rw (occurs_in-occurs c id, h)
        | inr h ↦ rw (occurs_in-occurs c id, h, or_else-is_some, is_some-find c id, h, others)
      ]

-- `Find` returns a receipt exactly when the receipt does not have the id itself and one below it has.
pub find_iff :
    (r : Receipt) (id : Bytes)
    → is_some (find r id)
      ≡ (not (bytes_equal (entry_of r).meta_txn_id id) && occurs (receipts_of r) id)
find_iff = is_some-find

mutual
  unfolding find find_children is_child

  find-IsWithin :
      (r : Receipt) (id : Bytes) {p : Receipt}
      → find r id ≡ some p
      → IsWithin p r × (is_child (receipts_of p) id ≡ true)
  find-IsWithin (receipt e rs) id {p} h = elim (Bool-cases (bytes_equal e.meta_txn_id id)) [
    | inl same ↦ absurd (none_ne_some (rw same at h))
    | inr other ↦ elim (find_children-IsAmong rs (receipt e rs) id (rw other at h)) [
      | inl (at_top, child) ↦
          subst (λ p. IsWithin p (receipt e rs) × (is_child (receipts_of p) id ≡ true)) (sym at_top)
            (here, child)
      | inr (among, child) ↦ (below among, child)
    ]
  ]

  find_children-IsAmong :
      (rs : Receipts) (r : Receipt) (id : Bytes) {p : Receipt}
      → find_children rs r id ≡ some p
      → ((p ≡ r) × (is_child rs id ≡ true)) ⊎ (IsAmong p rs × (is_child (receipts_of p) id ≡ true))
  find_children-IsAmong no_receipts r id h = cc
  find_children-IsAmong (more c cs) r id {p} h =
      elim (Bool-cases (bytes_equal (entry_of c).meta_txn_id id)) [
        | inl same ↦ inl (some-inj (rw same at h), rw same)
        | inr other ↦ elim (Option-cases (find c id)) [
          | inl missed ↦ elim (find_children-IsAmong cs r id (rw (other, missed) at h)) [
            | inl (at_top, child) ↦ inl (at_top, rw other child)
            | inr (among, child) ↦ inr (later among, child)
          ]
          | inr (q, found) ↦
              let (within, child) = find-IsWithin c id found in
              let answer : q ≡ p = some-inj (sym (rw (other, found) at h)) in
              subst
                (λ p.
                  ((p ≡ r) × (is_child (more c cs) id ≡ true))
                  ⊎ (IsAmong p (more c cs) × (is_child (receipts_of p) id ≡ true)))
                answer (inr (first within, child))
        ]
      ]
