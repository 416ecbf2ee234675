-- ===== src/Listener/Waiting/Delivered.antt =====
-- No receipt that was pushed is missed.
use go_sequence.Base.{
  ◌-◌, ◌≤◌, ◌≡◌, refl, sym, ◌∙◌, subst, List, [], ◌∷◌, ◌++◌, Option, none, some, Bool, true, false,
  ◌||◌, Bool-cases, Option-cases, inl, inr, length, length-append, arith,
}
use go_sequence.Base.Bytes.{Bytes, bytes_equal}
use go_sequence.Transaction.{is_some}
use go_sequence.Listener.{ReceiptResult, BlockOfReceipts, find_in_block, find_past}
use go_sequence.Listener.Past.{newest, push_receipts-newest}
use go_sequence.Listener.Waiting.{
  Waiter, outside, subscribed, listening, found, unsubscribed, time_out, unsubscribe, System,
  deliver, look, receive, Step, push, broadcast, subscribe, look_back, read, Reach, start, later,
}

-- A block of receipts, or one of the blocks, has a receipt with the id.
abbrev pub holds : Bytes → BlockOfReceipts → Bool
holds id receipts = is_some (find_in_block receipts id none)

abbrev pub any_holds : Bytes → List BlockOfReceipts → Bool
any_holds id blocks = is_some (find_past blocks id)

module _ (id : Bytes) where
  is_some-find_in_block :
      (receipts : BlockOfReceipts) (o : Option ReceiptResult)
      → is_some (find_in_block receipts id o) ≡ (holds id receipts || is_some o)
  unfolding find_in_block
  is_some-find_in_block [] o = refl
  is_some-find_in_block (r ∷ receipts) o = elim (Bool-cases (bytes_equal r.meta_txn_id id)) [
    | inl y ↦ rw y refl
    | inr n ↦ rw n (is_some-find_in_block receipts o)
  ]

  holds-append : (xs ys : BlockOfReceipts) → holds id (xs ++ ys) ≡ (holds id xs || holds id ys)
  unfolding find_in_block
  holds-append [] ys = refl
  holds-append (r ∷ xs) ys = elim (Bool-cases (bytes_equal r.meta_txn_id id)) [
    | inl y ↦ rw y refl
    | inr n ↦ rw n (holds-append xs ys)
  ]

  or_assoc : (a b c : Bool) → ((a || b) || c) ≡ (a || (b || c))
  or_assoc true b c = refl
  or_assoc false b c = refl

  any_holds-append :
      (xs ys : List BlockOfReceipts)
      → any_holds id (xs ++ ys) ≡ (any_holds id xs || any_holds id ys)
  unfolding find_past
  any_holds-append [] ys = refl
  any_holds-append (b ∷ xs) ys = rw (
    is_some-find_in_block b (find_past (xs ++ ys) id),
    is_some-find_in_block b (find_past xs id),
    any_holds-append xs ys,
    or_assoc (holds id b) (any_holds id xs) (any_holds id ys),
  )

  any_holds-cons :
      (b : BlockOfReceipts) (bs : List BlockOfReceipts)
      → any_holds id (b ∷ bs) ≡ (holds id b || any_holds id bs)
  unfolding find_past
  any_holds-cons b bs = is_some-find_in_block b (find_past bs id)

  find_in_block-bytes_equal :
      (receipts : BlockOfReceipts) (o : Option ReceiptResult) {r : ReceiptResult}
      → ((r : ReceiptResult) → o ≡ some r → bytes_equal r.meta_txn_id id ≡ true)
      → find_in_block receipts id o ≡ some r
      → bytes_equal r.meta_txn_id id ≡ true
  unfolding find_in_block
  find_in_block-bytes_equal [] o h e = h _ e
  find_in_block-bytes_equal (q ∷ receipts) o {r} h e =
      elim (Bool-cases (bytes_equal q.meta_txn_id id)) [
        | inl y ↦
            let first : some q ≡ some r = rw y at e in
            let same : q ≡ r = cc in subst (λ r. bytes_equal r.meta_txn_id id ≡ true) same y
        | inr n ↦ find_in_block-bytes_equal receipts o h (rw n at e)
      ]

  find_past-bytes_equal :
      (blocks : List BlockOfReceipts) (r : ReceiptResult)
      → find_past blocks id ≡ some r
      → bytes_equal r.meta_txn_id id ≡ true
  unfolding find_past
  find_past-bytes_equal [] r e = cc
  find_past-bytes_equal (b ∷ blocks) r e =
      find_in_block-bytes_equal b (find_past blocks id) (find_past-bytes_equal blocks) e

  -- What is known where the waiter is: when nothing has been forgotten, a receipt with the id that was
  -- pushed is in a block that is still to be broadcast, or the subscription has received it.
  abbrev Covers : List BlockOfReceipts → List BlockOfReceipts → Waiter → Type 0
  Covers pushed pending outside = Unit
  Covers pushed pending (subscribed inbox) = Unit
  Covers pushed pending (listening inbox) =
      length pushed ≤ 4096
      → any_holds id pushed ≡ true
      → (any_holds id pending || holds id inbox) ≡ true
  Covers pushed pending (found r) = bytes_equal r.meta_txn_id id ≡ true
  Covers pushed pending (unsubscribed r) = Unit

  or_last :
      (p q a b : Bool) → (p ≡ true → (q || a) ≡ true) → (p || b) ≡ true → ((q || b) || a) ≡ true
  or_last true true a b h e = refl
  or_last true false a true h e = refl
  or_last true false a false h e = h refl
  or_last false true a b h e = refl
  or_last false false a true h e = refl
  or_last false false a false h e = cc

  Covers-push :
      (pushed pending : List BlockOfReceipts) (b : BlockOfReceipts) (w : Waiter)
      → Covers pushed pending w
      → Covers (pushed ++ (b ∷ [])) (pending ++ (b ∷ [])) w
  Covers-push pushed pending b outside h = tt
  Covers-push pushed pending b (subscribed inbox) h = tt
  Covers-push pushed pending b (found r) h = h
  Covers-push pushed pending b (unsubscribed r) h = tt
  Covers-push pushed pending b (listening inbox) h = λ short e.
      let fits : length pushed ≤ 4096 = omega (arith, length-append pushed (b ∷ []), short) in
      rw (any_holds-append pending (b ∷ [])) (
        or_last (any_holds id pushed) (any_holds id pending) (holds id inbox)
          (any_holds id (b ∷ [])) (h fits) (rw (any_holds-append pushed (b ∷ [])) at e))

  or_move : (x y b a : Bool) → ((x || (b || y)) || a) ≡ ((x || y) || (a || b))
  or_move true y b a = refl
  or_move false true true a = refl
  or_move false true false a = refl
  or_move false false true true = refl
  or_move false false true false = refl
  or_move false false false true = refl
  or_move false false false false = refl

  Covers-deliver :
      (pushed before after' : List BlockOfReceipts) (b : BlockOfReceipts) (w : Waiter)
      → Covers pushed (before ++ (b ∷ after')) w
      → Covers pushed (before ++ after') (deliver b w)
  unfolding deliver
  Covers-deliver pushed before after' b outside h = tt
  Covers-deliver pushed before after' b (subscribed inbox) h = tt
  Covers-deliver pushed before after' b (found r) h = h
  Covers-deliver pushed before after' b (unsubscribed r) h = tt
  Covers-deliver pushed before after' b (listening inbox) h = λ short e.
      rw (any_holds-append before after', holds-append inbox b)
        (sym (or_move (any_holds id before) (any_holds id after') (holds id b) (holds id inbox))
          ∙ rw (any_holds-append before (b ∷ after'), any_holds-cons b after') at (h short e))

  look-none :
      (past : List BlockOfReceipts) (inbox : List ReceiptResult)
      → find_past past id ≡ none
      → look past id inbox ≡ listening inbox
  unfolding look
  look-none past inbox e = rw (e, look) refl

  look-some :
      (past : List BlockOfReceipts) (inbox : List ReceiptResult) (r : ReceiptResult)
      → find_past past id ≡ some r
      → look past id inbox ≡ found r
  unfolding look
  look-some past inbox r e = rw (e, look) refl

  Covers-look :
      (pushed pending past : List BlockOfReceipts) (inbox : List ReceiptResult)
      → past ≡ newest pushed
      → Covers pushed pending (look past id inbox)
  Covers-look pushed pending past inbox same = elim (Option-cases (find_past past id)) [
    | inl e ↦ subst (Covers pushed pending) (sym (look-none past inbox e)) (λ short h.
        let all : length pushed - 4096 ≡ 0 = omega (arith, short) in
        let kept : past ≡ pushed = rw all at same in
        let missing : find_past pushed id ≡ none = rw kept at e in
        let impossible : false ≡ true = rw missing at h in cc)
    | inr (r, e) ↦
        subst (Covers pushed pending) (sym (look-some past inbox r e))
          (find_past-bytes_equal past r e)
  ]

  Covers-receive :
      (pushed pending : List BlockOfReceipts) (r : ReceiptResult) (inbox : List ReceiptResult)
      → Covers pushed pending (listening (r ∷ inbox))
      → Covers pushed pending (receive id r inbox)
  unfolding receive find_in_block
  Covers-receive pushed pending r inbox h = elim (Bool-cases (bytes_equal r.meta_txn_id id)) [
    | inl y ↦ rw y y
    | inr n ↦ rw n (rw n at h)
  ]

  record IsInvariant (s : System) : Type 0 where
    kept : s.past ≡ newest s.pushed
    covers : Covers s.pushed s.pending s.waiter

  Step-IsInvariant : {s t : System} → Step id s t → IsInvariant s → IsInvariant t
  Step-IsInvariant (push s b) h = record {
    kept = rw h.kept (push_receipts-newest s.pushed b);
    covers = Covers-push s.pushed s.pending b s.waiter h.covers;
  }
  Step-IsInvariant (broadcast s before after' b e) h = record {
    kept = h.kept;
    covers = Covers-deliver s.pushed before after' b s.waiter (rw e at h.covers);
  }
  Step-IsInvariant (subscribe s e) h = record { kept = h.kept; covers = tt }
  Step-IsInvariant (look_back s inbox e) h = record {
    kept = h.kept;
    covers = Covers-look s.pushed s.pending s.past inbox h.kept;
  }
  Step-IsInvariant (read s r inbox e) h = record {
    kept = h.kept;
    covers =
        Covers-receive s.pushed s.pending r inbox (subst (Covers s.pushed s.pending) e h.covers);
  }
  Step-IsInvariant (time_out s inbox e) h = record { kept = h.kept; covers = tt }
  Step-IsInvariant (unsubscribe s r e) h = record { kept = h.kept; covers = tt }

  Reach-IsInvariant : {s : System} → Reach id s → IsInvariant s
  Reach-IsInvariant start = record { kept = refl; covers = tt }
  Reach-IsInvariant (later r st) = Step-IsInvariant st (Reach-IsInvariant r)

-- However the waiter and the goroutines interleave, a waiter that listens misses nothing: as long as no
-- block has been forgotten, a receipt with the id that was pushed is in what the subscription has
-- received, or in a block whose broadcast is still to come.
pub Reach-listening :
    (id : Bytes) (s : System) (inbox : List ReceiptResult)
    → Reach id s
    → s.waiter ≡ listening inbox
    → length s.pushed ≤ 4096
    → any_holds id s.pushed ≡ true
    → (any_holds id s.pending || holds id inbox) ≡ true
Reach-listening id s inbox r e =
    subst (Covers id s.pushed s.pending) e (Reach-IsInvariant id r).covers
