-- ===== src/Relayer/Wait/Examples.antt =====
-- A chain that grows past the block of the transaction, with a node that fails in between.
use go_sequence.Base.{
  ℕ, ◌⊎◌, ◌+◌, ◌≤◌, ◌<◌, ◌≡◌, refl, List, [], ◌∷◌, some, Bool, true, leb, inl, inr, arith,
}
use go_sequence.Base.Bytes.{Bytes, bytes_equal}
use go_sequence.Base.Result.{Result, ok, err, external, wait_timeout, Returns, value}
use go_sequence.Digest.{Hash}
use go_sequence.Receipt.{Status, Log, meta_txn_executed}
use go_sequence.Relayer.Wait.{
  Round, clamp, first_block, status_of, find_status, wait_loop, wait_on, wait_searched, search,
  status_in, legacy_wait_for_meta_txn,
}
use go_sequence.Relayer.Wait.Shown.{Among, IsTimely, HasReceipt, Shows}
use go_sequence.Relayer.Wait.Found.{legacy_wait_for_meta_txn-Finds}

abbrev failed_sig : Hash
failed_sig = 4 ∷ []

abbrev the_id : Bytes
the_id = 7 ∷ []

abbrev executed : List Log
executed = record { topics = []; log_data = the_id } ∷ []

abbrev in_range : Bool → Bool → List Hash
in_range true true = (9 ∷ []) ∷ []
in_range _ _ = []

-- The transaction stands in block 250.
abbrev round_at : Result ℕ → Result (List Log) → Round
round_at latest logs = record {
  block_number = latest;
  filter_logs = λ from_block to_block. ok (in_range (leb from_block 250) (leb 250 to_block));
  transaction_receipt = λ hash. logs;
}

-- The transaction stands in block 100.
abbrev early : ℕ → Result (List Log) → Round
early latest logs = record {
  block_number = ok latest;
  filter_logs = λ from_block to_block. ok (in_range (leb from_block 100) (leb 100 to_block));
  transaction_receipt = λ hash. logs;
}

-- The latest block is 251, and the receipt cannot be fetched.
abbrev unfetched : Round
unfetched = round_at (ok 251) (err (external 0))

le-leb : (a b : ℕ) → a ≤ b → leb a b ≡ true
le-leb a b h = ground arith

in_range-Among :
    (from_block to_block : ℕ)
    → from_block ≤ 250
    → 250 ≤ to_block
    → Among (9 ∷ []) (in_range (leb from_block 250) (leb 250 to_block))
in_range-Among from_block to_block h h' =
    rw (le-leb from_block 250 h, le-leb 250 to_block h') (inl refl)

status : find_status failed_sig the_id executed ≡ some meta_txn_executed
unfolding find_status status_of bytes_equal
status = refl

has_receipt :
    (latest : ℕ) → HasReceipt failed_sig the_id (9 ∷ []) (round_at (ok latest) (ok executed))
has_receipt latest = record {
  logs = executed;
  receipt = refl;
  status = meta_txn_executed;
  has_status = status;
}

round_at-Shows :
    (latest : Result ℕ) (logs : Result (List Log))
    → IsTimely logs
    → Returns
        (λ n.
          (12 < n)
          × ((n ≤ 250 + 12) ⊎ HasReceipt failed_sig the_id (9 ∷ []) (round_at latest logs)))
        latest
    → Shows failed_sig the_id 250 (9 ∷ []) (round_at latest logs)
round_at-Shows latest logs timely h = record {
  blocks = h;
  filters = λ from_block to_block. value (in_range-Among from_block to_block);
  receipts = λ hash. timely;
}

legacy_wait_for_meta_txn-Finds_example :
    (status : Status) × (legacy_wait_for_meta_txn failed_sig the_id
        (round_at (ok 240) (ok executed) ∷ unfetched ∷ round_at (ok 300) (ok executed) ∷ [])
      ≡ ok status)
legacy_wait_for_meta_txn-Finds_example =
    legacy_wait_for_meta_txn-Finds failed_sig the_id 250 (9 ∷ []) (round_at (ok 240) (ok executed))
      (unfetched ∷ round_at (ok 300) (ok executed) ∷ []) 240
      (
        round_at-Shows (ok 240) (ok executed) tt (value (omega arith, inl (omega arith))),
        (
          round_at-Shows (ok 251) (err (external 0)) refl (value (omega arith, inl (omega arith))),
          (
            round_at-Shows (ok 300) (ok executed) tt (value (omega arith, inr (has_receipt 300))),
            tt,
          ),
        ),
      )
      refl (omega arith) (omega arith)
      (inr (
        inr (
          inl (record {
            latest = 300;
            answers = refl;
            below = omega arith;
            hashes = λ from_block. in_range (leb from_block 250) (leb 250 300);
            filtered = λ from_block. refl;
            has = has_receipt 300;
          }))))

-- A transaction whose receipt cannot be fetched is passed over: when its block, here 100, is more than 12
-- below the latest one, here 240, the next round begins above it.
block_lost :
    legacy_wait_for_meta_txn failed_sig the_id
      (early 240 (err (external 0)) ∷ early 241 (ok executed) ∷ [])
    ≡ err wait_timeout
unfolding legacy_wait_for_meta_txn wait_loop wait_on wait_searched search status_in first_block
    clamp
block_lost = refl

-- On a chain of 12 blocks the cursor falls back to 0, which counts as not set, and the next round begins
-- at its latest block: what stands in block 13 is missed.
cursor_lost : first_block (clamp 12 12) 14 ≡ 14
unfolding first_block clamp
cursor_lost = refl
