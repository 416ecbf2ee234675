-- ===== src/Relayer/Wait.antt =====
-- `LegacyWaitForMetaTxn` of relayer.go: the search for a meta transaction in the logs of a chain, round
-- by round, until the context is done.
pub mod Shown
pub mod Found
mod Examples
use go_sequence.Base.{
  ℕ, ◌-◌, List, [], ◌∷◌, Option, none, some, Bool, true, false, leb, ◌==◌, ◌&&◌, if◌then◌else◌,
  length, take,
}
use go_sequence.Base.Bytes.{Bytes, bytes_equal}
use go_sequence.Base.Result.{
  Result, Error, ok, err, panic, out_of_fuel, wait_timeout, deadline_exceeded,
}
use go_sequence.Digest.{Hash}
use go_sequence.Receipt.{Status, Log, meta_txn_executed, meta_txn_failed, has_only_topic}

-- What the node answers in one round: the latest block, the native transactions with a NonceChange event
-- from one block to another, and the logs in the receipt of a transaction.
pub record Round : Type 0 where
  pub block_number : Result ℕ
  pub filter_logs : (from_block to_block : ℕ) → Result (List Hash)
  pub transaction_receipt : Hash → Result (List Log)

-- `del` blocks before the latest, or the latest itself when there are no more than that.
unfoldable pub clamp : (del latest_block : ℕ) → ℕ
clamp del latest_block = if leb del latest_block then latest_block - del else latest_block

-- The first block to search: a cursor of 0 is one that is not set.
unfoldable pub first_block : (from_block latest_block : ℕ) → ℕ
first_block from_block latest_block = if from_block == 0 then clamp 200 latest_block else from_block

-- `bytes.HasPrefix`
unfoldable pub has_prefix : Bytes → Bytes → Bool
has_prefix s prefix = leb (length prefix) (length s) && bytes_equal (take (length prefix) s) prefix

-- `errors.Is(err, context.DeadlineExceeded)`
abbrev pub is_deadline : Error → Bool
is_deadline deadline_exceeded = true
is_deadline _ = false

module _ (tx_failed_sig : Hash) (meta_tx_id : Bytes) where
  -- The status that one log gives the meta transaction.
  unfoldable pub status_of : Log → Option Status
  status_of log =
      if length log.topics == 0 && bytes_equal log.log_data meta_tx_id
      then some meta_txn_executed
      else if has_only_topic log.topics tx_failed_sig && has_prefix log.log_data meta_tx_id
      then some meta_txn_failed
      else none

  -- The loop over the logs of a receipt.
  unfoldable pub find_status : List Log → Option Status
  find_status [] = none
  find_status (log ∷ logs) = elim (status_of log) [
    | some status ↦ some status
    | none ↦ find_status logs
  ]

  -- What the receipt of a transaction gives, with what those behind it give: a receipt that is not
  -- returned is passed over, unless the deadline is exceeded.
  unfoldable pub status_in : Result (List Log) → Option Status → Option Status
  status_in (ok logs) rest = elim (find_status logs) [ some status ↦ some status | none ↦ rest ]
  status_in (err e) rest = if is_deadline e then none else rest
  status_in _ rest = rest

  -- The loop over the transactions.
  unfoldable pub search : Round → List Hash → Option Status
  search round [] = none
  search round (hash ∷ hashes) = status_in (round.transaction_receipt hash) (search round hashes)

  -- What follows `FilterLogs`, with what the later rounds do from a cursor on.
  unfoldable pub wait_searched :
      Round
      → (from_block latest_block : ℕ) → (later : ℕ → Result Status) → Result (List Hash)
      → Result Status
  wait_searched round from_block latest_block later (ok hashes) = elim (search round hashes) [
    | some status ↦ ok status
    | none ↦ later (clamp 12 latest_block)
  ]
  wait_searched round from_block latest_block later (err e) = later from_block
  wait_searched round from_block latest_block later panic = panic
  wait_searched round from_block latest_block later out_of_fuel = out_of_fuel

  -- What follows `BlockNumber`.
  unfoldable pub wait_on : Round → ℕ → (later : ℕ → Result Status) → Result ℕ → Result Status
  wait_on round from_block later (ok latest_block) =
      let from_block = first_block from_block latest_block in
      wait_searched round from_block latest_block later (round.filter_logs from_block latest_block)
  wait_on round from_block later (err e) = later from_block
  wait_on round from_block later panic = panic
  wait_on round from_block later out_of_fuel = out_of_fuel

  -- The rounds until the context is done, with the cursor.
  unfoldable pub wait_loop : List Round → (from_block : ℕ) → Result Status
  wait_loop [] from_block = err wait_timeout
  wait_loop (round ∷ rounds) from_block =
      wait_on round from_block (wait_loop rounds) round.block_number

  -- `LegacyWaitForMetaTxn`
  unfoldable pub legacy_wait_for_meta_txn : List Round → Result Status
  legacy_wait_for_meta_txn rounds = wait_loop rounds 0
