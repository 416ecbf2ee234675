-- ===== src/Relayer/Wait/Shown.antt =====
-- What a node shows of a transaction, and the search of one round.
use go_sequence.Base.{
  ℕ, ◌+◌, ◌-◌, ◌≤◌, ◌<◌, ◌≡◌, ◌⊎◌, refl, List, [], ◌∷◌, some, Option-cases, false, inl, inr, leb,
  ==_ne, arith,
}
use go_sequence.Base.Bytes.{Bytes}
use go_sequence.Base.Result.{Result, ok, err, panic, out_of_fuel, Returns}
use go_sequence.Digest.{Hash}
use go_sequence.Receipt.{Status, Log}
use go_sequence.Relayer.Wait.{
  Round, clamp, first_block, is_deadline, find_status, status_in, search,
}

abbrev pub Among : Hash → List Hash → Type 0
Among hash [] = ⊥
Among hash (h ∷ hashes) = (h ≡ hash) ⊎ Among hash hashes

-- The call of the node does not fail because the deadline is exceeded.
abbrev pub IsTimely : Result (List Log) → Type 0
IsTimely (err e) = is_deadline e ≡ false
IsTimely _ = Unit

-- The node returns the receipt of the native transaction, whose logs give the meta transaction a
-- status.
pub record HasReceipt (sig : Hash) (id : Bytes) (hash : Hash) (round : Round) : Type 0 where
  pub logs : List Log
  pub receipt : round.transaction_receipt hash ≡ ok logs
  pub status : Status
  pub has_status : find_status sig id logs ≡ some status

-- A node that fails at most with errors, on a chain with more than 12 blocks, where the native
-- transaction `hash` stands in the block. When the latest block is more than 12 above that block, the
-- node returns the receipt.
pub record Shows (sig : Hash) (id : Bytes) (block : ℕ) (hash : Hash) (round : Round) : Type 0 where
  pub blocks :
      Returns
        (λ latest. (12 < latest) × ((latest ≤ block + 12) ⊎ HasReceipt sig id hash round))
        round.block_number
  pub filters :
      (from_block to_block : ℕ)
      → Returns
          (λ hashes. from_block ≤ block → block ≤ to_block → Among hash hashes)
          (round.filter_logs from_block to_block)
  pub receipts : (h : Hash) → IsTimely (round.transaction_receipt h)

-- The node answers, with the receipt too, and the block is not above the latest one.
pub record Searches (sig : Hash) (id : Bytes) (block : ℕ) (hash : Hash) (round : Round)
    : Type 0 where
  pub latest : ℕ
  pub answers : round.block_number ≡ ok latest
  pub below : block ≤ latest
  pub hashes : ℕ → List Hash
  pub filtered : (from_block : ℕ) → round.filter_logs from_block latest ≡ ok (hashes from_block)
  pub has : HasReceipt sig id hash round

abbrev pub AnySearches : Hash → Bytes → ℕ → Hash → List Round → Type 0
AnySearches sig id block hash [] = ⊥
AnySearches sig id block hash (round ∷ rounds) =
    Searches sig id block hash round ⊎ AnySearches sig id block hash rounds

abbrev pub Finds : Result Status → Type 0
Finds r = (status : Status) × (r ≡ ok status)

pub leb-false : (a b : ℕ) → leb a b ≡ false → b < a
leb-false a b e = ground arith

pub clamp-sub : (latest : ℕ) → 12 < latest → clamp 12 latest ≡ latest - 12
unfolding clamp
clamp-sub latest h = ground arith

pub first_block-set :
    (from_block latest : ℕ) → 0 < from_block → first_block from_block latest ≡ from_block
unfolding first_block
first_block-set from_block latest h = rw (==_ne from_block 0 (λ e. absurd (omega arith))) refl

pub first_block-unset : (latest : ℕ) → 200 < latest → first_block 0 latest ≡ latest - 200
unfolding first_block clamp
first_block-unset latest h = ground arith

module _ (sig : Hash) (id : Bytes) (hash : Hash) where
  status_in-rest :
      (r : Result (List Log)) (rest : Status)
      → IsTimely r
      → (s : Status) × (status_in sig id r (some rest) ≡ some s)
  unfolding status_in
  status_in-rest (ok logs) rest h = elim (Option-cases (find_status sig id logs)) [
    | inl e ↦ (rest, rw (e, status_in) refl)
    | inr (s, e) ↦ (s, rw (e, status_in) refl)
  ]
  status_in-rest (err e) rest h = (rest, rw h refl)
  status_in-rest panic rest h = (rest, refl)
  status_in-rest out_of_fuel rest h = (rest, refl)

  pub search-Among :
      (round : Round) (hashes : List Hash)
      → ((h : Hash) → IsTimely (round.transaction_receipt h))
      → HasReceipt sig id hash round
      → Among hash hashes
      → (s : Status) × (search sig id round hashes ≡ some s)
  unfolding search status_in
  search-Among round [] timely has among = absurd among
  search-Among round (h ∷ hashes) timely has (inl same) =
      (has.status, rw (same, has.receipt, status_in, has.has_status, status_in) refl)
  search-Among round (h ∷ hashes) timely has (inr later) =
      let (s, e) = search-Among round hashes timely has later in
      let (s', e') = status_in-rest (round.transaction_receipt h) s (timely h) in (s', rw e e')
