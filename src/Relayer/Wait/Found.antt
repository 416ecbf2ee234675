-- ===== src/Relayer/Wait/Found.antt =====
-- When the search finds a transaction.
use go_sequence.Base.{
  ℕ, ◌+◌, ◌-◌, ◌≤◌, ◌<◌, ◌≡◌, ◌⊎◌, refl, sym, subst, List, [], ◌∷◌, none, some, Option-cases,
  Bool-cases, inl, inr, leb, leb→le, All, arith,
}
use go_sequence.Base.Bytes.{Bytes}
use go_sequence.Base.Result.{Result, ok, err, panic, out_of_fuel, Returns, value, error, Returns-ok}
use go_sequence.Digest.{Hash}
use go_sequence.Receipt.{Status}
use go_sequence.Relayer.Wait.{
  Round, clamp, first_block, search, wait_searched, wait_on, wait_loop, legacy_wait_for_meta_txn,
}
use go_sequence.Relayer.Wait.Shown.{
  Among, HasReceipt, Shows, Searches, AnySearches, Finds, leb-false, clamp-sub, first_block-set,
  first_block-unset, search-Among,
}

module _ (sig : Hash) (id : Bytes) (block : ℕ) (hash : Hash) where
  abbrev GoesOn : (later : ℕ → Result Status) → Type 0
  GoesOn later = (f : ℕ) → 0 < f → f ≤ block → Finds (later f)

  wait_searched-none :
      (round : Round) (from_block latest : ℕ) (later : ℕ → Result Status) (hashes : List Hash)
      → search sig id round hashes ≡ none
      → wait_searched sig id round from_block latest later (ok hashes) ≡ later (clamp 12 latest)
  unfolding wait_searched
  wait_searched-none round from_block latest later hashes e = rw (e, wait_searched) refl

  wait_searched-some :
      (round : Round) (from_block latest : ℕ) (later : ℕ → Result Status) (hashes : List Hash)
      {s : Status}
      → search sig id round hashes ≡ some s
      → wait_searched sig id round from_block latest later (ok hashes) ≡ ok s
  unfolding wait_searched
  wait_searched-some round from_block latest later hashes e = rw (e, wait_searched) refl

  not_yet-Finds :
      (round : Round) (from_block latest : ℕ) (later : ℕ → Result Status) (hashes : List Hash)
      → 12 < latest
      → latest ≤ block + 12
      → GoesOn later
      → Finds (wait_searched sig id round from_block latest later (ok hashes))
  not_yet-Finds round from_block latest later hashes long above go =
      elim (Option-cases (search sig id round hashes)) [
        | inl e ↦ subst Finds (sym (wait_searched-none round from_block latest later hashes e)) (
            go (clamp 12 latest) (omega (arith, clamp-sub latest long))
              (omega (arith, clamp-sub latest long)))
        | inr (s, e) ↦ (s, wait_searched-some round from_block latest later hashes e)
      ]

  searched-Finds :
      (round : Round) (from_block latest : ℕ) (later : ℕ → Result Status) (hashes : List Hash)
      → Shows sig id block hash round
      → HasReceipt sig id hash round
      → Among hash hashes
      → Finds (wait_searched sig id round from_block latest later (ok hashes))
  searched-Finds round from_block latest later hashes shows has among =
      let (s, e) = search-Among sig id hash round hashes shows.receipts has among in
      (s, wait_searched-some round from_block latest later hashes e)

  abbrev IsNear : Round → ℕ → Type 0
  IsNear round latest = (latest ≤ block + 12) ⊎ HasReceipt sig id hash round

  -- The round finds it, or goes on with a cursor that is not above the block.
  answered-Finds :
      (round : Round) (from_block latest : ℕ) (later : ℕ → Result Status) (hashes : List Hash)
      → Shows sig id block hash round
      → 12 < latest
      → IsNear round latest
      → (block ≤ latest → Among hash hashes)
      → GoesOn later
      → Finds (wait_searched sig id round from_block latest later (ok hashes))
  answered-Finds round from_block latest later hashes shows long (inl near) among go =
      not_yet-Finds round from_block latest later hashes long near go
  answered-Finds round from_block latest later hashes shows long (inr has) among go =
      elim (Bool-cases (leb block latest)) [
        | inl y ↦
            searched-Finds round from_block latest later hashes shows has
              (among (leb→le block latest y))
        | inr n ↦
            not_yet-Finds round from_block latest later hashes long
              (let above = leb-false block latest n in omega arith) go
      ]

  -- The same of a round that may fail, or that is known to find it.
  wait_searched-Finds :
      (round : Round) (from_block latest : ℕ) (later : ℕ → Result Status) (r : Result (List Hash))
      → Shows sig id block hash round
      → 0 < from_block
      → from_block ≤ block
      → (12 < latest) × IsNear round latest
      → Returns (λ hashes. from_block ≤ block → block ≤ latest → Among hash hashes) r
      → ((block ≤ latest) × ((hs : List Hash) × (r ≡ ok hs)) × HasReceipt sig id hash round)
        ⊎ GoesOn later
      → Finds (wait_searched sig id round from_block latest later r)
  unfolding wait_searched
  wait_searched-Finds round from_block latest later panic shows lt le long h go = elim h [ ]
  wait_searched-Finds round from_block latest later out_of_fuel shows lt le long h go = elim h [ ]
  wait_searched-Finds round from_block latest later (err e) shows lt le long (error _)
        (inl (b, (hs, x), has)) =
      cc
  wait_searched-Finds round from_block latest later (err e) shows lt le long (error _) (inr go) =
      go from_block lt le
  wait_searched-Finds round from_block latest later (ok hashes) shows lt le long (value among)
        (inl (b, found, has)) =
      searched-Finds round from_block latest later hashes shows has (among le b)
  wait_searched-Finds round from_block latest later (ok hashes) shows lt le (long, near)
        (value among) (inr go) =
      answered-Finds round from_block latest later hashes shows long near (among le) go

  -- The same of a round whose latest block the node knows, with the cursor with which it searches.
  known-Finds :
      (round : Round) (from_block latest : ℕ) (later : ℕ → Result Status)
      → Shows sig id block hash round
      → (12 < latest) × IsNear round latest
      → (0 < first_block from_block latest) × (first_block from_block latest ≤ block)
      → round.block_number ≡ ok latest
      → Searches sig id block hash round ⊎ GoesOn later
      → Finds (wait_on sig id round from_block later (ok latest))
  unfolding wait_on
  known-Finds round from_block latest later shows long (lt, le) same (inr go) =
      wait_searched-Finds round (first_block from_block latest) latest later _ shows lt le long
        (shows.filters (first_block from_block latest) latest) (inr go)
  known-Finds round from_block latest later shows long (lt, le) same (inl s) =
      let agree : s.latest ≡ latest = let x = s.answers in cc in
      let from_block' = first_block from_block latest in
      wait_searched-Finds round from_block' latest later _ shows lt le long
        (shows.filters from_block' latest)
        (inl (
          subst (λ n. block ≤ n) agree s.below,
          (
            s.hashes from_block',
            subst (λ n. round.filter_logs from_block' n ≡ ok (s.hashes from_block')) agree
                (s.filtered from_block'),
          ),
          s.has,
        ))

  wait_on-Finds :
      (round : Round) (from_block : ℕ) (later : ℕ → Result Status) (bn : Result ℕ)
      → Shows sig id block hash round
      → 0 < from_block
      → from_block ≤ block
      → Returns (λ latest. (12 < latest) × IsNear round latest) bn
      → round.block_number ≡ bn
      → Searches sig id block hash round ⊎ GoesOn later
      → Finds (wait_on sig id round from_block later bn)
  unfolding wait_on
  wait_on-Finds round from_block later panic shows lt le h same go = elim h [ ]
  wait_on-Finds round from_block later out_of_fuel shows lt le h same go = elim h [ ]
  wait_on-Finds round from_block later (err e) shows lt le h same (inl s) = let x = s.answers in cc
  wait_on-Finds round from_block later (err e) shows lt le h same (inr go) = go from_block lt le
  wait_on-Finds round from_block later (ok latest) shows lt le (value long) same go =
      known-Finds round from_block latest later shows long
        (rw (first_block-set from_block latest lt) (lt, le)) same go

  wait_loop-Finds :
      (rounds : List Round) (from_block : ℕ)
      → 0 < from_block
      → from_block ≤ block
      → All (Shows sig id block hash) rounds
      → AnySearches sig id block hash rounds
      → Finds (wait_loop sig id rounds from_block)
  unfolding wait_loop
  wait_loop-Finds [] from_block lt le shows any' = absurd any'
  wait_loop-Finds (round ∷ rounds) from_block lt le shows any' =
      wait_on-Finds round from_block (wait_loop sig id rounds) round.block_number shows.0 lt le
        shows.0.blocks refl
        (elim any' [
          | inl s ↦ inl s
          | inr more ↦ inr (λ f lt le. wait_loop-Finds rounds f lt le shows.1 more)
        ])

-- The native transaction with the meta transaction stands in a block. Let the node answer in the first
-- round, on a chain with more than 200 blocks, where the block is not further below the latest one than
-- that. In the rounds where the latest block is more than 12 above the block, let the node return the
-- transaction's receipt; all other calls may fail with an error that is not that of the deadline. As
-- soon as the node answers a round in which the block is not above the latest one, the receipt included,
-- the search has found a status: the cursor has not passed the block as the chain grew.
pub legacy_wait_for_meta_txn-Finds :
    (sig : Hash) (id : Bytes) (block : ℕ) (hash : Hash) (first : Round) (rounds : List Round)
    (latest : ℕ)
    → All (Shows sig id block hash) (first ∷ rounds)
    → first.block_number ≡ ok latest
    → 200 < latest
    → latest - 200 ≤ block
    → AnySearches sig id block hash (first ∷ rounds)
    → (status : Status) × (legacy_wait_for_meta_txn sig id (first ∷ rounds) ≡ ok status)
unfolding legacy_wait_for_meta_txn wait_loop
legacy_wait_for_meta_txn-Finds sig id block hash first rounds latest shows answers long near any' =
    subst (λ bn. Finds (wait_on sig id first 0 (wait_loop sig id rounds) bn)) (sym answers)
      (known-Finds sig id block hash first 0 latest (wait_loop sig id rounds) shows.0
        (Returns-ok shows.0.blocks answers) (rw (first_block-unset latest long) (omega arith, near))
        answers
        (elim any' [
          | inl s ↦ inl s
          | inr more ↦
              inr (λ f lt le. wait_loop-Finds sig id block hash rounds f lt le shows.1 more)
        ]))
