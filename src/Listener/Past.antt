-- ===== src/Listener/Past.antt =====
-- The past receipts: how many are kept, and which.
use go_sequence.Base.{
  ℕ, zero, suc, ◌-◌, ◌≤◌, ◌≡◌, refl, List, [], ◌∷◌, ◌++◌, false, append-nil, Bool-cases, inl, inr,
  ltb, ltb→lt, length, drop, length-append, length-drop, append_assoc, arith,
}
use go_sequence.Listener.{BlockOfReceipts, past_receipts_buf_size, push_receipts}

-- All pushes, one after the other.
pub push_all : List BlockOfReceipts → List BlockOfReceipts → List BlockOfReceipts
push_all past [] = past
push_all past (b ∷ blocks) = push_all (push_receipts past b) blocks

ltb-false : (a b : ℕ) → ltb a b ≡ false → b ≤ a
ltb-false a b h = ground arith

drop-append_short :
    {A : Type 0} (n : ℕ) (xs ys : List A) → n ≤ length xs → drop n (xs ++ ys) ≡ drop n xs ++ ys
drop-append_short zero xs ys h = refl
drop-append_short (suc n) [] ys h = absurd (omega arith)
drop-append_short (suc n) (x ∷ xs) ys h = drop-append_short n xs ys (omega arith)

drop-drop : {A : Type 0} (n : ℕ) (xs : List A) → drop 1 (drop n xs) ≡ drop (suc n) xs
drop-drop zero xs = refl
drop-drop (suc n) [] = refl
drop-drop (suc n) (x ∷ xs) = drop-drop n xs

-- The last blocks, as many as the buffer holds.
abbrev pub newest : List BlockOfReceipts → List BlockOfReceipts
newest blocks = drop (length blocks - past_receipts_buf_size) blocks

-- A drop and a block behind it.
step :
    (n : ℕ) (blocks : List BlockOfReceipts) (b : BlockOfReceipts)
    → n ≤ length blocks
    → drop n blocks ++ (b ∷ []) ≡ drop n (blocks ++ (b ∷ []))
step n blocks b h = rw (drop-append_short n blocks (b ∷ []) h)

pub push_receipts-newest :
    (blocks : List BlockOfReceipts) (b : BlockOfReceipts)
    → push_receipts (newest blocks) b ≡ newest (blocks ++ (b ∷ []))
unfolding push_receipts
push_receipts-newest blocks b =
    let kept : ℕ = length blocks - 4096 in
    let len = length-drop kept blocks in
    let grown = length-append blocks (b ∷ []) in
    elim (Bool-cases (ltb (length (newest blocks)) 4096)) [
      | inl e ↦
          let short = ltb→lt _ _ e in
          let same : length (blocks ++ (b ∷ [])) - 4096 ≡ kept = omega (arith, len, grown, short) in
          rw (e, same) (step kept blocks b (omega arith))
      | inr e ↦
          let long : 4096 ≤ length (newest blocks) = ltb-false _ _ e in
          let same : length (blocks ++ (b ∷ [])) - 4096 ≡ suc kept =
            omega (arith, len, grown, long) in
          rw (e, same, drop-drop kept blocks) (step (suc kept) blocks b (omega (arith, len, long)))
    ]

push_all_onto :
    (before blocks : List BlockOfReceipts)
    → push_all (newest before) blocks ≡ newest (before ++ blocks)
unfolding push_all
push_all_onto before [] = rw (append-nil before)
push_all_onto before (b ∷ blocks) = rw (
  push_receipts-newest before b,
  push_all_onto (before ++ (b ∷ [])) blocks,
  append_assoc before (b ∷ []) blocks,
)

-- The past receipts are always the newest 4096 blocks that were pushed, in the order of the pushes.
pub push_all-newest : (blocks : List BlockOfReceipts) → push_all [] blocks ≡ newest blocks
push_all-newest blocks = push_all_onto [] blocks
