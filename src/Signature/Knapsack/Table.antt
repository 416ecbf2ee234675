-- ===== src/Signature/Knapsack/Table.antt =====
-- The table of `knapsack` against a recursive definition of the best value.
use native.Mathlib.Nat.{add-zero, zero-add}
use go_sequence.Base.{
  ℕ, zero, suc, ◌+◌, ◌-◌, ◌≤◌, ◌<◌, ◌≡◌, refl, ap, ◌∙◌, List, [], ◌∷◌, ◌&&◌, ltb, leb,
  if◌then◌else◌, length, get_or, replicate, arith,
}
use go_sequence.Signature.Knapsack.{Item, Row, no_item, cell, fill_row, fill_table, entry}

-- The best value of the items (the last one first) within `j`.
unfoldable pub best : List Item → ℕ → ℕ
best [] j = 0
best (item ∷ items) j =
    let without = best items j in
    let with_item = best items (j - item.weight) + item.value in
    if leb item.weight j && ltb without with_item then with_item else without

-- The first `i` items, the last one first, on top of those that are done.
unfoldable pub push : ℕ → List Item → List Item → List Item
push zero items done = done
push (suc i) [] done = done
push (suc i) (item ∷ items) done = push i items (item ∷ done)

pub push-suc :
    (i : ℕ) (items done : List Item)
    → i < length items
    → push (suc i) items done ≡ get_or items i no_item ∷ push i items done
unfolding push
push-suc i [] done h = absurd (omega arith)
push-suc zero (item ∷ items) done h = refl
push-suc (suc i) (item ∷ items) done h = push-suc i items (item ∷ done) (omega arith)

-- A row that holds the best values up to the capacity.
abbrev Holds : ℕ → Row → List Item → Type 0
Holds capacity row done = (j : ℕ) → j ≤ capacity → get_or row j 0 ≡ best done j

get_or-fill_row :
    (item : Item) (row : Row) (rounds j i : ℕ)
    → i < rounds
    → get_or (fill_row item row rounds j) i 0 ≡ cell item row (j + i)
unfolding fill_row
get_or-fill_row item row zero j i h = absurd (omega arith)
get_or-fill_row item row (suc rounds) j zero h = rw add-zero
get_or-fill_row item row (suc rounds) j (suc i) h =
    get_or-fill_row item row rounds (suc j) i (omega arith) ∙ ap (cell item row) (omega arith)

fill_row-Holds :
    (capacity : ℕ) (item : Item) (row : Row) (done : List Item)
    → Holds capacity row done
    → Holds capacity (fill_row item row (capacity + 1) 0) (item ∷ done)
unfolding cell best
fill_row-Holds capacity item row done h j le =
    get_or-fill_row item row (capacity + 1) 0 j (omega arith)
    ∙ rw (zero-add, h j le, h (j - item.weight) (omega arith))

entry-fill_table :
    (capacity : ℕ) (row : Row) (items done : List Item) (i j : ℕ)
    → Holds capacity row done
    → i ≤ length items
    → j ≤ capacity
    → entry (fill_table capacity row items) i j ≡ best (push i items done) j
unfolding fill_table push
entry-fill_table capacity row [] done zero j h li lj = h j lj
entry-fill_table capacity row [] done (suc i) j h li lj = absurd (omega arith)
entry-fill_table capacity row (item ∷ items) done zero j h li lj = h j lj
entry-fill_table capacity row (item ∷ items) done (suc i) j h li lj =
    entry-fill_table capacity (fill_row item row (capacity + 1) 0) items (item ∷ done) i j
      (fill_row-Holds capacity item row done h) (omega arith) lj

get_or-replicate : (n j : ℕ) → get_or (replicate {A = ℕ} n 0) j 0 ≡ 0
get_or-replicate zero j = refl
get_or-replicate (suc n) zero = refl
get_or-replicate (suc n) (suc j) = get_or-replicate n j

-- Row i of the table holds the best values of the first i items.
pub entry-best :
    (capacity : ℕ) (items : List Item) (i j : ℕ)
    → i ≤ length items
    → j ≤ capacity
    → entry (fill_table capacity (replicate (capacity + 1) 0) items) i j ≡ best (push i items []) j
entry-best capacity items i j =
    entry-fill_table capacity _ items [] i j
      (unfold best in λ j' le. get_or-replicate (capacity + 1) j')
