-- ===== src/Signature/Knapsack.antt =====
-- `knapsack` of signature.go: the table, and the way back through it.
mod Table
pub mod Optimal
mod Examples
use go_sequence.Base.{
  ℕ, zero, suc, ◌+◌, ◌-◌, List, [], ◌∷◌, ◌&&◌, ltb, leb, ◌==◌, if◌then◌else◌, length, get_or,
  replicate,
}

-- `weights[i]` and `values[i]`: `Reduce`, the only caller, appends to both slices at once. Both are
-- non-negative, and their sums stay below the 63 bits of an int.
pub record Item : Type 0 where
  pub weight : ℕ
  pub value : ℕ

abbrev pub Row : Type 0
Row = List ℕ

abbrev pub no_item : Item
no_item = record { weight = 0; value = 0 }

-- The new `m[i+1][j]`, given row i of the table. Every index is in range: `j` is at most the capacity,
-- and each row has a cell for each capacity.
pub cell : Item → Row → ℕ → ℕ
cell item row j =
    let without = get_or row j 0 in
    let with_item = get_or row (j - item.weight) 0 + item.value in
    if leb item.weight j && ltb without with_item then with_item else without

-- The loop over `j`: `rounds` rounds, the first at `j`.
pub fill_row : Item → Row → (rounds j : ℕ) → Row
fill_row item row zero j = []
fill_row item row (suc rounds) j = cell item row j ∷ fill_row item row rounds (suc j)

-- The loop over the items, on the rows from `row` on.
pub fill_table : ℕ → Row → List Item → List Row
fill_table capacity row [] = row ∷ []
fill_table capacity row (item ∷ items) =
    row ∷ fill_table capacity (fill_row item row (capacity + 1) 0) items

-- `m[i][j]`
abbrev pub entry : List Row → ℕ → ℕ → ℕ
entry m i j = get_or (get_or m i []) j 0

-- The loop that goes back from the last item: the indices taken, with `i` items to go and `j` left of
-- the capacity.
pub trace : List Row → List Item → ℕ → ℕ → List ℕ
trace m items zero j = []
trace m items (suc i) j =
    let same = entry m (suc i) j == entry m i j in
    let rest = trace m items i (if same then j else j - (get_or items i no_item).weight) in
    if same then rest else i ∷ rest

-- The best value, and the indices of the items that reach it.
unfoldable pub knapsack : ℕ → List Item → ℕ × List ℕ
unfolding cell fill_row fill_table trace
knapsack capacity items =
    let m = fill_table capacity (replicate (capacity + 1) 0) items in
    (entry m (length items) capacity, trace m items (length items) capacity)
