-- ===== src/Signature/Knapsack/Optimal.antt =====
-- `knapsack` picks a selection of the best value.
use native.Mathlib.Decide.{ℕ_discrete}
use go_sequence.Base.{
  ℕ, zero, suc, ◌+◌, ◌-◌, ◌≤◌, ◌<◌, ◌≡◌, refl, List, [], ◌∷◌, ◌==◌, Bool-cases, inl, inr, ◌⊎◌,
  length, get_or, arith,
}
use go_sequence.Signature.Knapsack.{Item, no_item, Row, entry, trace, knapsack}
use go_sequence.Signature.Knapsack.Table.{best, push, push-suc, entry-best}

-- Different items below `n`, by their indices, the last one first.
abbrev pub IsSelection : ℕ → List ℕ → Type 0
IsSelection n [] = Unit
IsSelection n (i ∷ is) = (i < n) × IsSelection i is

module _ (items : List Item) where
  abbrev pub item_at : ℕ → Item
  item_at i = get_or items i no_item

  abbrev pub total_weight : List ℕ → ℕ
  total_weight [] = 0
  total_weight (i ∷ is) = (item_at i).weight + total_weight is

  abbrev pub total_value : List ℕ → ℕ
  total_value [] = 0
  total_value (i ∷ is) = (item_at i).value + total_value is

  best_of : ℕ → ℕ → ℕ
  best_of i j = best (push i items []) j

  -- With one item more: leave it, or take it if it fits and gains.
  best_of-suc :
      (i j : ℕ)
      → i < length items
      → let with_item = best_of i (j - (item_at i).weight) + (item_at i).value in
        ((best_of (suc i) j ≡ best_of i j) × ((item_at i).weight ≤ j → with_item ≤ best_of i j))
        ⊎ ((best_of (suc i) j ≡ with_item) × ((item_at i).weight ≤ j) × (best_of i j < with_item))
  unfolding best_of best
  best_of-suc i j h = rw (push-suc i items [] h) (ground arith)

  -- No selection of the first `i` items that fits beats the best value.
  best_of_upper :
      (i j : ℕ) (is : List ℕ)
      → i ≤ length items
      → IsSelection i is
      → total_weight is ≤ j
      → total_value is ≤ best_of i j
  best_of_upper i j [] h s w = omega arith
  best_of_upper zero j (x ∷ xs) h s w = absurd (omega arith)
  best_of_upper (suc i) j (x ∷ xs) h s w = elim (ℕ_discrete x i) [
    | yes e ↦
        let room : (item_at i).weight + total_weight xs ≤ j = rw e at w in
        let below : IsSelection i xs = rw e at s.1 in
        rw e (
          ground (
            arith,
            best_of-suc i j,
            best_of_upper i (j - (item_at i).weight) xs (omega arith) below,
          ))
    | no ne ↦ ground (arith, best_of-suc i j, best_of_upper i j (x ∷ xs))
  ]

  IsSelection-mono : (i j : ℕ) (is : List ℕ) → i ≤ j → IsSelection i is → IsSelection j is
  IsSelection-mono i j [] h s = tt
  IsSelection-mono i j (x ∷ xs) h s = (omega arith, s.1)

  -- What the way back collects.
  record IsTraced (i j : ℕ) (is : List ℕ) : Type 0 where
    selection : IsSelection i is
    fits : total_weight is ≤ j
    value : total_value is ≡ best_of i j

  trace-IsTraced :
      (capacity : ℕ) (m : List Row) (i j : ℕ)
      → ((i' j' : ℕ) → i' ≤ length items → j' ≤ capacity → entry m i' j' ≡ best_of i' j')
      → i ≤ length items
      → j ≤ capacity
      → IsTraced i j (trace m items i j)
  unfolding trace
  trace-IsTraced capacity m zero j hm hi hj = record {
    selection = tt;
    fits = omega arith;
    value = unfold best_of best push in refl;
  }
  trace-IsTraced capacity m (suc i) j hm hi hj =
      elim (Bool-cases (entry m (suc i) j == entry m i j)) [
        | inl same ↦
            let r = trace-IsTraced capacity m i j hm (omega arith) hj in
            rw same (record {
              selection = IsSelection-mono i (suc i) _ (omega arith) r.selection;
              fits = r.fits;
              value = ground (arith, r.value, hm i j, hm (suc i) j);
            })
        | inr more ↦
            let r =
              trace-IsTraced capacity m i (j - (item_at i).weight) hm (omega arith) (omega arith) in
            rw more (record {
              selection = (omega arith, r.selection);
              fits = ground (arith, r.fits, hm i j, hm (suc i) j, best_of-suc i j);
              value = ground (arith, r.value, hm i j, hm (suc i) j, best_of-suc i j);
            })
      ]

  knapsack-IsTraced : (capacity : ℕ) → IsTraced (length items) capacity (knapsack capacity items).1
  unfolding knapsack
  knapsack-IsTraced capacity =
      trace-IsTraced capacity _ (length items) capacity
        (unfold best_of in entry-best capacity items) (omega arith) (omega arith)

  knapsack-best_of : (capacity : ℕ) → (knapsack capacity items).0 ≡ best_of (length items) capacity
  unfolding knapsack best_of
  knapsack-best_of capacity =
      entry-best capacity items (length items) capacity (omega arith) (omega arith)

  -- The indices that `knapsack` returns are those of different items, in falling order, whose weights
  -- add up to at most the capacity and whose values add up to the value it returns.
  pub knapsack_sound :
      (capacity : ℕ)
      → let (value, is) = knapsack capacity items in
        IsSelection (length items) is × (total_weight is ≤ capacity) × (total_value is ≡ value)
  knapsack_sound capacity =
      let r = knapsack-IsTraced capacity in
      (r.selection, r.fits, omega (arith, r.value, knapsack-best_of capacity))

  -- No selection of different items whose weights add up to at most the capacity has a greater value
  -- than the one that `knapsack` returns.
  pub knapsack_optimal :
      (capacity : ℕ) (is : List ℕ)
      → IsSelection (length items) is
      → total_weight is ≤ capacity
      → total_value is ≤ (knapsack capacity items).0
  knapsack_optimal capacity is s w =
      omega (
        arith,
        knapsack-best_of capacity,
        best_of_upper (length items) capacity is (omega arith) s w,
      )
