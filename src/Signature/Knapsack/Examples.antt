-- ===== src/Signature/Knapsack/Examples.antt =====
-- `knapsack` at concrete weights.
use go_sequence.Base.{ℕ, ◌≤◌, ◌≡◌, refl, List, [], ◌∷◌, length, arith}
use go_sequence.Signature.Knapsack.{Item, knapsack, fill_table, fill_row, cell, trace}
use go_sequence.Signature.Knapsack.Optimal.{
  IsSelection, total_weight, total_value, knapsack_sound, knapsack_optimal,
}

abbrev signer : ℕ → Item
signer w = record { weight = w; value = 4040 }

-- The weights of the first case of TestSignatureReduction.
abbrev signers : List Item
signers = signer 1 ∷ signer 3 ∷ signer 1 ∷ signer 1 ∷ signer 1 ∷ signer 1 ∷ signer 3 ∷ signer 1 ∷ []

prune_seven : knapsack 7 signers ≡ (24240, 7 ∷ 5 ∷ 4 ∷ 3 ∷ 2 ∷ 0 ∷ [])
unfolding knapsack fill_table fill_row cell trace
prune_seven = refl

knapsack_sound_example :
    IsSelection (length signers) (knapsack 7 signers).1
    × (total_weight signers (knapsack 7 signers).1 ≤ 7)
    × (total_value signers (knapsack 7 signers).1 ≡ (knapsack 7 signers).0)
knapsack_sound_example = knapsack_sound signers 7

knapsack_optimal_example : total_value signers (6 ∷ 1 ∷ 0 ∷ []) ≤ (knapsack 7 signers).0
knapsack_optimal_example = knapsack_optimal signers 7 (6 ∷ 1 ∷ 0 ∷ []) (omega arith) (omega arith)
