-- ===== src/Signature/Reduce/Examples.antt =====
-- A signature with one part more than it needs.
use go_sequence.Base.{ℕ, ◌≤◌, ◌≡◌, ◌≢◌, refl, [], ◌∷◌, ◌++◌, some, replicate, arith}
use go_sequence.Base.Bytes.{Bytes, to_bytes, from_bytes}
use go_sequence.Base.Result.{ok, panic, out_of_fuel}
use go_sequence.Ethkit.StandIn.{stand_in, stand_in-HasEnds}
use go_sequence.Signature.{SignaturePart, Signature}
use go_sequence.Signature.Knapsack.{knapsack}
use go_sequence.Signature.Recover.{part_recover, address_of_key}
use go_sequence.Signature.Reduce.{
  candidate, candidates, add_candidate, eoa_candidate, prune, prune_at, prune_redundant, reduce_on,
  reduce, nested_signature, dynamic_candidate,
}
use go_sequence.Signature.Reduce.Weighted.{signing_weight, reduce-signing_weight}
use go_sequence.Signature.Reduce.Fuel.{reduce-Ends}

abbrev msg : Bytes
msg = replicate 32 5

abbrev signed : ℕ → SignaturePart
signed w = record {
  weight = w;
  address = 0;
  type = 0;
  value = replicate 44 0 ++ (to_bytes 20 0xab ++ (27 ∷ 2 ∷ []));
}

abbrev before : Signature
before = record { threshold = 1; signers = some (signed 1) ∷ some (signed 2) ∷ [] }

-- The part of weight 1 keeps its address only.
abbrev after : Signature
after = record {
  threshold = 1;
  signers =
      some (record { weight = 1; address = 0xab; type = 1; value = [] }) ∷ some (signed 2) ∷ [];
}

reduced : reduce stand_in msg before ≡ ok after
unfolding reduce reduce_on candidates candidate add_candidate eoa_candidate prune prune_at
    prune_redundant knapsack part_recover address_of_key to_bytes from_bytes
reduced = refl

reduce-signing_weight_example :
    (after.threshold ≡ before.threshold) × (1 ≤ signing_weight after.signers)
reduce-signing_weight_example =
    reduce-signing_weight stand_in msg before (omega arith, (omega arith, tt)) (omega arith) reduced

reduce-Ends_example : reduce stand_in msg before ≢ out_of_fuel
reduce-Ends_example = reduce-Ends stand_in msg before stand_in-HasEnds

-- A nested part without any value, which `DecodeSignature` reads off its bytes.
abbrev hollow : Signature
hollow = record {
  threshold = 1;
  signers = some (record { weight = 1; address = 0xab; type = 2; value = [] }) ∷ [];
}

hollow_panics : reduce stand_in msg hollow ≡ panic
unfolding reduce reduce_on candidates candidate dynamic_candidate nested_signature
hollow_panics = refl
