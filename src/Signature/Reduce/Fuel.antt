-- ===== src/Signature/Reduce/Fuel.antt =====
-- The rounds that `Reduce` and `cost` are given.
use go_sequence.Base.{
  ℕ, zero, suc, ◌+◌, ◌-◌, ◌≤◌, ◌<◌, ◌≡◌, ◌≢◌, [], ◌∷◌, Option, none, some, ◌==◌, Bool-cases, inl,
  inr, length, length-take, take, arith,
}
use go_sequence.Base.Bytes.{Bytes}
use go_sequence.Base.Result.{
  Result, ok, err, panic, out_of_fuel, ◌>>=◌, Returns, value, error, Ends, Ends-bind,
  Ends-ne-out_of_fuel,
}
use go_sequence.Ethkit.{Ethkit, Address, HasEnds}
use go_sequence.Signature.{
  SignaturePart, SignatureParts, Signature, part_type_eoa, part_type_address, part_type_dynamic,
}
use go_sequence.Signature.Codec.{encode, decode_signature}
use go_sequence.Signature.Codec.Longest.{longest, decode_signature-longest, encode-Ends}
use go_sequence.Signature.Recover.{part_recover}
use go_sequence.Signature.Recover.Signed.{part_recover-Ends}
use go_sequence.Signature.Reduce.{
  rounds, nested_signature, eoa_candidate, cost_part, cost_loop, cost_on, cost, dynamic_candidate,
  candidate, candidates, reduce_on, reduce,
}

-- `f` comes to an end on every signature whose values are shorter than `n`.
abbrev EndsBelow {ℓ} : {A : Type ℓ} → (Signature → Result A) → ℕ → Type 0
EndsBelow f n = (s : Signature) → longest s.signers < n → Ends (f s)

decoded-Ends {ℓ} :
    {A : Type ℓ} (r : Result Signature) (f : Signature → Result A) (n m : ℕ)
    → EndsBelow f n
    → Returns (λ s. longest s.signers ≤ m) r
    → m < n
    → Ends (r >>= f)
decoded-Ends r f n m h (value {a} q) lt = h a (omega arith)
decoded-Ends r f n m h (error e) lt = tt

module _ (k : Ethkit) where
  -- The signature inside a part is shorter than the part's value.
  nested-Ends {ℓ} :
      {A : Type ℓ} (p : SignaturePart) (f : Signature → Result A) (n : ℕ)
      → EndsBelow f n
      → length p.value ≤ n
      → Ends (nested_signature k p >>= f)
  unfolding nested_signature
  nested-Ends p f n h fits = elim (Bool-cases (length p.value == 0)) [
    | inl y ↦ rw y tt
    | inr y ↦
        let short : length (take (length p.value - 1) p.value) ≡ length p.value - 1 =
          length-take (length p.value - 1) p.value (omega arith) in
        let positive : 0 < length p.value = ground arith in
        rw y (
          decoded-Ends (decode_signature k (take (length p.value - 1) p.value)) f n _ h
            (decode_signature-longest k (take (length p.value - 1) p.value))
            (omega (arith, short, positive, fits)))
  ]

  cost_part-Ends :
      (nested : Signature → Result ℕ) (n : ℕ) (p : SignaturePart)
      → EndsBelow nested n
      → length p.value ≤ n
      → Ends (cost_part k nested p)
  unfolding cost_part
  cost_part-Ends nested n p h fits = elim (Bool-cases (p.type == part_type_eoa)) [
    | inl y ↦ rw y tt
    | inr l ↦ elim (Bool-cases (p.type == part_type_address)) [
      | inl y ↦ rw (l, y) tt
      | inr m ↦ elim (Bool-cases (p.type == part_type_dynamic)) [
        | inl y ↦ rw (l, m, y) (nested-Ends p nested n h fits)
        | inr o ↦ rw (l, m, o) tt
      ]
    ]
  ]

  cost_loop-Ends :
      (nested : Signature → Result ℕ) (n : ℕ) (parts : SignatureParts) (c : ℕ)
      → EndsBelow nested n
      → longest parts ≤ n
      → Ends (cost_loop k nested parts c)
  unfolding cost_loop
  cost_loop-Ends nested n [] c h fits = tt
  cost_loop-Ends nested n (none ∷ parts) c h fits = tt
  cost_loop-Ends nested n (some p ∷ parts) c h fits =
      Ends-bind (cost_part k nested p) _ (cost_part-Ends nested n p h (omega arith))
        λ d e. cost_loop-Ends nested n parts (c + d) h (omega arith)

  cost_on-Ends : (fuel : ℕ) → EndsBelow (cost_on k fuel) fuel
  unfolding cost_on
  cost_on-Ends zero s h = absurd (omega arith)
  cost_on-Ends (suc fuel) s h =
      cost_loop-Ends (cost_on k fuel) fuel s.signers 0 (cost_on-Ends fuel) (omega arith)

  cost-Ends : (s : Signature) → Ends (cost k s)
  unfolding cost
  cost-Ends s = cost_on-Ends (rounds s) s (omega arith)

  module _ (msg : Bytes) (ends : HasEnds k) where
    eoa_candidate-Ends :
        (p : SignaturePart) (r : Result Address) → Ends r → Ends (eoa_candidate p r)
    unfolding eoa_candidate
    eoa_candidate-Ends p (ok a) h = tt
    eoa_candidate-Ends p (err e) h = tt
    eoa_candidate-Ends p panic h = tt
    eoa_candidate-Ends p out_of_fuel h = absurd h

    dynamic_candidate-Ends :
        (nested : Signature → Result Signature) (n : ℕ) (p : SignaturePart)
        → EndsBelow nested n
        → length p.value ≤ n
        → Ends (dynamic_candidate k msg nested p)
    unfolding dynamic_candidate
    dynamic_candidate-Ends nested n p h fits =
        nested-Ends p _ n
          (λ s q. Ends-bind (nested s) _ (h s q) λ reduced _.
            Ends-bind (cost k reduced) _ (cost-Ends reduced)
              λ c _. Ends-bind (encode k reduced) _ (encode-Ends k reduced ends) λ v _. tt)
          fits

    candidate-Ends :
        (nested : Signature → Result Signature) (n : ℕ) (p : Option SignaturePart)
        → EndsBelow nested n
        → longest (p ∷ []) ≤ n
        → Ends (candidate k msg nested p)
    unfolding candidate
    candidate-Ends nested n none h fits = tt
    candidate-Ends nested n (some p) h fits = elim (Bool-cases (p.type == part_type_eoa)) [
      | inl y ↦ rw y (eoa_candidate-Ends p (part_recover k p msg) (part_recover-Ends k p msg ends))
      | inr l ↦ elim (Bool-cases (p.type == part_type_address)) [
        | inl y ↦ rw (l, y) tt
        | inr m ↦ elim (Bool-cases (p.type == part_type_dynamic)) [
          | inl y ↦ rw (l, m, y) (dynamic_candidate-Ends nested n p h (omega arith))
          | inr o ↦ rw (l, m, o) tt
        ]
      ]
    ]

    candidates-Ends :
        (nested : Signature → Result Signature) (n : ℕ) (parts : SignatureParts)
        → EndsBelow nested n
        → longest parts ≤ n
        → Ends (candidates k msg nested parts)
    unfolding candidates
    candidates-Ends nested n [] h fits = tt
    candidates-Ends nested n (none ∷ parts) h fits =
        Ends-bind (candidate k msg nested none) _ (candidate-Ends nested n none h (omega arith))
          λ c _.
            Ends-bind (candidates k msg nested parts) _ (candidates-Ends nested n parts h fits)
              λ cs _. tt
    candidates-Ends nested n (some p ∷ parts) h fits =
        Ends-bind (candidate k msg nested (some p)) _
          (candidate-Ends nested n (some p) h (omega arith))
          λ c _.
            Ends-bind (candidates k msg nested parts) _
              (candidates-Ends nested n parts h (omega arith)) λ cs _. tt

    reduce_on-Ends : (fuel : ℕ) → EndsBelow (reduce_on k msg fuel) fuel
    unfolding reduce_on
    reduce_on-Ends zero s h = absurd (omega arith)
    reduce_on-Ends (suc fuel) s h =
        Ends-bind (candidates k msg (reduce_on k msg fuel) s.signers) _
          (candidates-Ends (reduce_on k msg fuel) fuel s.signers (reduce_on-Ends fuel)
            (omega arith))
          λ c _. tt

  -- When the calls of other libraries come to an end, so does `Reduce`: the rounds that it is given, one
  -- more than the longest value has bytes, are enough for signatures that are nested at any depth.
  pub reduce-Ends : (msg : Bytes) (s : Signature) → HasEnds k → reduce k msg s ≢ out_of_fuel
  unfolding reduce
  reduce-Ends msg s ends =
      Ends-ne-out_of_fuel (reduce_on k msg (rounds s) s)
        (reduce_on-Ends msg ends (rounds s) s (omega arith))
