-- ===== src/Signature/Reduce/Weighted.antt =====
-- The weight of the parts that sign, before `Reduce` and after.
use go_sequence.Base.{
  ℕ, zero, suc, ◌+◌, ◌-◌, ◌^◌, ◌≤◌, ◌<◌, ◌≡◌, refl, List, [], ◌∷◌, map, Option, none, some, true,
  ltb, ◌==◌, if◌then◌else◌, Bool-cases, inl, inr, get_or, All, arith,
}
use go_sequence.Base.Bytes.{Bytes}
use go_sequence.Base.Result.{Result, ok, err, panic, out_of_fuel, bind-ok, ok-subst}
use go_sequence.Ethkit.{Ethkit, Address}
use go_sequence.Signature.{
  SignaturePart, SignatureParts, Signature, part_type_eoa, part_type_address, part_type_dynamic,
}
use go_sequence.Signature.Codec.{encode}
use go_sequence.Signature.Knapsack.{Item, no_item, knapsack}
use go_sequence.Signature.Knapsack.Optimal.{knapsack_sound, total_weight}
use go_sequence.Signature.Recover.{part_recover}
use go_sequence.Signature.Reduce.{
  Candidate, Candidates, add_candidate, eoa_candidate, nested_signature, cost, dynamic_candidate,
  candidate, candidates, without_signature, prune_at, prune, prune_redundant, reduce_on, reduce,
  rounds,
}

-- The weight of a part that carries a signature, by its type.
abbrev pub signing : SignaturePart → ℕ
signing p =
    if p.type == part_type_eoa
    then p.weight
    else if p.type == part_type_dynamic
    then p.weight
    else 0

abbrev pub signing_all : List SignaturePart → ℕ
signing_all [] = 0
signing_all (p ∷ parts) = signing p + signing_all parts

abbrev pub signing_weight : SignatureParts → ℕ
signing_weight [] = 0
signing_weight (none ∷ parts) = signing_weight parts
signing_weight (some p ∷ parts) = signing p + signing_weight parts

abbrev pub HasUint8Weight : Option SignaturePart → Type 0
HasUint8Weight none = Unit
HasUint8Weight (some p) = p.weight < 2 ^ 8

-- Every item weighs what its part signs with, or more.
abbrev Covers : List Item → List SignaturePart → Type 0
Covers [] [] = Unit
Covers (item ∷ items) (p ∷ parts) = (signing p ≤ item.weight) × Covers items parts
Covers _ _ = ⊥

signing-without_signature :
    (addresses : List Address) (i : ℕ) (p : SignaturePart)
    → signing (without_signature addresses i p) ≡ 0
signing-without_signature addresses i p = refl

prune_at-Covers :
    (items : List Item) (parts : List SignaturePart) (addresses : List Address) (i j : ℕ)
    → Covers items parts
    → Covers items (prune_at parts i (without_signature addresses j))
unfolding prune_at
prune_at-Covers [] [] addresses i j h = tt
prune_at-Covers [] (p ∷ parts) addresses i j h = absurd h
prune_at-Covers (item ∷ items) [] addresses i j h = absurd h
prune_at-Covers (item ∷ items) (p ∷ parts) addresses zero j h = (omega arith, h.1)
prune_at-Covers (item ∷ items) (p ∷ parts) addresses (suc i) j h =
    (h.0, prune_at-Covers items parts addresses i j h.1)

signing_all-prune_at :
    (items : List Item) (parts : List SignaturePart) (addresses : List Address) (i j : ℕ)
    → Covers items parts
    → signing_all parts
      ≤ signing_all (prune_at parts i (without_signature addresses j))
        + (get_or items i no_item).weight
unfolding prune_at
signing_all-prune_at [] [] addresses i j h = omega arith
signing_all-prune_at [] (p ∷ parts) addresses i j h = absurd h
signing_all-prune_at (item ∷ items) [] addresses i j h = absurd h
signing_all-prune_at (item ∷ items) (p ∷ parts) addresses zero j h = omega (arith, h.0)
signing_all-prune_at (item ∷ items) (p ∷ parts) addresses (suc i) j h =
    omega (arith, signing_all-prune_at items parts addresses i j h.1)

signing_all-prune :
    (items : List Item) (parts : List SignaturePart) (addresses : List Address) (redundant : List ℕ)
    → Covers items parts
    → signing_all parts
      ≤ signing_all (prune addresses redundant parts) + total_weight items redundant
unfolding prune
signing_all-prune items parts addresses [] h = omega arith
signing_all-prune items parts addresses (i ∷ redundant) h = omega (
  arith,
  signing_all-prune_at items parts addresses i i h,
  signing_all-prune items (prune_at parts i (without_signature addresses i)) addresses redundant
      (prune_at-Covers items parts addresses i i h),
)

-- The candidates of the parts: their items cover them, and their weight is that of the parts.
record IsCandidates (parts : SignatureParts) (c : Candidates) : Type 0 where
  covers : Covers c.items c.parts
  same_weight : c.weight ≡ signing_all c.parts
  same_signing : signing_all c.parts ≡ signing_weight parts

signing_all-prune_redundant :
    (threshold : ℕ) (parts : SignatureParts) (c : Candidates)
    → IsCandidates parts c
    → threshold ≤ signing_weight parts
    → threshold ≤ signing_all (prune_redundant threshold c)
unfolding prune_redundant
signing_all-prune_redundant threshold parts c h enough =
    elim (Bool-cases (ltb threshold c.weight)) [
      | inl more ↦
          let capacity = c.weight - threshold in
          rw more (
            omega (
              arith,
              ltb-lt threshold c.weight more,
              h.same_weight,
              h.same_signing,
              (knapsack_sound c.items capacity).1,
              signing_all-prune c.items c.parts c.addresses (knapsack capacity c.items).1 h.covers,
            ))
      | inr less ↦ rw less (omega (arith, h.same_signing))
    ]
  where
    ltb-lt : (a b : ℕ) → ltb a b ≡ true → a < b
    ltb-lt a b h = ground arith

-- A candidate signs with the weight of its part, and counts with it.
abbrev HasCandidate : Option SignaturePart → Option Candidate × Address → Type 0
HasCandidate none out = ⊥
HasCandidate (some p) (none, a) = signing p ≡ 0
HasCandidate (some p) (some c, a) =
    (signing c.part ≡ signing p) × (signing c.part ≤ c.item.weight) × (c.counted ≡ signing c.part)

eoa_candidate-HasCandidate :
    (p : SignaturePart) (r : Result Address) {out : Option Candidate × Address}
    → p.type ≡ part_type_eoa
    → p.weight < 2 ^ 8
    → eoa_candidate p r ≡ ok out
    → HasCandidate (some p) out
unfolding eoa_candidate
eoa_candidate-HasCandidate p (ok a) t w e =
    ok-subst (HasCandidate (some p)) e (refl, rw t (omega arith), rw t)
eoa_candidate-HasCandidate p (err x) t w e =
    ok-subst (HasCandidate (some p)) e (refl, rw t (omega arith), rw t)
eoa_candidate-HasCandidate p panic t w e = cc
eoa_candidate-HasCandidate p out_of_fuel t w e = cc

add_candidate-IsCandidates :
    (p : SignaturePart) (parts : SignatureParts) (out : Option Candidate × Address)
    (later : Candidates)
    → HasCandidate (some p) out
    → IsCandidates parts later
    → IsCandidates (some p ∷ parts) (add_candidate out later)
unfolding add_candidate
add_candidate-IsCandidates p parts (none, a) later h l = record {
  covers = l.covers;
  same_weight = l.same_weight;
  same_signing = omega (arith, h, l.same_signing);
}
add_candidate-IsCandidates p parts (some c, a) later h l = record {
  covers = (h.1, l.covers);
  same_weight = omega (arith, h.2, l.same_weight);
  same_signing = omega (arith, h.0, l.same_signing);
}

module _ (k : Ethkit) (msg : Bytes) (nested : Signature → Result Signature) where
  dynamic_candidate-HasCandidate :
      (p : SignaturePart) {out : Option Candidate × Address}
      → p.type ≡ part_type_dynamic
      → dynamic_candidate k msg nested p ≡ ok out
      → HasCandidate (some p) out
  unfolding dynamic_candidate
  dynamic_candidate-HasCandidate p t e =
      let (decoded, _, e1) = bind-ok (nested_signature k p) _ e in
      let (reduced, _, e2) = bind-ok (nested decoded) _ e1 in
      let (c, _, e3) = bind-ok (cost k reduced) _ e2 in
      let (v, _, e4) = bind-ok (encode k reduced) _ e3 in
      ok-subst (HasCandidate (some p)) e4 (refl, rw t (omega arith), rw t)

  candidate-HasCandidate :
      (p : Option SignaturePart) {out : Option Candidate × Address}
      → HasUint8Weight p
      → candidate k msg nested p ≡ ok out
      → HasCandidate p out
  unfolding candidate
  candidate-HasCandidate none w e = cc
  candidate-HasCandidate (some p) w e = elim (Bool-cases (p.type == part_type_eoa)) [
    | inl y ↦ eoa_candidate-HasCandidate p (part_recover k p msg) (ground arith) w (rw y at e)
    | inr n ↦ elim (Bool-cases (p.type == part_type_address)) [
      | inl y ↦
          let t : p.type ≡ part_type_address = ground arith in
          ok-subst (HasCandidate (some p)) (rw (n, y) at e) (refl, rw t (omega arith), rw t)
      | inr m ↦ elim (Bool-cases (p.type == part_type_dynamic)) [
        | inl y ↦ dynamic_candidate-HasCandidate p (ground arith) (rw (n, m, y) at e)
        | inr l ↦ ok-subst (HasCandidate (some p)) (rw (n, m, l) at e) (rw (n, l))
      ]
    ]
  ]

  candidates-IsCandidates :
      (parts : SignatureParts) {c : Candidates}
      → All HasUint8Weight parts
      → candidates k msg nested parts ≡ ok c
      → IsCandidates parts c
  unfolding candidates
  candidates-IsCandidates [] w e =
      ok-subst (IsCandidates []) e (record { covers = tt; same_weight = refl; same_signing = refl })
  candidates-IsCandidates (none ∷ parts) w e =
      let (first, e1, _) = bind-ok (candidate k msg nested none) _ e in
      absurd (candidate-HasCandidate none tt e1)
  candidates-IsCandidates (some p ∷ parts) w e =
      let (first, e1, r1) = bind-ok (candidate k msg nested (some p)) _ e in
      let (later, e2, r2) = bind-ok (candidates k msg nested parts) _ r1 in
      ok-subst (IsCandidates (some p ∷ parts)) r2 (
        add_candidate-IsCandidates p parts first later (candidate-HasCandidate (some p) w.0 e1)
          (candidates-IsCandidates parts w.1 e2))

signing_weight-some :
    (parts : List SignaturePart) → signing_weight (map some parts) ≡ signing_all parts
signing_weight-some [] = refl
signing_weight-some (p ∷ parts) = rw (signing_weight-some parts)

reduce_on-signing_weight :
    (k : Ethkit) (msg : Bytes) (fuel : ℕ) (s : Signature) {s' : Signature}
    → All HasUint8Weight s.signers
    → s.threshold ≤ signing_weight s.signers
    → reduce_on k msg fuel s ≡ ok s'
    → (s'.threshold ≡ s.threshold) × (s.threshold ≤ signing_weight s'.signers)
unfolding reduce_on
reduce_on-signing_weight k msg zero s w enough e = cc
reduce_on-signing_weight k msg (suc fuel) s w enough e =
    let (c, e1, r1) = bind-ok (candidates k msg (reduce_on k msg fuel) s.signers) _ e in
    ok-subst (λ s'. (s'.threshold ≡ s.threshold) × (s.threshold ≤ signing_weight s'.signers)) r1
      (
        refl,
        rw (signing_weight-some (prune_redundant s.threshold c)) (
            signing_all-prune_redundant s.threshold s.signers c
              (candidates-IsCandidates k msg (reduce_on k msg fuel) s.signers w e1) enough),
      )

-- When `Reduce` succeeds, the threshold is as before; and if the weights of the parts with a signature
-- reached it, those of the parts that still have one reach it too.
pub reduce-signing_weight :
    (k : Ethkit) (msg : Bytes) (s : Signature) {s' : Signature}
    → All HasUint8Weight s.signers
    → s.threshold ≤ signing_weight s.signers
    → reduce k msg s ≡ ok s'
    → (s'.threshold ≡ s.threshold) × (s.threshold ≤ signing_weight s'.signers)
unfolding reduce
reduce-signing_weight k msg s w enough e = reduce_on-signing_weight k msg (rounds s) s w enough e
