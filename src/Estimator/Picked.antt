-- ===== src/Estimator/Picked.antt =====
-- The cost of calldata in closed form, and the weight of the signers that are picked.
use go_sequence.Base.{
  ℕ, zero, suc, ◌+◌, ◌*◌, ◌%◌, ◌^◌, ◌≤◌, ◌<◌, ◌≡◌, ◌≢◌, refl, sym, ap, inl, inr, List, [], ◌∷◌,
  Bool, true, false, Bool-cases, leb, leb→le, ◌==◌, if◌then◌else◌, length, get_elem?, some, ◌∙◌,
  set, replicate, length-set, length-replicate, All, arith,
}
use go_sequence.Base.Bytes.{Bytes}
use go_sequence.Config.{WalletConfig, WalletConfigSigner, WalletConfigSigners}
use go_sequence.Estimator.{
  default_estimator, cost_loop, calldata_cost, SortedSigner, pick_loop, pick_signers,
}

-- The number of the bytes that are zero, and of the others.
abbrev zeros : Bytes → ℕ
zeros [] = 0
zeros (b ∷ data') = (if b == 0 then 1 else 0) + zeros data'

cost_loop_lem :
    (cost : ℕ) (data' : Bytes)
    → cost + 16 * length data' < 2 ^ 64
    → cost_loop default_estimator cost data' + 12 * zeros data' ≡ cost + 16 * length data'
unfolding cost_loop
cost_loop_lem cost [] h = omega arith
cost_loop_lem cost (b ∷ data') h = elim (Bool-cases (b == 0)) [
  | inl e ↦
      rw (e, no_wrap (cost + 4) (omega arith))
        (omega (arith, cost_loop_lem (cost + 4) data' (omega arith)))
  | inr e ↦
      rw (e, no_wrap (cost + 16) (omega arith))
        (omega (arith, cost_loop_lem (cost + 16) data' (omega arith)))
]
  where
    no_wrap : (n : ℕ) → n < 2 ^ 64 → n % 2 ^ 64 ≡ n
    no_wrap n lt = omega arith

-- On fewer than 2 ^ 59 bytes the default cost of calldata does not wrap around: it is 21000 and 16 for
-- each byte, less 12 for each byte that is zero.
calldata_cost-zeros :
    (data' : Bytes)
    → length data' < 2 ^ 59
    → calldata_cost default_estimator data' + 12 * zeros data' ≡ 21000 + 16 * length data'
unfolding calldata_cost
calldata_cost-zeros data' h = cost_loop_lem 21000 data' (omega arith)

-- The weight of the signers that will sign.
abbrev pub signing_weight : WalletConfigSigners → List Bool → ℕ
signing_weight [] will_sign = 0
signing_weight (s ∷ signers) [] = 0
signing_weight (s ∷ signers) (w ∷ will_sign) =
    (if w then s.weight else 0) + signing_weight signers will_sign

-- The signers in some order, each with its own index.
abbrev pub AreIndexed : WalletConfigSigners → List SortedSigner → Type 0
AreIndexed signers [] = Unit
AreIndexed signers (p ∷ sorted) =
    (get_elem? signers p.i ≡ some p.s) × All (λ q. q.i ≢ p.i) sorted × AreIndexed signers sorted

abbrev pub sorted_weight : List SortedSigner → ℕ
sorted_weight [] = 0
sorted_weight (p ∷ sorted) = p.s.weight + sorted_weight sorted

IsFree : List Bool → SortedSigner → Type 0
IsFree will_sign q = get_elem? will_sign q.i ≡ some false

signing_weight-set :
    (signers : WalletConfigSigners) (will_sign : List Bool) (i : ℕ) (s : WalletConfigSigner)
    → get_elem? signers i ≡ some s
    → get_elem? will_sign i ≡ some false
    → signing_weight signers (set will_sign i true) ≡ signing_weight signers will_sign + s.weight
signing_weight-set [] will_sign i s h free = cc
signing_weight-set (t ∷ signers) [] i s h free = cc
signing_weight-set (t ∷ signers) (w ∷ will_sign) zero s h free =
    let same_signer : t ≡ s = cc in
    let unmarked : w ≡ false = cc in rw (unmarked, same_signer) (omega arith)
signing_weight-set (t ∷ signers) (w ∷ will_sign) (suc i) s h free =
    omega (arith, signing_weight-set signers will_sign i s h free)

get_elem?-set :
    (will_sign : List Bool) (i j : ℕ)
    → j ≢ i
    → get_elem? (set will_sign i true) j ≡ get_elem? will_sign j
get_elem?-set [] i j h = refl
get_elem?-set (w ∷ will_sign) zero zero h = absurd (h refl)
get_elem?-set (w ∷ will_sign) zero (suc j) h = refl
get_elem?-set (w ∷ will_sign) (suc i) zero h = refl
get_elem?-set (w ∷ will_sign) (suc i) (suc j) h = get_elem?-set will_sign i j (λ e. h (ap suc e))

set-IsFree :
    (will_sign : List Bool) (i : ℕ) (sorted : List SortedSigner)
    → All (λ q. q.i ≢ i) sorted
    → All (IsFree will_sign) sorted
    → All (IsFree (set will_sign i true)) sorted
unfolding IsFree
set-IsFree will_sign i [] h free = tt
set-IsFree will_sign i (q ∷ sorted) h free =
    (get_elem?-set will_sign i q.i h.0 ∙ free.0, set-IsFree will_sign i sorted h.1 free.1)

pick_loop_lem :
    (signers : WalletConfigSigners) (threshold : ℕ) (sorted : List SortedSigner)
    (will_sign : List Bool)
    → AreIndexed signers sorted
    → All (IsFree will_sign) sorted
    → threshold ≤ signing_weight signers will_sign + sorted_weight sorted
    → threshold
      ≤ signing_weight signers
          (pick_loop threshold (signing_weight signers will_sign) sorted will_sign)
unfolding pick_loop IsFree
pick_loop_lem signers threshold [] will_sign indexed free enough = omega arith
pick_loop_lem signers threshold (p ∷ sorted) will_sign indexed free enough =
    let grown = signing_weight-set signers will_sign p.i p.s indexed.0 free.0 in
    elim (Bool-cases (leb threshold (signing_weight signers will_sign + p.s.weight))) [
      | inl e ↦ rw e (omega (arith, grown, leb→le _ _ e))
      | inr e ↦
          rw (e, sym grown)
            (pick_loop_lem signers threshold sorted (set will_sign p.i true) indexed.2
              (set-IsFree will_sign p.i sorted indexed.1 free.1) (omega (arith, grown)))
    ]

get_elem?-replicate :
    (signers : WalletConfigSigners) (i : ℕ) {s : WalletConfigSigner}
    → get_elem? signers i ≡ some s
    → get_elem? (replicate (length signers) false) i ≡ some false
get_elem?-replicate [] i h = cc
get_elem?-replicate (t ∷ signers) zero h = refl
get_elem?-replicate (t ∷ signers) (suc i) h = get_elem?-replicate signers i h

replicate-IsFree :
    (signers : WalletConfigSigners) (sorted : List SortedSigner)
    → AreIndexed signers sorted
    → All (IsFree (replicate (length signers) false)) sorted
unfolding IsFree
replicate-IsFree signers [] h = tt
replicate-IsFree signers (p ∷ sorted) h =
    (get_elem?-replicate signers p.i h.0, replicate-IsFree signers sorted h.2)

signing_weight_none :
    (signers : WalletConfigSigners) → signing_weight signers (replicate (length signers) false) ≡ 0
signing_weight_none [] = refl
signing_weight_none (s ∷ signers) = omega (arith, signing_weight_none signers)

length-pick_loop :
    (threshold weight_sum : ℕ) (sorted : List SortedSigner) (will_sign : List Bool)
    → length (pick_loop threshold weight_sum sorted will_sign) ≡ length will_sign
unfolding pick_loop
length-pick_loop threshold weight_sum [] will_sign = refl
length-pick_loop threshold weight_sum (p ∷ sorted) will_sign =
    elim (Bool-cases (leb threshold (weight_sum + p.s.weight))) [
      | inl e ↦ rw e (length-set will_sign p.i true)
      | inr e ↦ rw e (
          length-pick_loop threshold (weight_sum + p.s.weight) sorted (set will_sign p.i true)
          ∙ length-set will_sign p.i true)
    ]

pub length-pick_signers :
    (c : WalletConfig) (sorted : List SortedSigner)
    → length (pick_signers c sorted) ≡ length c.signers
unfolding pick_signers
length-pick_signers c sorted =
    length-pick_loop c.threshold 0 sorted (replicate (length c.signers) false)
    ∙ length-replicate (length c.signers) false

-- The signers that are picked reach the threshold, in whatever order they are tried, when those that
-- are tried have the weight for it together.
pub pick_signers_reach :
    (c : WalletConfig) (sorted : List SortedSigner)
    → AreIndexed c.signers sorted
    → c.threshold ≤ sorted_weight sorted
    → c.threshold ≤ signing_weight c.signers (pick_signers c sorted)
unfolding pick_signers
pick_signers_reach c sorted indexed enough =
    let none_yet = signing_weight_none c.signers in
    rw none_yet at (
      pick_loop_lem c.signers c.threshold sorted (replicate (length c.signers) false) indexed
        (replicate-IsFree c.signers sorted indexed) (omega (arith, none_yet)))
