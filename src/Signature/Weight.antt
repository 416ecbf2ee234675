-- ===== src/Signature/Weight.antt =====
-- `Signature.Weight` of signature.go.
mod Examples
use native.Mathlib.Nat.{zero-add}
use go_sequence.Base.{
  ℕ, ◌+◌, ◌*◌, ◌%◌, ◌^◌, ◌≤◌, ◌<◌, ◌≡◌, ap, ◌∙◌, [], ◌∷◌, Option, none, some, ◌==◌, if◌then◌else◌,
  Bool-cases, inl, inr, length, All, arith,
}
use go_sequence.Base.Result.{Result, ok, panic}
use go_sequence.Signature.{SignatureParts, Signature, SignaturePart}

-- The loop of `Weight`, on a uint16.
pub weight_loop : ℕ → SignatureParts → Result ℕ
weight_loop weight [] = ok weight
weight_loop weight (none ∷ parts) = panic
weight_loop weight (some p ∷ parts) =
    weight_loop (if length p.value == 0 then weight else (weight + p.weight) % 2 ^ 16) parts

pub total_weight : Signature → Result ℕ
total_weight s = weight_loop 0 s.signers

-- The weights of the parts that carry a signature value.
abbrev pub signed_weight : SignatureParts → ℕ
signed_weight [] = 0
signed_weight (none ∷ parts) = signed_weight parts
signed_weight (some p ∷ parts) = (if length p.value == 0 then 0 else p.weight) + signed_weight parts

abbrev pub IsPart : Option SignaturePart → Type 0
IsPart none = ⊥
IsPart (some p) = p.weight < 2 ^ 8

weight_loop-signed_weight :
    (weight : ℕ) (parts : SignatureParts)
    → All IsPart parts
    → weight + 255 * length parts < 2 ^ 16
    → weight_loop weight parts ≡ ok (weight + signed_weight parts)
unfolding weight_loop
weight_loop-signed_weight weight [] h fits = ap ok (omega arith)
weight_loop-signed_weight weight (none ∷ parts) h fits = absurd h.0
weight_loop-signed_weight weight (some p ∷ parts) h fits = elim (Bool-cases (length p.value == 0)) [
  | inl e ↦ rw (e, zero-add) (weight_loop-signed_weight weight parts h.1 (omega arith))
  | inr e ↦ rw e (
      rw (no_wrap (weight + p.weight) (omega arith)) (
        weight_loop-signed_weight (weight + p.weight) parts h.1 (omega arith)
        ∙ ap ok (omega arith)))
]
  where
    no_wrap : (n : ℕ) → n < 2 ^ 16 → n % 2 ^ 16 ≡ n
    no_wrap n lt = omega arith

-- With at most 257 parts and none of them nil, `Weight` does not wrap around: it is the sum of the
-- weights of the parts that carry a value.
total_weight-signed_weight :
    (s : Signature)
    → All IsPart s.signers
    → length s.signers ≤ 257
    → total_weight s ≡ ok (signed_weight s.signers)
unfolding total_weight
total_weight-signed_weight s h le =
    rw zero-add at (weight_loop-signed_weight 0 s.signers h (omega arith))
