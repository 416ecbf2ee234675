-- ===== src/Signature/Reduce.antt =====
-- `Signature.Reduce` and `Signature.cost` of signature.go.
pub mod Weighted
pub mod Fuel
mod Examples
use go_sequence.Base.{
  ℕ, zero, suc, ◌+◌, ◌-◌, ◌*◌, List, [], ◌∷◌, ◌++◌, map, Option, none, some, Bool, true, false, ltb,
  ◌==◌, if◌then◌else◌, length, get_or, set, take, max,
}
use go_sequence.Base.Bytes.{Bytes}
use go_sequence.Base.Result.{Result, ok, err, panic, out_of_fuel, ◌>>=◌}
use go_sequence.Ethkit.{Ethkit, Address, zero_address}
use go_sequence.Signature.{
  SignaturePart, SignatureParts, Signature, part_type_eoa, part_type_address, part_type_dynamic,
  signature_type_eip1271,
}
use go_sequence.Signature.Codec.{encode, decode_signature}
use go_sequence.Signature.Codec.Longest.{longest}
use go_sequence.Signature.Knapsack.{Item, knapsack}
use go_sequence.Signature.Recover.{part_recover}

abbrev pub eoa_cost : ℕ
eoa_cost = 3000 + 65 * 16

abbrev pub address_cost : ℕ
address_cost = 20 * 16

-- `math.MaxInt32`
abbrev pub max_int32 : ℕ
max_int32 = 2147483647

-- The signature inside a dynamic part: its value less the type byte. `Value[:len(Value)-1]` panics on
-- an empty value.
pub nested_signature : Ethkit → SignaturePart → Result Signature
nested_signature k p =
    let decoded = decode_signature k (take (length p.value - 1) p.value) in
    if length p.value == 0 then panic else decoded

-- A signature that is nested in a part is shorter than the part's value, so one round more than the
-- longest value has bytes is enough.
abbrev pub rounds : Signature → ℕ
rounds s = suc (longest s.signers)

-- What the loop of `Reduce` makes of a part: the part to keep, with its item for the knapsack and the
-- weight that is added; and what goes into `addresses`.
pub record Candidate : Type 0 where
  pub part : SignaturePart
  pub item : Item
  pub counted : ℕ

-- The slices after the loop.
pub record Candidates : Type 0 where
  pub parts : List SignaturePart
  pub items : List Item
  pub weight : ℕ
  pub addresses : List Address

abbrev pub no_candidates : Candidates
no_candidates = record { parts = []; items = []; weight = 0; addresses = [] }

-- A part of a type that is unknown has no candidate, but a place in `addresses`.
pub add_candidate : Option Candidate × Address → Candidates → Candidates
add_candidate (none, a) later = record later { addresses = a ∷ later.addresses }
add_candidate (some c, a) later = record {
  parts = c.part ∷ later.parts;
  items = c.item ∷ later.items;
  weight = c.counted + later.weight;
  addresses = a ∷ later.addresses;
}

-- An EOA part: one that cannot be recovered gets a weight that keeps it from being pruned.
pub eoa_candidate : SignaturePart → Result Address → Result (Option Candidate × Address)
eoa_candidate p (ok a) = ok (
  some (record {
    part = p;
    item = record { weight = p.weight; value = eoa_cost };
    counted = p.weight;
  }),
  a,
)
eoa_candidate p (err e) = ok (
  some (record {
    part = p;
    item = record { weight = max_int32; value = eoa_cost };
    counted = p.weight;
  }),
  zero_address,
)
eoa_candidate p panic = panic
eoa_candidate p out_of_fuel = out_of_fuel

-- The part that takes the place of a part without a signature that is needed.
abbrev pub without_signature : List Address → ℕ → SignaturePart → SignaturePart
without_signature addresses i p = record p {
  address = if p.type == part_type_eoa then get_or addresses i zero_address else p.address;
  type = part_type_address;
  value = [];
}

-- `signers[i]`, changed in place. The pointers are taken to be different: no part stands twice, as it is
-- in what the decoder returns.
pub prune_at : List SignaturePart → ℕ → (SignaturePart → SignaturePart) → List SignaturePart
prune_at [] i f = []
prune_at (p ∷ parts) zero f = f p ∷ parts
prune_at (p ∷ parts) (suc i) f = p ∷ prune_at parts i f

-- The loop over the redundant parts.
pub prune : List Address → List ℕ → List SignaturePart → List SignaturePart
prune addresses [] parts = parts
prune addresses (i ∷ redundant) parts =
    prune addresses redundant (prune_at parts i (without_signature addresses i))

-- The end of `Reduce`.
pub prune_redundant : ℕ → Candidates → List SignaturePart
prune_redundant threshold c =
    let pruned = prune c.addresses (knapsack (c.weight - threshold) c.items).1 c.parts in
    if ltb threshold c.weight then pruned else c.parts

module _ (k : Ethkit) where
  -- The body and the loop of `cost`, with the call on nested signatures.
  pub cost_part : (Signature → Result ℕ) → SignaturePart → Result ℕ
  cost_part nested_cost p =
      let dynamic = nested_signature k p >>= nested_cost in
      if p.type == part_type_eoa
      then ok eoa_cost
      else if p.type == part_type_address
      then ok address_cost
      else if p.type == part_type_dynamic
      then dynamic
      else ok 0

  pub cost_loop : (Signature → Result ℕ) → SignatureParts → ℕ → Result ℕ
  cost_loop nested_cost [] cost = ok (cost + 1)
  cost_loop nested_cost (none ∷ parts) cost = panic
  cost_loop nested_cost (some p ∷ parts) cost = do
    c ← cost_part nested_cost p
    cost_loop nested_cost parts (cost + c)

  pub cost_on : ℕ → Signature → Result ℕ
  cost_on zero s = out_of_fuel
  cost_on (suc fuel) s = cost_loop (cost_on fuel) s.signers 0

  -- `Signature.cost`
  pub cost : Signature → Result ℕ
  cost s = cost_on (rounds s) s

  module _ (msg : Bytes) where
    -- A dynamic part: its signature is reduced and encoded again.
    pub dynamic_candidate :
        (Signature → Result Signature) → SignaturePart → Result (Option Candidate × Address)
    dynamic_candidate nested_reduce p = do
      decoded ← nested_signature k p
      reduced ← nested_reduce decoded
      c ← cost reduced
      value ← encode k reduced
      ok (
        some (record {
          part = record p { value = value ++ (signature_type_eip1271 ∷ []) };
          item = record { weight = p.weight; value = c };
          counted = p.weight;
        }),
        zero_address,
      )

    pub candidate :
        (Signature → Result Signature) → Option SignaturePart → Result (Option Candidate × Address)
    candidate nested_reduce none = panic
    candidate nested_reduce (some p) =
        let eoa = eoa_candidate p (part_recover k p msg) in
        let address_only = some (record {
          part = p;
          item = record { weight = max_int32; value = address_cost };
          counted = 0;
        }) in
        let dynamic = dynamic_candidate nested_reduce p in
        if p.type == part_type_eoa
        then eoa
        else if p.type == part_type_address
        then ok (address_only, zero_address)
        else if p.type == part_type_dynamic
        then dynamic
        else ok (none, zero_address)

    -- The loop of `Reduce`.
    pub candidates : (Signature → Result Signature) → SignatureParts → Result Candidates
    candidates nested_reduce [] = ok no_candidates
    candidates nested_reduce (p ∷ parts) = do
      first ← candidate nested_reduce p
      later ← candidates nested_reduce parts
      ok (add_candidate first later)

    pub reduce_on : ℕ → Signature → Result Signature
    reduce_on zero s = out_of_fuel
    reduce_on (suc fuel) s = do
      c ← candidates (reduce_on fuel) s.signers
      ok (record s { signers = map some (prune_redundant s.threshold c) })

    -- `Signature.Reduce`
    pub reduce : Signature → Result Signature
    reduce s = reduce_on (rounds s) s
