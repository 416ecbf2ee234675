-- ===== src/Signature/Join.antt =====
-- `Signature.Copy`, `JoinTwo` and `JoinSignatures` of signature.go.
-- `JoinTwo` writes through the pointer `px`, which stands in the list of `s`: here the element of the
-- list is replaced. Where `px` is a part of `s2`, which `append` has put into the list too, the
-- pointer is shared, and the parts of `s2` that are read later are those not yet written.
pub mod NilParts
pub mod Addresses
mod Examples
use go_sequence.Base.{
  ℕ, zero, suc, ◌+◌, ◌%◌, ◌^◌, List, [], ◌∷◌, ◌++◌, Option, none, some, Bool, true, false, not,
  ◌==◌, if◌then◌else◌, length, set, replicate,
}
use go_sequence.Base.Bytes.{bytes_equal}
use go_sequence.Base.Result.{
  Result, ok, err, panic, out_of_fuel, ◌>>=◌, non_recovered_signatures, different_signed_messages,
  no_signatures_provided,
}
use go_sequence.Ethkit.{Address, zero_address}
use go_sequence.Signature.{SignaturePart, SignatureParts, Signature}

-- The loop of `Copy`, which appends to a slice that starts with a nil for each part. The copy of a
-- part leaves out its type, which is then 0.
pub copy_loop : SignatureParts → SignatureParts → Result SignatureParts
copy_loop parts [] = ok parts
copy_loop parts (none ∷ signers) = panic
copy_loop parts (some p ∷ signers) =
    copy_loop
      (parts
        ++ (some (record { weight = p.weight; address = p.address; type = 0; value = p.value })
            ∷ []))
      signers

pub copy : Signature → Result Signature
copy s = do
  parts ← copy_loop (replicate (length s.signers) none) s.signers
  ok (record { threshold = s.threshold; signers = parts })

next_index : Option (ℕ × SignaturePart) → Option (ℕ × SignaturePart)
next_index none = none
next_index (some (i, p)) = some (suc i, p)

-- The inner loop of `JoinTwo`: the first part with the address, and its index.
pub find_address : SignatureParts → Address → Result (Option (ℕ × SignaturePart))
find_address [] a = ok none
find_address (none ∷ parts) a = panic
find_address (some p ∷ parts) a =
    let later = do found ← find_address parts a; ok (next_index found)
    in if p.address == a then ok (some (0, p)) else later

-- The switch of `JoinTwo` on the part found.
pub join_found : SignatureParts → SignaturePart → Option (ℕ × SignaturePart) → Result SignatureParts
join_found signers p none = ok (signers ++ (some p ∷ []))
join_found signers p (some (i, px)) =
    if not (length px.value == 0)
    then if bytes_equal px.value p.value then ok signers else err different_signed_messages
    else if not (length px.value == 1)
    then ok (set signers i (some (record px { value = p.value })))
    else ok signers

-- The loop of `JoinTwo` over the parts of `s2`.
pub join_loop : SignatureParts → SignatureParts → Result SignatureParts
join_loop signers [] = ok signers
join_loop signers (none ∷ parts) = panic
join_loop signers (some p ∷ parts) =
    let joined = do
      found ← find_address signers p.address
      signers' ← join_found signers p found
      join_loop signers' parts
    in if p.address == zero_address then err non_recovered_signatures else joined

pub join_two : Signature → Signature → Result Signature
join_two s s2 = do
  parts ← join_loop (s.signers ++ s2.signers) s2.signers
  ok (record s { signers = parts })

pub join_all : Signature → List Signature → Result Signature
join_all a [] = ok a
join_all a (x ∷ xs) = do a' ← join_two a x; join_all a' xs

-- `JoinSignatures`
pub join_signatures : List Signature → Result Signature
join_signatures [] = err no_signatures_provided
join_signatures (s ∷ []) = copy s
join_signatures (s ∷ x ∷ xs) = do a ← copy s; join_all a (x ∷ xs)
