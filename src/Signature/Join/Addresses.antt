-- ===== src/Signature/Join/Addresses.antt =====
-- `JoinTwo` lists every signer of both signatures, also one that both have.
use go_sequence.Base.{
  ℕ, zero, suc, ◌≡◌, refl, ap, ◌∙◌, subst, List, [], ◌∷◌, ◌++◌, append_assoc, map, Option, none,
  some, ◌==◌, Bool-cases, inl, inr, ◌⊎◌, set, get_elem?, All, arith,
}
use go_sequence.Base.Result.{ok, bind-ok}
use go_sequence.Ethkit.{Address, zero_address}
use go_sequence.Signature.{SignaturePart, SignatureParts, Signature}
use go_sequence.Signature.Join.{next_index, find_address, join_found, join_loop, join_two}

abbrev pub address_of : Option SignaturePart → Option Address
address_of none = none
address_of (some p) = some p.address

-- The address of each part.
abbrev pub addresses : SignatureParts → List (Option Address)
addresses = map address_of

abbrev Occurs : Option Address → List (Option Address) → Type 0
Occurs a [] = ⊥
Occurs a (b ∷ bs) = (b ≡ a) ⊎ Occurs a bs

-- A part found at `i` with the address.
abbrev IsFound : SignatureParts → Address → Option (ℕ × SignaturePart) → Type 0
IsFound parts a none = ⊥
IsFound parts a (some (i, p)) = get_elem? parts i ≡ some (some p)

next_index-IsFound :
    (p : SignaturePart) (parts : SignatureParts) (a : Address) (found : Option (ℕ × SignaturePart))
    → IsFound parts a found
    → IsFound (some p ∷ parts) a (next_index found)
unfolding next_index
next_index-IsFound p parts a none f = absurd f
next_index-IsFound p parts a (some (i, q)) f = f

find_address-IsFound :
    (parts : SignatureParts) (a : Address) (found : Option (ℕ × SignaturePart))
    → Occurs (some a) (addresses parts)
    → find_address parts a ≡ ok found
    → IsFound parts a found
unfolding find_address next_index
find_address-IsFound [] a found o e = absurd o
find_address-IsFound (none ∷ parts) a found o e = cc
find_address-IsFound (some p ∷ parts) a found o e = elim (Bool-cases (p.address == a)) [
  | inl here ↦
      let first : some (0, p) ≡ found = cc (rw here at e) in
      subst (IsFound (some p ∷ parts) a) first refl
  | inr later ↦
      let (f, ef, next) = bind-ok (find_address parts a) _ (rw later at e) in
      let same : next_index f ≡ found = cc next in
      let deeper : Occurs (some a) (addresses parts) = ground arith in
      subst (IsFound (some p ∷ parts) a) same
        (next_index-IsFound p parts a f (find_address-IsFound parts a f deeper ef))
]

addresses-set :
    (parts : SignatureParts) (i : ℕ) (p q : SignaturePart)
    → get_elem? parts i ≡ some (some p)
    → q.address ≡ p.address
    → addresses (set parts i (some q)) ≡ addresses parts
addresses-set [] i p q g e = refl
addresses-set (r ∷ parts) zero p q g e = ground arith
addresses-set (r ∷ parts) (suc i) p q g e =
    ap (λ as'. address_of r ∷ as') (addresses-set parts i p q g e)

join_found-addresses :
    (signers : SignatureParts) (p : SignaturePart) (found : Option (ℕ × SignaturePart))
    {t : SignatureParts}
    → IsFound signers p.address found
    → join_found signers p found ≡ ok t
    → addresses t ≡ addresses signers
unfolding join_found
join_found-addresses signers p none f e = absurd f
join_found-addresses signers p (some (i, px)) f e =
    ground (arith, addresses-set signers i px (record px { value = p.value }) f refl)

join_loop-addresses :
    (signers parts : SignatureParts) {t : SignatureParts}
    → All (λ q. Occurs (address_of q) (addresses signers)) parts
    → join_loop signers parts ≡ ok t
    → addresses t ≡ addresses signers
unfolding join_loop
join_loop-addresses signers [] o e = ground arith
join_loop-addresses signers (none ∷ parts) o e = cc
join_loop-addresses signers (some p ∷ parts) o e = elim (Bool-cases (p.address == zero_address)) [
  | inl zero_part ↦ cc (rw zero_part at e)
  | inr present ↦
      let (f, ef, e1) = bind-ok (find_address signers p.address) _ (rw present at e) in
      let (signers', ej, rest) = bind-ok (join_found signers p f) _ e1 in
      let same =
        join_found-addresses signers p f (find_address-IsFound signers p.address f o.0 ef) ej in
      join_loop-addresses signers' parts (rw same o.1) rest ∙ same
]

Occurs-append :
    (a : Option Address) (xs ys : SignatureParts)
    → Occurs a (addresses ys)
    → Occurs a (addresses (xs ++ ys))
Occurs-append a [] ys o = o
Occurs-append a (x ∷ xs) ys o = inr (Occurs-append a xs ys o)

-- Every part occurs in a list that ends with all of them.
All-Occurs :
    (front parts : SignatureParts)
    → All (λ q. Occurs (address_of q) (addresses (front ++ parts))) parts
All-Occurs front [] = tt
All-Occurs front (r ∷ parts) = (
  Occurs-append (address_of r) front (r ∷ parts) (inl refl),
  rw append_assoc at (All-Occurs (front ++ (r ∷ [])) parts),
)

-- When `JoinTwo` succeeds, the signature has the addresses that it had and then all of those of the
-- other signature, a signer that both have being listed twice.
pub join_two-addresses :
    (s s2 : Signature) {t : Signature}
    → join_two s s2 ≡ ok t
    → addresses t.signers ≡ addresses (s.signers ++ s2.signers)
unfolding join_two
join_two-addresses s s2 e =
    let (parts, joined, out) = bind-ok (join_loop (s.signers ++ s2.signers) s2.signers) _ e in
    cc (
      out,
      join_loop-addresses (s.signers ++ s2.signers) s2.signers (All-Occurs s.signers s2.signers)
          joined,
    )
