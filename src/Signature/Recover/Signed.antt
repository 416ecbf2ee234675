-- ===== src/Signature/Recover/Signed.antt =====
-- The recovery of a part that an EOA signed.
use go_sequence.Base.{
  ℕ, ◌+◌, ◌-◌, ◌%◌, ◌≤◌, ◌≡◌, refl, [], ◌∷◌, ◌++◌, Option, none, some, true, ltb, ◌==◌, ◌||◌,
  Bool-cases, inl, inr, length, length-append, get_or, set, take, take-append, All, arith,
}
use go_sequence.Base.Bytes.{Bytes, IsByte}
use go_sequence.Base.Result.{ok, Ends, Ends-bind}
use go_sequence.Ethkit.{Ethkit, HasEnds, Provider, Address, zero_address}
use go_sequence.Signature.{signature_type_eth_sign, SignaturePart, SignatureParts, Signature}
use go_sequence.Signature.Recover.{
  eth_signed_message, recovery_signature, last_byte, part_recover, recover_one, recover_loop,
  recover, address_of_key,
}

-- A signature of 65 bytes whose last one is 27 or 28, as Ethereum signers make it: a key is recovered
-- from the signature with 27 taken off that byte, and the key has the address.
pub record IsSignatureBy (k : Ethkit) (a : Address) (msg sig : Bytes) : Type 0 where
  pub length_65 : length sig ≡ 65
  pub bytes_in_range : All IsByte sig
  pub recovery_id : (27 ≤ get_or sig 64 0) × (get_or sig 64 0 ≤ 28)
  pub key : Bytes
  pub recovered :
      k.ecrecover (k.keccak256 (eth_signed_message msg)) (set sig 64 (get_or sig 64 0 - 27))
      ≡ ok key
  pub address_of : address_of_key k key ≡ ok a

get_or-snoc : (xs : Bytes) (b : ℕ) → get_or (xs ++ (b ∷ [])) (length xs) 0 ≡ b
get_or-snoc [] b = refl
get_or-snoc (x ∷ xs) b = get_or-snoc xs b

module _ (k : Ethkit) where
  recovery_signature-signed :
      (v : Bytes)
      → length v ≡ 65
      → 27 ≤ get_or v 64 0
      → get_or v 64 0 ≤ 28
      → recovery_signature (v ++ (2 ∷ [])) ≡ set v 64 (get_or v 64 0 - 27)
  unfolding recovery_signature
  recovery_signature-signed v l low high =
      let head : take 65 (v ++ (2 ∷ [])) ≡ v = rw l at (take-append v (2 ∷ [])) in
      let above : ltb 1 (get_or v 64 0) ≡ true = ground arith in
      let less : (get_or v 64 0 + 256 - 27) % 256 ≡ get_or v 64 0 - 27 = omega arith in
      rw (head, above, less)

  part_recover-signed :
      (p : SignaturePart) (a : Address) (msg v : Bytes)
      → IsSignatureBy k a msg v
      → p.value ≡ v ++ (2 ∷ [])
      → part_recover k p msg ≡ ok a
  unfolding part_recover
  part_recover-signed p a msg v h e =
      let l : length (v ++ (2 ∷ [])) ≡ 66 = omega (arith, length-append v (2 ∷ []), h.length_65) in
      let type : get_or (v ++ (2 ∷ [])) 65 0 ≡ 2 = rw h.length_65 at (get_or-snoc v 2) in
      rw (
        e,
        l,
        type,
        recovery_signature-signed v h.length_65 h.recovery_id.0 h.recovery_id.1,
        h.recovered,
        h.address_of,
      )

  -- An EOA part without an address gets the address of its signer.
  pub recover_one-signed :
      (p : SignaturePart) (a : Address) (msg v : Bytes)
      → IsSignatureBy k a msg v
      → p.value ≡ v ++ (2 ∷ [])
      → p.address ≡ zero_address
      → recover_one k msg none (some p) ≡ ok (record p { address = a })
  unfolding recover_one
  recover_one-signed p a msg v h e z =
      let l : length (v ++ (2 ∷ [])) ≡ 66 = omega (arith, length-append v (2 ∷ []), h.length_65) in
      rw (part_recover-signed p a msg v h e, e, l, z)

  pub recover_one-unsigned :
      (p : SignaturePart) (msg : Bytes) → p.value ≡ [] → recover_one k msg none (some p) ≡ ok p
  unfolding recover_one
  recover_one-unsigned p msg e = rw e

  address_of_key-Ends : (key : Bytes) → Ends (address_of_key k key)
  unfolding address_of_key
  address_of_key-Ends [] = tt
  address_of_key-Ends (_ ∷ key) = tt

  pub part_recover-Ends :
      (p : SignaturePart) (msg : Bytes) → HasEnds k → Ends (part_recover k p msg)
  unfolding part_recover
  part_recover-Ends p msg h = elim (Bool-cases (length p.value == 65 || length p.value == 66)) [
    | inl y ↦ elim (Bool-cases (last_byte p.value == signature_type_eth_sign)) [
      | inl z ↦
          rw (y, z)
            (Ends-bind
              (k.ecrecover (k.keccak256 (eth_signed_message msg)) (recovery_signature p.value)) _
              (h.ecrecover-Ends _ _) λ key e. address_of_key-Ends key)
      | inr z ↦ rw (y, z) tt
    ]
    | inr n ↦ rw n tt
  ]

  pub recover_loop-nil :
      (msg : Bytes) (provider : Option Provider) → recover_loop k msg provider [] ≡ ok []
  unfolding recover_loop
  recover_loop-nil msg provider = refl

  pub recover_loop-cons :
      (msg : Bytes) (provider : Option Provider) (p : Option SignaturePart) (ps : SignatureParts)
      {q : SignaturePart} {qs : SignatureParts}
      → recover_one k msg provider p ≡ ok q
      → recover_loop k msg provider ps ≡ ok qs
      → recover_loop k msg provider (p ∷ ps) ≡ ok (some q ∷ qs)
  unfolding recover_loop
  recover_loop-cons msg provider p ps h1 h2 = rw (h1, h2)

  pub recover-ok :
      (msg : Bytes) (s : Signature) (provider : Option Provider) {qs : SignatureParts}
      → recover_loop k msg provider s.signers ≡ ok qs
      → recover k s msg provider ≡ ok (record s { signers = qs })
  unfolding recover
  recover-ok msg s provider h = rw h
