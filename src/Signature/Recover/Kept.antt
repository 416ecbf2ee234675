-- ===== src/Signature/Recover/Kept.antt =====
-- What `Signature.Recover` leaves as it was, and what it makes of a nested signature.
use go_sequence.Base.{
  ℕ, ◌-◌, ◌≤◌, ◌≡◌, ◌≢◌, refl, subst, [], ◌∷◌, Option, none, some, false, not, ltb, ◌==◌, ==_ne,
  if◌then◌else◌, length, Bool-cases, inl, inr, arith, take, All,
}
use go_sequence.Base.Bytes.{Bytes, bytes_equal_refl, codes}
use go_sequence.Base.Result.{ok, err, bind-ok, invalid_signature}
use go_sequence.Ethkit.{Ethkit, Provider, zero_address}
use go_sequence.Signature.{SignaturePart, SignatureParts, Signature, signature_type_eip1271}
use go_sequence.Signature.Recover.{
  last_byte, part_recover, part_is_valid, eip1271_is_valid, recover_dynamic, recover_one,
  recover_loop, recover,
}

abbrev pub IsUnsigned : Option SignaturePart → Type 0
IsUnsigned none = ⊥
IsUnsigned (some p) = p.value ≡ []

module _ (k : Ethkit) (msg : Bytes) where
  -- The part `q` is `p`, with the recovered address if `p` has a value and no address.
  abbrev pub IsRecovered : SignaturePart → SignaturePart → Type 0
  IsRecovered p q =
      if length p.value == 0
      then (q ≡ p)
      else if not (p.address == zero_address)
      then (q ≡ p)
      else (part_recover k p msg ≡ ok q.address) × (q ≡ record p { address = q.address })

  -- Part by part, and no part is nil.
  abbrev pub AreRecovered : SignatureParts → SignatureParts → Type 0
  AreRecovered [] [] = Unit
  AreRecovered (some p ∷ ps) (some q ∷ qs) = IsRecovered p q × AreRecovered ps qs
  AreRecovered _ _ = ⊥

  recover_dynamic-eq :
      (p : SignaturePart) (provider : Option Provider) {q : SignaturePart}
      → recover_dynamic k p msg provider ≡ ok q
      → q ≡ p
  unfolding recover_dynamic
  recover_dynamic-eq p none e = ground arith
  recover_dynamic-eq p (some provider) e = elim (Bool-cases (ltb (length msg) 32)) [
    | inl short ↦ cc (rw short at e)
    | inr enough ↦
        let (valid, checked, rest) =
          bind-ok (part_is_valid k p (take 32 msg) provider) _ (rw enough at e) in
        ground (arith, rest)
  ]

  recover_one-IsRecovered :
      (provider : Option Provider) (p : SignaturePart) {q : SignaturePart}
      → recover_one k msg provider (some p) ≡ ok q
      → IsRecovered p q
  unfolding recover_one
  recover_one-IsRecovered provider p {q} e = elim (Bool-cases (length p.value == 0)) [
    | inl unsigned ↦ rw unsigned (cc (rw unsigned at e))
    | inr signed ↦ elim (Bool-cases (not (p.address == zero_address))) [
      | inl dynamic ↦
          rw (signed, dynamic) (recover_dynamic-eq p provider (rw (signed, dynamic) at e))
      | inr eoa ↦
          let (rc, found, rest) = bind-ok (part_recover k p msg) _ (rw (signed, eoa) at e) in
          let same : record p { address = rc } ≡ q = cc rest in
          rw (signed, eoa)
            (subst
              (λ r. (part_recover k p msg ≡ ok r.address) × (r ≡ record p { address = r.address }))
              same (found, refl))
    ]
  ]

  recover_loop-AreRecovered :
      (provider : Option Provider) (parts : SignatureParts) {qs : SignatureParts}
      → recover_loop k msg provider parts ≡ ok qs
      → AreRecovered parts qs
  unfolding recover_loop
  recover_loop-AreRecovered provider [] {qs} e =
      let same : [] ≡ qs = cc e in subst (AreRecovered []) same tt
  recover_loop-AreRecovered provider (none ∷ parts) {qs} e = unfold recover_one in cc
  recover_loop-AreRecovered provider (some p ∷ parts) {qs} e =
      let (q, first, e1) = bind-ok (recover_one k msg provider (some p)) _ e in
      let (rest, later, e2) = bind-ok (recover_loop k msg provider parts) _ e1 in
      let same : some q ∷ rest ≡ qs = cc e2 in
      subst (AreRecovered (some p ∷ parts)) same
        (recover_one-IsRecovered provider p first, recover_loop-AreRecovered provider parts later)

  -- When `Recover` succeeds, the threshold and the parts are as before, but for the addresses of the
  -- parts that had a value and no address: each is now the address that recovers from the value.
  pub recover-AreRecovered :
      (s : Signature) (provider : Option Provider) {s' : Signature}
      → recover k s msg provider ≡ ok s'
      → (s'.threshold ≡ s.threshold) × AreRecovered s.signers s'.signers
  unfolding recover
  recover-AreRecovered s provider {s'} e =
      let (parts, looped, rest) = bind-ok (recover_loop k msg provider s.signers) _ e in
      let same : record s { signers = parts } ≡ s' = cc rest in
      subst (λ r. (r.threshold ≡ s.threshold) × AreRecovered s.signers r.signers) same
        (refl, recover_loop-AreRecovered provider s.signers looped)

  part_is_valid_confirmed :
      (p : SignaturePart) (provider : Provider) (digest res : Bytes)
      → 2 ≤ length p.value
      → p.address ≢ zero_address
      → last_byte p.value ≡ signature_type_eip1271
      → provider.is_valid_signature p.address digest (take (length p.value - 2) p.value) ≡ ok res
      → k.hex_encode res ≡ codes "0x1626ba7e"
      → part_is_valid k p digest provider ≡ ok false
  unfolding part_is_valid eip1271_is_valid
  part_is_valid_confirmed p provider digest res two present eip1271 called magic =
      let signed : (length p.value == 0) ≡ false = ground arith in
      let room : ltb (length p.value) 2 ≡ false = ground arith in
      rw (signed, ==_ne p.address zero_address present, eip1271, room, called, magic)
        (rw (bytes_equal_refl (codes "0x1626ba7e")))

  -- Without values there is nothing to recover.
  recover_loop-unsigned :
      (provider : Option Provider) (parts : SignatureParts)
      → All IsUnsigned parts
      → recover_loop k msg provider parts ≡ ok parts
  unfolding recover_loop recover_one
  recover_loop-unsigned provider [] h = refl
  recover_loop-unsigned provider (none ∷ parts) h = absurd h.0
  recover_loop-unsigned provider (some p ∷ parts) h =
      rw (h.0, recover_loop-unsigned provider parts h.1)

  pub recover-unsigned :
      (s : Signature) (provider : Option Provider)
      → All IsUnsigned s.signers
      → recover k s msg provider ≡ ok s
  unfolding recover
  recover-unsigned s provider h = rw (recover_loop-unsigned provider s.signers h)

  -- A nested signature that its wallet contract confirms, by the magic value of EIP-1271, makes
  -- `Recover` fail: the test for the magic value is the wrong way round.
  pub recover_confirmed :
      (threshold : ℕ) (p : SignaturePart) (parts : SignatureParts) (provider : Provider)
      (res : Bytes)
      → 2 ≤ length p.value
      → p.address ≢ zero_address
      → last_byte p.value ≡ signature_type_eip1271
      → 32 ≤ length msg
      → provider.is_valid_signature p.address (take 32 msg) (take (length p.value - 2) p.value)
        ≡ ok res
      → k.hex_encode res ≡ codes "0x1626ba7e"
      → recover k (record { threshold = threshold; signers = some p ∷ parts }) msg (some provider)
        ≡ err invalid_signature
  unfolding recover recover_loop recover_one recover_dynamic
  recover_confirmed threshold p parts provider res two present eip1271 long called magic =
      let signed : (length p.value == 0) ≡ false = ground arith in
      let enough : ltb (length msg) 32 ≡ false = ground arith in
      rw (
        signed,
        ==_ne p.address zero_address present,
        enough,
        part_is_valid_confirmed p provider (take 32 msg) res two present eip1271 called magic,
      )
