-- ===== src/Signature/Join/NilParts.antt =====
-- The nil parts that `Copy` leaves, and what they do to a join.
use go_sequence.Base.{
  ◌<◌, ◌≡◌, ◌≢◌, ap, ◌∙◌, List, [], ◌∷◌, ◌++◌, append_assoc, append-nil, map, Option, none, some,
  length, replicate, cons_of_length, All, arith,
}
use go_sequence.Base.Result.{ok, bind-ok}
use go_sequence.Signature.{SignaturePart, SignatureParts, Signature}
use go_sequence.Signature.Join.{
  copy_loop, copy, find_address, join_loop, join_two, join_all, join_signatures,
}

-- What `Copy` keeps of a part.
abbrev without_type : Option SignaturePart → Option SignaturePart
without_type none = none
without_type (some p) = some (record p { type = 0 })

abbrev pub IsPresent : Option SignaturePart → Type 0
IsPresent none = ⊥
IsPresent (some p) = Unit

copy_loop-map :
    (parts signers : SignatureParts)
    → All IsPresent signers
    → copy_loop parts signers ≡ ok (parts ++ map without_type signers)
unfolding copy_loop
copy_loop-map parts [] h = rw append-nil
copy_loop-map parts (none ∷ signers) h = absurd h.0
copy_loop-map parts (some p ∷ signers) h =
    copy_loop-map (parts ++ (some (record p { type = 0 }) ∷ [])) signers h.1
    ∙ ap ok (append_assoc parts (some (record p { type = 0 }) ∷ []) (map without_type signers))

-- The copy of a signature without nil parts begins with as many nil parts as the signature has parts;
-- only then come the parts, and their types are lost.
copy-map :
    (s : Signature)
    → All IsPresent s.signers
    → copy s
      ≡ ok (record s { signers = replicate (length s.signers) none ++ map without_type s.signers })
unfolding copy
copy-map s h = rw (copy_loop-map (replicate (length s.signers) none) s.signers h)

-- What a copy that begins with a nil part starts with, in the end.
copy_loop-nil :
    (parts signers : SignatureParts) {t : SignatureParts}
    → copy_loop (none ∷ parts) signers ≡ ok t
    → (rest : SignatureParts) × (t ≡ none ∷ rest)
unfolding copy_loop
copy_loop-nil parts [] e = (parts, cc)
copy_loop-nil parts (none ∷ signers) e = cc
copy_loop-nil parts (some p ∷ signers) e = copy_loop-nil _ signers e

copy-nil :
    (s : Signature) {a : Signature}
    → 0 < length s.signers
    → copy s ≡ ok a
    → (rest : SignatureParts) × (a.signers ≡ none ∷ rest)
unfolding copy
copy-nil s h e =
    let (p, ps, es) = cons_of_length s.signers h in
    let (parts, copied, out) =
      bind-ok (copy_loop (replicate (length s.signers) none) s.signers) _ e in
    let (rest, starts) = copy_loop-nil (replicate (length ps) none) (p ∷ ps) (rw es at copied) in
    (rest, cc (out, starts))

join_loop-nil :
    (signers : SignatureParts) (p : Option SignaturePart) (parts : SignatureParts)
    (t : SignatureParts)
    → join_loop (none ∷ signers) (p ∷ parts) ≢ ok t
unfolding join_loop find_address
join_loop-nil signers none parts t e = cc
join_loop-nil signers (some p) parts t e = ground arith

join_two-nil :
    (a x t : Signature) (rest : SignatureParts)
    → a.signers ≡ none ∷ rest
    → 0 < length x.signers
    → join_two a x ≢ ok t
unfolding join_two
join_two-nil a x t rest e h j =
    let (p, ps, ex) = cons_of_length x.signers h in
    let (parts, joined, out) = bind-ok (join_loop (a.signers ++ x.signers) x.signers) _ j in
    join_loop-nil (rest ++ (p ∷ ps)) p ps parts (rw (e, ex) at joined)

-- Joining never succeeds when the first two signatures have parts.
pub join_signatures-ne-ok :
    (s x : Signature) (xs : List Signature) (t : Signature)
    → 0 < length s.signers
    → 0 < length x.signers
    → join_signatures (s ∷ x ∷ xs) ≢ ok t
unfolding join_signatures join_all
join_signatures-ne-ok s x xs t hs hx e =
    let (a, copied, rest) = bind-ok (copy s) _ e in
    let (a', joined, rest') = bind-ok (join_two a x) _ rest in
    let (parts, starts) = copy-nil s hs copied in join_two-nil a x a' parts starts hx joined
