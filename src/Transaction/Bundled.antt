-- ===== src/Transaction/Bundled.antt =====
-- `Transactions.Nonce`: the one nonce of a bundle.
use go_sequence.Base.{
  ◌≡◌, ◌≢◌, refl, subst, ◌∙◌, sym, Option, none, some, Option-cases, inl, inr, true, Bool-cases,
  arith, ap, ◌⊎◌,
}
use go_sequence.Base.Int.{ℤ, pos, negsuc, equal_ℤ}
use go_sequence.Base.Result.{ok, err, multiple_nonces, ok-subst}
use go_sequence.Transaction.{
  Transaction, transaction, Transactions, end, absent, next, body, nonce_loop, bundle_nonce,
}

equal_ℤ-refl : (a : ℤ) → equal_ℤ a a ≡ true
equal_ℤ-refl (pos a) = ground arith
equal_ℤ-refl (negsuc a) = ground arith

equal_ℤ→≡ : (a b : ℤ) → equal_ℤ a b ≡ true → a ≡ b
equal_ℤ→≡ (pos a) (pos b) h = ap pos (ground arith)
equal_ℤ→≡ (negsuc a) (negsuc b) h = ap negsuc (ground arith)
equal_ℤ→≡ (pos a) (negsuc b) h = cc
equal_ℤ→≡ (negsuc a) (pos b) h = cc

-- Every transaction has the nonce or none, and no pointer is nil.
abbrev pub HaveNonce : ℤ → Transactions → Type 0
HaveNonce n end = Unit
HaveNonce n (absent ts) = ⊥
HaveNonce n (next t ts) = (((body t).nonce ≡ none) ⊎ ((body t).nonce ≡ some n)) × HaveNonce n ts

-- No transaction has a nonce.
abbrev pub HaveNoNonce : Transactions → Type 0
HaveNoNonce end = Unit
HaveNoNonce (absent ts) = ⊥
HaveNoNonce (next t ts) = ((body t).nonce ≡ none) × HaveNoNonce ts

-- What a candidate says of the transactions that are left.
abbrev pub Agrees : Option ℤ → Transactions → Type 0
Agrees none ts = HaveNoNonce ts
Agrees (some n) ts = HaveNonce n ts

Agrees-next :
    (found : Option ℤ) (t : Transaction) (ts : Transactions)
    → (body t).nonce ≡ none
    → Agrees found ts
    → Agrees found (next t ts)
Agrees-next none t ts e h = (e, h)
Agrees-next (some n) t ts e h = (inl e, h)

err_ne_ok : {found : Option ℤ} → err multiple_nonces ≢ ok found
err_ne_ok = cc

nonce_loop-HaveNonce :
    (m : ℤ) (ts : Transactions) {found : Option ℤ}
    → nonce_loop (some m) ts ≡ ok found
    → (found ≡ some m) × HaveNonce m ts
unfolding nonce_loop
nonce_loop-HaveNonce m end h = ok-subst (λ found. (found ≡ some m) × Unit) h (refl, tt)
nonce_loop-HaveNonce m (absent ts) h = cc
nonce_loop-HaveNonce m (next (transaction b c) ts) h = elim (Option-cases b.nonce) [
  | inl e ↦
      let (same, rest) = nonce_loop-HaveNonce m ts (rw (e, nonce_loop) at h) in
      (same, (inl e, rest))
  | inr (n, e) ↦ elim (Bool-cases (equal_ℤ m n)) [
    | inl y ↦
        let (same, rest) = nonce_loop-HaveNonce m ts (rw (e, y, nonce_loop) at h) in
        (same, (inr (e ∙ ap some (sym (equal_ℤ→≡ m n y))), rest))
    | inr y ↦ absurd (err_ne_ok (rw (e, y) at h))
  ]
]

-- When `Nonce` returns a nonce, every transaction has this one or none; when it returns nil, none has.
pub bundle_nonce-Agrees :
    (ts : Transactions) {found : Option ℤ} → bundle_nonce ts ≡ ok found → Agrees found ts
unfolding bundle_nonce nonce_loop
bundle_nonce-Agrees end h = ok-subst (λ found. Agrees found end) h tt
bundle_nonce-Agrees (absent ts) h = cc
bundle_nonce-Agrees (next (transaction b c) ts) {found} h = elim (Option-cases b.nonce) [
  | inl e ↦ Agrees-next found (transaction b c) ts e (bundle_nonce-Agrees ts (rw e at h))
  | inr (n, e) ↦
      let (same, rest) = nonce_loop-HaveNonce n ts (rw e at h) in
      subst (λ found. Agrees found (next (transaction b c) ts)) (sym same) (inr e, rest)
]
