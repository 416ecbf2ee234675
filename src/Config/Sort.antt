-- ===== src/Config/Sort.antt =====
-- `SortWalletConfig` sorts the signers by address and refuses a signer that stands twice.
use mathlib.Core.List.{Perm}
use mathlib.Core.List.Perm
use go_sequence.Base.{
  ◌≤◌, ◌<◌, ◌≡◌, ◌≢◌, refl, sym, subst, ==_ne, [], ◌∷◌, ltb, false, Bool-cases, inl, inr, All,
  arith,
}
use go_sequence.Base.Result.{ok}
use go_sequence.Config.{
  WalletConfig, WalletConfigSigner, WalletConfigSigners, insert_signer, sort_signers, has_duplicate,
  sort_wallet_config,
}

-- Sorted by address.
abbrev IsSorted : WalletConfigSigners → Type 0
IsSorted [] = Unit
IsSorted (s ∷ signers) = All (λ t. s.address ≤ t.address) signers × IsSorted signers

-- Sorted by address, each address once.
abbrev pub IsAscending : WalletConfigSigners → Type 0
IsAscending [] = Unit
IsAscending (s ∷ signers) = All (λ t. s.address < t.address) signers × IsAscending signers

-- No two signers have the same address.
abbrev pub IsDistinct : WalletConfigSigners → Type 0
IsDistinct [] = Unit
IsDistinct (s ∷ signers) = All (λ t. s.address ≢ t.address) signers × IsDistinct signers

module _ (P : WalletConfigSigner → Type 0) where
  insert_signer-All :
      (s : WalletConfigSigner) (signers : WalletConfigSigners)
      → P s
      → All P signers
      → All P (insert_signer s signers)
  unfolding insert_signer
  insert_signer-All s [] p h = (p, tt)
  insert_signer-All s (t ∷ signers) p h = elim (Bool-cases (ltb t.address s.address)) [
    | inl e ↦ rw e (h.0, insert_signer-All s signers p h.1)
    | inr e ↦ rw e (p, h)
  ]

  All-mono :
      (Q : WalletConfigSigner → Type 0) (signers : WalletConfigSigners)
      → ((t : WalletConfigSigner) → P t → Q t)
      → All P signers
      → All Q signers
  All-mono Q [] f h = tt
  All-mono Q (t ∷ signers) f h = (f t h.0, All-mono Q signers f h.1)

insert_signer-IsSorted :
    (s : WalletConfigSigner) (signers : WalletConfigSigners)
    → IsSorted signers
    → IsSorted (insert_signer s signers)
unfolding insert_signer
insert_signer-IsSorted s [] h = (tt, tt)
insert_signer-IsSorted s (t ∷ signers) h = elim (Bool-cases (ltb t.address s.address)) [
  | inl e ↦ rw e (
    insert_signer-All (λ u. t.address ≤ u.address) s signers (ground arith) h.0,
    insert_signer-IsSorted s signers h.1,
  )
  | inr e ↦
      let le : s.address ≤ t.address = ground arith in
      rw e ((le, All-mono (λ u. t.address ≤ u.address) _ signers (λ u q. omega arith) h.0), h)
]

sort_signers-IsSorted : (signers : WalletConfigSigners) → IsSorted (sort_signers signers)
unfolding sort_signers
sort_signers-IsSorted [] = tt
sort_signers-IsSorted (s ∷ signers) =
    insert_signer-IsSorted s (sort_signers signers) (sort_signers-IsSorted signers)

insert_signer-perm :
    (s : WalletConfigSigner) (signers : WalletConfigSigners)
    → Perm (insert_signer s signers) (s ∷ signers)
unfolding insert_signer
insert_signer-perm s [] = Perm.refl (s ∷ [])
insert_signer-perm s (t ∷ signers) = elim (Bool-cases (ltb t.address s.address)) [
  | inl e ↦ rw e (Perm.trans (Perm.cons t (insert_signer-perm s signers)) (Perm.swap s t signers))
  | inr e ↦ rw e (Perm.refl (s ∷ t ∷ signers))
]

sort_signers-perm : (signers : WalletConfigSigners) → Perm (sort_signers signers) signers
unfolding sort_signers
sort_signers-perm [] = Perm.refl []
sort_signers-perm (s ∷ signers) =
    Perm.trans (insert_signer-perm s (sort_signers signers))
      (Perm.cons s (sort_signers-perm signers))

has_duplicate-IsAscending :
    (signers : WalletConfigSigners)
    → IsSorted signers
    → has_duplicate signers ≡ false
    → IsAscending signers
unfolding has_duplicate
has_duplicate-IsAscending [] h e = tt
has_duplicate-IsAscending (s ∷ []) h e = (tt, tt)
has_duplicate-IsAscending (s ∷ t ∷ signers) h e =
    let lt : s.address < t.address = ground arith in
    let more : has_duplicate (t ∷ signers) ≡ false = ground arith in
    (
      (lt, All-mono (λ u. t.address ≤ u.address) _ signers (λ u q. omega arith) h.1.0),
      has_duplicate-IsAscending (t ∷ signers) h.1 more,
    )

insert_signer_first :
    (s : WalletConfigSigner) (signers : WalletConfigSigners)
    → All (λ t. s.address ≤ t.address) signers
    → insert_signer s signers ≡ s ∷ signers
unfolding insert_signer
insert_signer_first s [] h = refl
insert_signer_first s (t ∷ signers) h = ground arith

sort_signers_sorted :
    (signers : WalletConfigSigners) → IsSorted signers → sort_signers signers ≡ signers
unfolding sort_signers
sort_signers_sorted [] h = refl
sort_signers_sorted (s ∷ signers) h =
    rw (sort_signers_sorted signers h.1) (insert_signer_first s signers h.0)

-- When `SortWalletConfig` succeeds, the threshold is as before, and the signers are those of before,
-- in rising order of their addresses, each address once.
pub sort_wallet_config_sound :
    (c : WalletConfig) {c' : WalletConfig}
    → sort_wallet_config c ≡ ok c'
    → (c'.threshold ≡ c.threshold) × IsAscending c'.signers × Perm c'.signers c.signers
unfolding sort_wallet_config
sort_wallet_config_sound c {c' = c'} e =
    elim (Bool-cases (has_duplicate (sort_signers c.signers))) [
      | inl d ↦ cc (rw d at e)
      | inr d ↦
          let same : record c { signers = sort_signers c.signers } ≡ c' = cc (rw d at e) in
          subst
            (λ r. (r.threshold ≡ c.threshold) × IsAscending r.signers × Perm r.signers c.signers)
            same
            (
              refl,
              has_duplicate-IsAscending (sort_signers c.signers) (sort_signers-IsSorted c.signers)
                  d,
              sort_signers-perm c.signers,
            )
    ]

insert_signer-IsDistinct :
    (s : WalletConfigSigner) (signers : WalletConfigSigners)
    → IsDistinct (s ∷ signers)
    → IsDistinct (insert_signer s signers)
unfolding insert_signer
insert_signer-IsDistinct s [] h = h
insert_signer-IsDistinct s (t ∷ signers) h = elim (Bool-cases (ltb t.address s.address)) [
  | inl e ↦ rw e (
    insert_signer-All (λ u. t.address ≢ u.address) s signers (λ q. h.0.0 (sym q)) h.1.0,
    insert_signer-IsDistinct s signers (h.0.1, h.1.1),
  )
  | inr e ↦ rw e h
]

sort_signers-All :
    (P : WalletConfigSigner → Type 0) (signers : WalletConfigSigners)
    → All P signers
    → All P (sort_signers signers)
unfolding sort_signers
sort_signers-All P [] h = tt
sort_signers-All P (s ∷ signers) h =
    insert_signer-All P s (sort_signers signers) h.0 (sort_signers-All P signers h.1)

sort_signers-IsDistinct :
    (signers : WalletConfigSigners) → IsDistinct signers → IsDistinct (sort_signers signers)
unfolding sort_signers
sort_signers-IsDistinct [] h = tt
sort_signers-IsDistinct (s ∷ signers) h =
    insert_signer-IsDistinct s (sort_signers signers) (
      sort_signers-All (λ t. s.address ≢ t.address) signers h.0,
      sort_signers-IsDistinct signers h.1,
    )

has_duplicate-IsDistinct :
    (signers : WalletConfigSigners) → IsDistinct signers → has_duplicate signers ≡ false
unfolding has_duplicate
has_duplicate-IsDistinct [] h = refl
has_duplicate-IsDistinct (s ∷ []) h = refl
has_duplicate-IsDistinct (s ∷ t ∷ signers) h =
    rw (==_ne s.address t.address h.0.0) (has_duplicate-IsDistinct (t ∷ signers) h.1)

-- `SortWalletConfig` succeeds on every configuration in which no two signers have the same address,
-- and a second sort changes nothing.
pub sort_wallet_config_complete :
    (c : WalletConfig)
    → IsDistinct c.signers
    → (c' : WalletConfig) × (sort_wallet_config c ≡ ok c') × (sort_wallet_config c' ≡ ok c')
unfolding sort_wallet_config
sort_wallet_config_complete c h =
    let sorted = sort_signers c.signers in
    let distinct = sort_signers-IsDistinct c.signers h in
    (
      record c { signers = sorted },
      rw (has_duplicate-IsDistinct sorted distinct),
      rw (
        sort_signers_sorted sorted (sort_signers-IsSorted c.signers),
        has_duplicate-IsDistinct sorted distinct,
      ),
    )
