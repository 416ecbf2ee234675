-- ===== src/Estimator/Eoa/Fresh.antt =====
-- The cache does not change what `isEOA` answers.
use go_sequence.Base.{
  ℕ, ◌≡◌, refl, sym, ap, ◌∙◌, subst, ◌⊎◌, inl, inr, List, [], ◌∷◌, Option, none, some, Bool,
  Bool-cases, ◌==◌, if◌then◌else◌, length, All,
}
use go_sequence.Base.Bytes.{Bytes}
use go_sequence.Base.Result.{Result, ok, err, panic, out_of_fuel, ◌>>=◌}
use go_sequence.Ethkit.{Address, Provider}
use go_sequence.Estimator.Eoa.{
  CacheStore, IsCacheStore, cached_true, cached_false, cached_answer, remember, answer, is_eoa_on,
  is_eoa, is_eoas,
}

-- `isEOA` without a cache.
abbrev pub is_eoa_uncached : Provider → Address → Result Bool
is_eoa_uncached provider a = do
  chain_id ← provider.chain_id
  code ← provider.code_at a
  ok (length code == 0)

-- A node whose answers are those of the chains: `code_of` is the code at each address of each chain.
abbrev pub IsHonest : (ℕ → Address → Bytes) → Provider × Address → Type 0
IsHonest code_of (provider, a) =
    (c : ℕ) (code : Bytes)
    → provider.chain_id ≡ ok c
    → provider.code_at a ≡ ok code
    → code ≡ code_of c a

-- The result is that of the call without a cache, or what is true of the chain though the node failed.
abbrev pub IsFresh : (ℕ → Address → Bytes) → Provider × Address → Result Bool → Type 0
IsFresh code_of (provider, a) r =
    (r ≡ is_eoa_uncached provider a)
    ⊎ ((c : ℕ) × (provider.chain_id ≡ ok c) × (r ≡ ok (length (code_of c a) == 0)))

abbrev pub AreFresh :
    (ℕ → Address → Bytes) → List (Provider × Address) → List (Result Bool) → Type 0
AreFresh code_of [] [] = Unit
AreFresh code_of (call ∷ calls) (r ∷ rs) = IsFresh code_of call r × AreFresh code_of calls rs
AreFresh code_of _ _ = ⊥

-- What the cache holds is true of the chains.
abbrev answer_of : Bytes → Bytes
answer_of code = (if length code == 0 then cached_true else cached_false) ∷ []

module _ {S : Type 0} (store : CacheStore S) (d : IsCacheStore store)
    (code_of : ℕ → Address → Bytes) where
  IsTrue : S → Type 0
  IsTrue s =
      (c : ℕ) (a : Address) (v : Bytes)
      → (store.get s (store.key c a)).0 ≡ some v
      → v ≡ answer_of (code_of c a)

  empty-IsTrue : IsTrue store.empty
  unfolding IsTrue
  empty-IsTrue c a v e = let absent = d.empty-get (store.key c a) in cc

  get-IsTrue : (s : S) (key : Bytes) → IsTrue s → IsTrue (store.get s key).1
  unfolding IsTrue
  get-IsTrue s key h c a v e = h c a v (d.get-get s key (store.key c a) v e)

  set-IsTrue :
      (s : S) (c : ℕ) (a : Address)
      → IsTrue s
      → IsTrue (store.set s (store.key c a) (answer_of (code_of c a)))
  unfolding IsTrue
  set-IsTrue s c a h c' a' v e = elim (d.set-get s _ (store.key c' a') _ v e) [
    | inl (same, w) ↦ let (x, y) = d.key-inj c' c a' a same in rw (x, y) w
    | inr old ↦ h c' a' v old
  ]

  cached_answer-answer_of : (code : Bytes) → cached_answer (answer_of code) ≡ ok (length code == 0)
  unfolding cached_answer
  cached_answer-answer_of code = elim (Bool-cases (length code == 0)) [
    | inl y ↦ rw y refl
    | inr n ↦ rw n refl
  ]

  remember-lem :
      (c : ℕ) (a : Address) (code : Bytes) (s : S)
      → code ≡ code_of c a
      → remember store (store.key c a) (ok code) s
        ≡ (ok (length code == 0), store.set s (store.key c a) (answer_of (code_of c a)))
  unfolding remember
  remember-lem c a code s e = elim (Bool-cases (length code == 0)) [
    | inl y ↦ rw (← e, y) refl
    | inr n ↦ rw (← e, n) refl
  ]

  -- A result that is fresh, with a cache that is true.
  abbrev IsSound : Provider × Address → Result Bool × S → Type 0
  IsSound call (r, s) = IsFresh code_of call r × IsTrue s

  remember-IsSound :
      (provider : Provider) (a : Address) (c : ℕ) (code : Result Bytes) (s : S)
      → IsHonest code_of (provider, a)
      → provider.chain_id ≡ ok c
      → provider.code_at a ≡ code
      → IsTrue s
      → IsSound (provider, a) (remember store (store.key c a) code s)
  unfolding remember
  remember-IsSound provider a c (ok code) s honest e e' h =
      subst (IsSound (provider, a)) (sym (remember-lem c a code s (honest c code e e')))
        (inl (rw (e, e') refl), set-IsTrue s c a h)
  remember-IsSound provider a c (err x) s honest e e' h = (inl (rw (e, e') refl), h)
  remember-IsSound provider a c panic s honest e e' h = (inl (rw (e, e') refl), h)
  remember-IsSound provider a c out_of_fuel s honest e e' h = (inl (rw (e, e') refl), h)

  answer-IsSound :
      (provider : Provider) (a : Address) (c : ℕ) (code : Result Bytes) (found : Option Bytes × S)
      → IsHonest code_of (provider, a)
      → provider.chain_id ≡ ok c
      → provider.code_at a ≡ code
      → ((v : Bytes) → found.0 ≡ some v → v ≡ answer_of (code_of c a))
      → IsTrue found.1
      → IsSound (provider, a) (answer store (store.key c a) code found)
  unfolding answer
  answer-IsSound provider a c code (none, s) honest e e' true' h =
      remember-IsSound provider a c code s honest e e' h
  answer-IsSound provider a c code (some val, s) honest e e' true' h =
      (inr (c, e, ap cached_answer (true' val refl) ∙ cached_answer-answer_of (code_of c a)), h)

  is_eoa_on-IsSound :
      (provider : Provider) (a : Address) (chain : Result ℕ) (s : S)
      → IsHonest code_of (provider, a)
      → provider.chain_id ≡ chain
      → IsTrue s
      → IsSound (provider, a) (is_eoa_on store provider a chain s)
  unfolding is_eoa_on IsTrue
  is_eoa_on-IsSound provider a (ok c) s honest e h =
      answer-IsSound provider a c (provider.code_at a) (store.get s (store.key c a)) honest e refl
        (h c a) (get-IsTrue s (store.key c a) h)
  is_eoa_on-IsSound provider a (err x) s honest e h = (inl (rw e refl), h)
  is_eoa_on-IsSound provider a panic s honest e h = (inl (rw e refl), h)
  is_eoa_on-IsSound provider a out_of_fuel s honest e h = (inl (rw e refl), h)

  is_eoas-AreFresh :
      (calls : List (Provider × Address)) (s : S)
      → All (IsHonest code_of) calls
      → IsTrue s
      → AreFresh code_of calls (is_eoas store calls s).0
  unfolding is_eoas is_eoa
  is_eoas-AreFresh [] s honest h = tt
  is_eoas-AreFresh ((provider, a) ∷ calls) s honest h =
      let (fresh, kept) = is_eoa_on-IsSound provider a provider.chain_id s honest.0 refl h in
      (fresh, is_eoas-AreFresh calls _ honest.1 kept)

-- However many calls go by, to whichever chains, the cache changes no answer: each call returns what it
-- returns without a cache, or, when the node fails to give the code, the truth all the same. The nodes
-- answer for chains on which the code at an address does not change.
pub is_eoas_fresh :
    {S : Type 0} (store : CacheStore S) (code_of : ℕ → Address → Bytes)
    (calls : List (Provider × Address))
    → IsCacheStore store
    → All (IsHonest code_of) calls
    → AreFresh code_of calls (is_eoas store calls store.empty).0
is_eoas_fresh store code_of calls d honest =
    is_eoas-AreFresh store d code_of calls store.empty honest (empty-IsTrue store d code_of)
