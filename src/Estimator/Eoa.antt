-- ===== src/Estimator/Eoa.antt =====
-- `isEOA` of estimator.go: whether an address is without code, behind a cache that all estimates share.
-- The store is github.com/goware/cachestore and the text of a key is made by fmt: both are parameters.
pub mod Fresh
mod Examples
use go_sequence.Base.{
  ℕ, ◌≡◌, ◌⊎◌, List, [], ◌∷◌, Option, none, some, Bool, true, false, ◌==◌, if◌then◌else◌, length,
}
use go_sequence.Base.Bytes.{Bytes}
use go_sequence.Base.Result.{Result, ok, err, panic, out_of_fuel}
use go_sequence.Ethkit.{Address, Provider}

-- `cachestore.Store[[]byte]`, less the errors, which the code ignores. A look-up can change the store.
pub record CacheStore (S : Type 0) : Type 0 where
  pub empty : S
  pub get : S → Bytes → Option Bytes × S
  pub set : S → Bytes → Bytes → S
  -- `fmt.Sprintf("isEOA::%d::%v", …)`
  pub key : ℕ → Address → Bytes

-- A store keeps what was set last or forgets it, and the keys of different addresses, and of an address
-- on different chains, are different.
pub record IsCacheStore {S : Type 0} (store : CacheStore S) : Type 0 where
  pub empty-get : (key : Bytes) → (store.get store.empty key).0 ≡ none
  pub get-get :
      (s : S) (key key' : Bytes) (v : Bytes)
      → (store.get (store.get s key).1 key').0 ≡ some v
      → (store.get s key').0 ≡ some v
  pub set-get :
      (s : S) (key key' : Bytes) (v w : Bytes)
      → (store.get (store.set s key v) key').0 ≡ some w
      → ((key' ≡ key) × (w ≡ v)) ⊎ ((store.get s key').0 ≡ some w)
  pub key-inj : (c c' : ℕ) (a a' : Address) → store.key c a ≡ store.key c' a' → (c ≡ c') × (a ≡ a')

abbrev pub cached_true : ℕ
cached_true = 116

abbrev pub cached_false : ℕ
cached_false = 102

-- `val[0] == cachedTrue`
unfoldable pub cached_answer : Bytes → Result Bool
cached_answer [] = panic
cached_answer (b ∷ val) = ok (b == cached_true)

module _ {S : Type 0} (store : CacheStore S) where
  -- What follows `CodeAt`.
  unfoldable pub remember : Bytes → Result Bytes → S → Result Bool × S
  remember key (ok code) s =
      if length code == 0
      then (ok true, store.set s key (cached_true ∷ []))
      else (ok false, store.set s key (cached_false ∷ []))
  remember key (err e) s = (err e, s)
  remember key panic s = (panic, s)
  remember key out_of_fuel s = (out_of_fuel, s)

  -- What follows the look-up in the cache.
  unfoldable pub answer : Bytes → Result Bytes → Option Bytes × S → Result Bool × S
  answer key code (some val, s) = (cached_answer val, s)
  answer key code (none, s) = remember key code s

  -- What follows `ChainID`.
  unfoldable pub is_eoa_on : Provider → Address → Result ℕ → S → Result Bool × S
  is_eoa_on provider a (ok chain_id) s =
      answer (store.key chain_id a) (provider.code_at a) (store.get s (store.key chain_id a))
  is_eoa_on provider a (err e) s = (err e, s)
  is_eoa_on provider a panic s = (panic, s)
  is_eoa_on provider a out_of_fuel s = (out_of_fuel, s)

  -- `isEOA`
  unfoldable pub is_eoa : Provider → Address → S → Result Bool × S
  is_eoa provider a s = is_eoa_on provider a provider.chain_id s

  -- Calls one after the other, on the same cache.
  unfoldable pub is_eoas : List (Provider × Address) → S → List (Result Bool) × S
  is_eoas [] s = ([], s)
  is_eoas ((provider, a) ∷ calls) s =
      let (r, s) = is_eoa provider a s in let (rs, s) = is_eoas calls s in (r ∷ rs, s)
