-- ===== src/Estimator/Eoa/Examples.antt =====
-- A cache that forgets nothing, and two calls of which the second is answered by the cache.
use go_sequence.Base.{
  ℕ, ◌≡◌, refl, ◌⊎◌, inl, inr, List, [], ◌∷◌, Option, none, some, true, false, Bool-cases, ◌==◌,
  if◌then◌else◌,
}
use go_sequence.Base.Bytes.{Bytes, bytes_equal, bytes_equal→eq}
use go_sequence.Base.Result.{ok, err, external}
use go_sequence.Ethkit.{Address, Provider}
use go_sequence.Estimator.Eoa.{
  CacheStore, IsCacheStore, cached_answer, remember, answer, is_eoa_on, is_eoa, is_eoas,
}
use go_sequence.Estimator.Eoa.Fresh.{AreFresh, is_eoas_fresh}

abbrev Entries : Type 0
Entries = List (Bytes × Bytes)

abbrev find_entry : Bytes → Entries → Option Bytes
find_entry key [] = none
find_entry key ((k, v) ∷ entries) = if bytes_equal k key then some v else find_entry key entries

abbrev entries_store : CacheStore Entries
entries_store = record {
  empty = [];
  get = λ s key. (find_entry key s, s);
  set = λ s key v. (key, v) ∷ s;
  key = λ c a. c ∷ a ∷ [];
}

find_entry-cons :
    (s : Entries) (key key' v w : Bytes)
    → find_entry key' ((key, v) ∷ s) ≡ some w
    → ((key' ≡ key) × (w ≡ v)) ⊎ (find_entry key' s ≡ some w)
find_entry-cons s key key' v w e = elim (Bool-cases (bytes_equal key key')) [
  | inl y ↦
      let same : key ≡ key' = bytes_equal→eq key key' y in
      let first : some v ≡ some w = rw y at e in inl (cc, cc)
  | inr n ↦ inr (rw n at e)
]

entries_store-IsCacheStore : IsCacheStore entries_store
entries_store-IsCacheStore = record {
  empty-get = λ key. refl;
  get-get = λ s key key' v e. e;
  set-get = find_entry-cons;
  key-inj = λ c c' a a' e. (cc, cc);
}

abbrev deployed_at_9 : ℕ → Address → Bytes
deployed_at_9 c a = if a == 9 then 1 ∷ [] else []

abbrev node : Provider
node = record {
  chain_id = ok 1;
  code_at = λ a. ok (deployed_at_9 1 a);
  is_valid_signature = λ a b c. err (external 0);
}

abbrev failing_node : Provider
failing_node = record node { code_at = λ a. err (external 0) }

abbrev calls : List (Provider × Address)
calls = (node, 9) ∷ (failing_node, 9) ∷ (failing_node, 8) ∷ (node, 8) ∷ []

answers : (is_eoas entries_store calls []).0 ≡ ok false ∷ ok false ∷ err (external 0) ∷ ok true ∷ []
unfolding is_eoas is_eoa is_eoa_on answer remember cached_answer bytes_equal
answers = refl

is_eoas_fresh_example :
    AreFresh deployed_at_9 calls (is_eoas entries_store calls entries_store.empty).0
is_eoas_fresh_example =
    is_eoas_fresh entries_store deployed_at_9 calls entries_store-IsCacheStore
      ((λ c code e e'. cc), ((λ c code e e'. cc), ((λ c code e e'. cc), ((λ c code e e'. cc), tt))))
