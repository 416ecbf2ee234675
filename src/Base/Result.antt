-- ===== src/Base/Result.antt =====
-- The outcome of a Go function that returns a value and an error, and postconditions on it.
use mathlib.Core.Path.{◌≡◌, refl, subst}
use mathlib.Core.Logic.{◌≢◌}
use Prim.Native.Nat.{ℕ}

-- The errors that the client makes itself, one for each message; `external` is an error that a
-- third-party call returned.
pub data Error : Type 0 where
  unknown_signer_type bad_signature_length signature_type_not_implemented : Error
  threshold_out_of_bounds signature_type_out_of_bounds weight_out_of_bounds : Error
  eoa_signature_out_of_bounds address_part_out_of_bounds dynamic_address_out_of_bounds : Error
  signature_size_out_of_bounds dynamic_signature_out_of_bounds unknown_part : Error
  non_recovered_signatures different_signed_messages no_signatures_provided : Error
  nonce_space_too_large nonce_too_large meta_txn_id_length : Error
  signer_duplicate threshold_zero threshold_above_weight unknown_chain_id : Error
  failed_to_validate invalid_signature validate_without_address eip712_not_implemented : Error
  calldata_and_execdata nonce_without_signature multiple_nonces nil_transaction : Error
  not_a_bundle bundle_with_calldata nonce_required unknown_exec_type : Error
  not_tx_failed not_nonce_change expected_nonce_change unexpected_events : Error
  empty_transactions provider_not_set relayer_not_set : Error
  not_a_call : Error
  cannot_deploy_universal_deployer cannot_deploy_contract transaction_failed : Error
  failed_to_deploy_stage_1 override_from estimate_failed wait_timeout deadline_exceeded : Error
  address_not_found : ℕ → Error
  external : ℕ → Error

-- `panic` is a Go run-time panic (a nil dereference, an index out of range). `out_of_fuel` has no
-- counterpart in the program.
pub data Result {ℓ} (A : Type ℓ) : Type ℓ where
  ok : A → Result A
  err : Error → Result A
  panic out_of_fuel : Result A

infixl 5 ◌>>=◌ ◌>>◌
abbrev pub ◌>>=◌ {ℓ κ} : {A : Type ℓ} {B : Type κ} → Result A → (A → Result B) → Result B
ok a >>= f = f a
err e >>= f = err e
panic >>= f = panic
out_of_fuel >>= f = out_of_fuel

abbrev pub ◌>>◌ {ℓ κ} : {A : Type ℓ} {B : Type κ} → Result A → Result B → Result B
m >> k = m >>= λ _. k

-- The call returns: a value with the property, or an error.
pub data Returns {ℓ κ} {A : Type ℓ} (P : A → Type κ) : Result A → Type (ℓ ⊔ κ) where
  value : {a : A} → P a → Returns P (ok a)
  error : (e : Error) → Returns P (err e)

module _ {ℓ κ} {A : Type ℓ} {P : A → Type κ} where
  pub Returns-ok : {r : Result A} {a : A} → Returns P r → r ≡ ok a → P a
  Returns-ok (value h) e = subst P (cc) h
  Returns-ok (error x) e = cc

  pub Returns-ne-panic : {r : Result A} → Returns P r → r ≢ panic
  Returns-ne-panic (value h) = cc
  Returns-ne-panic (error x) = cc

  pub Returns-ne-out_of_fuel : {r : Result A} → Returns P r → r ≢ out_of_fuel
  Returns-ne-out_of_fuel (value h) = cc
  Returns-ne-out_of_fuel (error x) = cc

  pub Returns-bind {ℓ' κ'} :
      {B : Type ℓ'} {Q : B → Type κ'} {r : Result A} {f : A → Result B}
      → Returns P r
      → ((a : A) → P a → Returns Q (f a))
      → Returns Q (r >>= f)
  Returns-bind (value {a} h) k = k a h
  Returns-bind (error e) k = error e

  pub Returns-map {κ'} :
      {Q : A → Type κ'} {r : Result A} → Returns P r → ((a : A) → P a → Q a) → Returns Q r
  Returns-map (value {a} h) k = value (k a h)
  Returns-map (error e) k = error e

-- A successful bind has a successful first part.
pub bind-ok {ℓ κ} :
    {A : Type ℓ} {B : Type κ} (r : Result A) (f : A → Result B) {b : B}
    → (r >>= f) ≡ ok b
    → (a : A) × (r ≡ ok a) × (f a ≡ ok b)
bind-ok (ok a) f e = (a, refl, e)
bind-ok (err x) f e = cc
bind-ok panic f e = cc
bind-ok out_of_fuel f e = cc

-- What holds of a value holds of every value that the same call returns.
pub ok-subst {ℓ κ} : {A : Type ℓ} (P : A → Type κ) {a b : A} → ok a ≡ ok b → P a → P b
ok-subst P {a} {b} e h = let same : a ≡ b = cc in subst P same h

-- The call comes to an end within the fuel.
abbrev pub Ends {ℓ} : {A : Type ℓ} → Result A → Type 0
Ends (ok a) = Unit
Ends (err e) = Unit
Ends panic = Unit
Ends out_of_fuel = ⊥

pub Ends-bind {ℓ κ} :
    {A : Type ℓ} {B : Type κ} (r : Result A) (f : A → Result B)
    → Ends r
    → ((a : A) → r ≡ ok a → Ends (f a))
    → Ends (r >>= f)
Ends-bind (ok a) f h k = k a refl
Ends-bind (err e) f h k = tt
Ends-bind panic f h k = tt
Ends-bind out_of_fuel f h k = h

pub Ends-ne-out_of_fuel {ℓ} : {A : Type ℓ} (r : Result A) → Ends r → r ≢ out_of_fuel
Ends-ne-out_of_fuel (ok a) h = cc
Ends-ne-out_of_fuel (err e) h = cc
Ends-ne-out_of_fuel panic h = cc
Ends-ne-out_of_fuel out_of_fuel h = absurd h

pub Returns-Ends {ℓ κ} : {A : Type ℓ} (P : A → Type κ) {r : Result A} → Returns P r → Ends r
Returns-Ends P (value h) = tt
Returns-Ends P (error e) = tt
