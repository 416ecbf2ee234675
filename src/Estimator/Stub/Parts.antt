-- ===== src/Estimator/Stub/Parts.antt =====
-- The parts of a stub signature.
use go_sequence.Base.{
  ℕ, suc, ◌+◌, ◌<◌, ◌≡◌, refl, List, [], ◌∷◌, ◌++◌, map, some, Bool, true, false, ◌&&◌, Bool-cases,
  ltb, ltb→lt, ==_ne, inl, inr, ◌==◌, if◌then◌else◌, length, length-append, All, All-append, arith,
}
use go_sequence.Base.Bytes.{Bytes, IsByte}
use go_sequence.Base.Result.{Result, ok}
use go_sequence.Config.{WalletConfigSigner, WalletConfigSigners}
use go_sequence.Signature.{SignaturePart, SignatureParts}
use go_sequence.Signature.Codec.Layout.{
  keep, eoa, address_part, dynamic, IsEncodable, IsEncodablePart,
}
use go_sequence.Signature.Codec.RoundTrip.{keep_part}
use go_sequence.Signature.Weight.{signed_weight}
use go_sequence.Signature.Validity.Unsigned.{IsSignerInRange}
use go_sequence.Estimator.Picked.{signing_weight}
use go_sequence.Estimator.Stub.{stub_sig, eoa_part, dynamic_part, address_only, stub_parts}

-- The bytes of a nested stub signature.
abbrev pub IsNested : Bytes → Type 0
IsNested sig = (length sig < 1000) × All IsByte sig

abbrev are_bytes : Bytes → Bool
are_bytes [] = true
are_bytes (b ∷ bs) = ltb b 256 && are_bytes bs

are_bytes-IsByte : (bs : Bytes) → are_bytes bs ≡ true → All IsByte bs
are_bytes-IsByte [] h = tt
are_bytes-IsByte (b ∷ bs) h = elim (Bool-cases (ltb b 256)) [
  | inl y ↦ (ltb→lt b 256 y, are_bytes-IsByte bs (rw y at h))
  | inr n ↦ let impossible : false ≡ true = rw n at h in cc
]

stub_sig-IsByte : All IsByte stub_sig
stub_sig-IsByte = are_bytes-IsByte stub_sig refl

-- Two parts with the constant as their value.
abbrev signed_twice : Bytes
signed_twice = (0 ∷ 1 ∷ stub_sig) ++ (0 ∷ 1 ∷ stub_sig)

signed_twice-IsByte : All IsByte signed_twice
signed_twice-IsByte = are_bytes-IsByte signed_twice refl

pub IsNested-append :
    (xs a : Bytes)
    → length xs ≡ 2
    → length a ≡ 20
    → All IsByte xs
    → All IsByte a
    → IsNested (xs ++ (1 ∷ 1 ∷ (a ++ signed_twice)))
IsNested-append xs a l l' h h' = (
  omega
      (arith, length-append xs (1 ∷ 1 ∷ (a ++ signed_twice)), length-append a signed_twice, l, l'),
  All-append IsByte xs _ h
      (omega arith, (omega arith, All-append IsByte a signed_twice h' signed_twice-IsByte)),
)

dynamic_part-IsEncodable :
    (s : WalletConfigSigner) (sig : Bytes)
    → IsSignerInRange s
    → IsNested sig
    → IsEncodable (dynamic_part s sig)
unfolding dynamic_part
dynamic_part-IsEncodable s sig range nested =
    dynamic refl range.0 range.1 (omega (arith, length-append sig (3 ∷ []), nested.0))
      (All-append IsByte sig (3 ∷ []) nested.1 (omega arith, tt))

pub eoa_part-IsEncodable : (s : WalletConfigSigner) → IsSignerInRange s → IsEncodable (eoa_part s)
unfolding eoa_part
eoa_part-IsEncodable s range = eoa refl range.0 refl stub_sig-IsByte

pub address_only-IsEncodable :
    (s : WalletConfigSigner) → IsSignerInRange s → IsEncodable (address_only s)
unfolding address_only
address_only-IsEncodable s range = address_part refl range.0 range.1

-- What a part counts for when it is decoded.
abbrev counted : SignaturePart → ℕ
counted p = if length (keep p).value == 0 then 0 else (keep p).weight

counted-eoa_part : (s : WalletConfigSigner) → counted (eoa_part s) ≡ s.weight
unfolding eoa_part
counted-eoa_part s = refl

counted-address_only : (s : WalletConfigSigner) → counted (address_only s) ≡ 0
unfolding address_only
counted-address_only s = refl

counted-dynamic_part :
    (s : WalletConfigSigner) (sig : Bytes) → counted (dynamic_part s sig) ≡ s.weight
unfolding dynamic_part
counted-dynamic_part s [] = refl
counted-dynamic_part s (b ∷ sig) =
    rw (==_ne (suc (length (sig ++ (3 ∷ [])))) 0 (λ e. absurd (omega arith))) refl

-- The parts, and what is known of them.
pub record ArePartsOf (signers : WalletConfigSigners) (will_sign : List Bool)
    (r : Result SignatureParts) : Type 0 where
  pub parts : SignatureParts
  pub built : r ≡ ok parts
  pub encodable : All IsEncodablePart parts
  pub weighs : signed_weight (map keep_part parts) ≡ signing_weight signers will_sign

module _ (nested : ℕ → Result Bytes)
    (h : (i : ℕ) → (sig : Bytes) × (nested i ≡ ok sig) × IsNested sig) where
  pub stub_parts-ArePartsOf :
      (i : ℕ) (signers : WalletConfigSigners) (will_sign is_eoa : List Bool)
      → All IsSignerInRange signers
      → length will_sign ≡ length signers
      → length is_eoa ≡ length signers
      → ArePartsOf signers will_sign (stub_parts nested i signers will_sign is_eoa)
  unfolding stub_parts
  stub_parts-ArePartsOf i [] will_sign is_eoa range l l' = record {
    parts = [];
    built = refl;
    encodable = tt;
    weighs = refl;
  }
  stub_parts-ArePartsOf i (s ∷ signers) [] is_eoa range l l' = absurd (omega arith)
  stub_parts-ArePartsOf i (s ∷ signers) (w ∷ will_sign) [] range l l' = absurd (omega arith)
  stub_parts-ArePartsOf i (s ∷ signers) (false ∷ will_sign) (e ∷ is_eoa) range l l' =
      let rest =
        stub_parts-ArePartsOf (i + 1) signers will_sign is_eoa range.1 (omega arith)
          (omega arith) in
      record {
        parts = some (address_only s) ∷ rest.parts;
        built = rw rest.built refl;
        encodable = (address_only-IsEncodable s range.0, rest.encodable);
        weighs = rw (counted-address_only s, rest.weighs) refl;
      }
  stub_parts-ArePartsOf i (s ∷ signers) (true ∷ will_sign) (true ∷ is_eoa) range l l' =
      let rest =
        stub_parts-ArePartsOf (i + 1) signers will_sign is_eoa range.1 (omega arith)
          (omega arith) in
      record {
        parts = some (eoa_part s) ∷ rest.parts;
        built = rw rest.built refl;
        encodable = (eoa_part-IsEncodable s range.0, rest.encodable);
        weighs = rw (counted-eoa_part s, rest.weighs) refl;
      }
  stub_parts-ArePartsOf i (s ∷ signers) (true ∷ will_sign) (false ∷ is_eoa) range l l' =
      let rest =
        stub_parts-ArePartsOf (i + 1) signers will_sign is_eoa range.1 (omega arith)
          (omega arith) in
      let (sig, built, n) = h i in
      record {
        parts = some (dynamic_part s sig) ∷ rest.parts;
        built = rw (built, rest.built) refl;
        encodable = (dynamic_part-IsEncodable s sig range.0 n, rest.encodable);
        weighs = rw (counted-dynamic_part s sig, rest.weighs) refl;
      }
