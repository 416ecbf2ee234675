-- ===== src/Wallet/Sign/Valid.antt =====
-- `SignDigest` of a wallet that is not deployed, and `IsValidSignature`.
use go_sequence.Base.{
  ℕ, ◌^◌, ◌<◌, ◌≡◌, refl, subst, List, [], ◌∷◌, ◌++◌, Option, none, some, true, ◌==◌, Bool-cases,
  inl, inr, length, length-append, All, All-append, arith,
}
use go_sequence.Base.Bytes.{Bytes, IsByte}
use go_sequence.Base.Result.{Error, ok, err}
use go_sequence.Ethkit.{Ethkit, Provider, Address, IsAddress, IsDocumented}
use go_sequence.Config.{WalletConfigSigner, WalletConfigSigners, address_from_wallet_config}
use go_sequence.Digest.{Hash}
use go_sequence.Digest.SubDigest.{sub_digest-keccak256}
use go_sequence.Signature.{SignaturePart, SignatureParts, Signature}
use go_sequence.Signature.Codec.Layout.{eoa, address_part}
use go_sequence.Signature.Recover.Signed.{IsSignatureBy, recover_one-signed, recover_one-unsigned}
use go_sequence.Signature.Validity.{is_valid_signature}
use go_sequence.Signature.Validity.Signed.{IsSigned, AreSigned, is_valid_signature-AreSigned}
use go_sequence.Signature.Validity.Unsigned.{IsSignerInRange, IsConfigInRange}
use go_sequence.Wallet.{Wallet, Signer, get_signer}
use go_sequence.Wallet.Sign.{sign_part, sign_loop, sign_digest, signing_chain_id}

-- Signers sign every message.
abbrev pub IsSigning : Ethkit → Signer → Type 0
IsSigning k signer =
    (msg : Bytes)
    → (sig : Bytes) × (signer.sign_message msg ≡ ok sig) × IsSignatureBy k signer.address msg sig

get_signer-address :
    (signers : List Signer) (a : Address) {s : Signer}
    → get_signer signers a ≡ some s
    → s.address ≡ a
unfolding get_signer
get_signer-address [] a e = cc
get_signer-address (t ∷ signers) a e = elim (Bool-cases (t.address == a)) [
  | inl y ↦ same_address t a (rw y at e) y
  | inr n ↦ get_signer-address signers a (rw n at e)
]
  where
    same_address :
        (t : Signer) (a : Address) {s : Signer}
        → some t ≡ some s
        → (t.address == a) ≡ true
        → s.address ≡ a
    same_address t a {s} e y =
        let same_signer : t ≡ s = cc in subst (λ s. s.address ≡ a) same_signer (ground arith)

get_signer-All :
    (P : Signer → Type 0) (signers : List Signer) (a : Address) {s : Signer}
    → All P signers
    → get_signer signers a ≡ some s
    → P s
unfolding get_signer
get_signer-All P [] a h e = cc
get_signer-All P (t ∷ signers) a {s} h e = elim (Bool-cases (t.address == a)) [
  | inl y ↦
      let found : some t ≡ some s = rw y at e in
      let same_signer : t ≡ s = cc in subst P same_signer h.0
  | inr n ↦ get_signer-All P signers a h.1 (rw n at e)
]

module _ (k : Ethkit) where
  sign_part-IsSigned :
      (msg : Bytes) (info : WalletConfigSigner) (signer : Option Signer)
      → IsSignerInRange info
      → ((s : Signer) → signer ≡ some s → (s.address ≡ info.address) × IsSigning k s)
      → (p : SignaturePart) × (sign_part msg info signer ≡ ok p) × IsSigned k msg info p
  unfolding sign_part
  sign_part-IsSigned msg info none range known = (
    _,
    refl,
    record {
      encodable = address_part refl range.0 range.1;
      part = _;
      recovers = recover_one-unsigned k _ msg refl;
      same_weight = refl;
      same_address = refl;
    },
  )
  sign_part-IsSigned msg info (some s) range known =
      let (same, signs) = known s refl in
      let (v, e, h) = signs msg in
      let l : length (v ++ (2 ∷ [])) ≡ 66 = omega (arith, length-append v (2 ∷ []), h.length_65) in
      (
        record { weight = info.weight; address = s.address; type = 0; value = v ++ (2 ∷ []) },
        rw e,
        record {
          encodable =
              eoa refl range.0 l (All-append IsByte v (2 ∷ []) h.bytes_in_range (omega arith, tt));
          part = record {
            weight = info.weight;
            address = s.address;
            type = 0;
            value = v ++ (2 ∷ []);
          };
          recovers = recover_one-signed k _ s.address msg v h refl refl;
          same_weight = refl;
          same_address = same;
        },
      )

  sign_loop-AreSigned :
      (msg : Bytes) (signers : List Signer) (infos : WalletConfigSigners)
      → All (IsSigning k) signers
      → All IsSignerInRange infos
      → (parts : SignatureParts) × (sign_loop msg signers infos ≡ ok parts)
        × AreSigned k msg infos parts
  unfolding sign_loop
  sign_loop-AreSigned msg signers [] signing range = ([], refl, tt)
  sign_loop-AreSigned msg signers (info ∷ infos) signing range =
      let (p, e1, h1) =
        sign_part-IsSigned msg info (get_signer signers info.address) range.0 (λ s found. (
          get_signer-address signers info.address found,
          get_signer-All (IsSigning k) signers info.address signing found,
        )) in
      let (parts, e2, h2) = sign_loop-AreSigned msg signers infos signing range.1 in
      (some p ∷ parts, rw (e1, e2), (h1, h2))

  -- Let the address of a wallet follow from its configuration, let the wallet have no code on its
  -- chain, and let its signers sign. Then `SignDigest` returns a signature of every digest, whichever
  -- signers of the configuration the wallet has, and `IsValidSignature` accepts it, unless
  -- `IsValid191Signature` decides before.
  pub is_valid_signature-sign_digest :
      (w : Wallet) (provider : Provider) (chain_id : ℕ) (digest : Hash) (e : Error)
      → IsDocumented k
      → IsConfigInRange w.config
      → IsAddress w.address
      → chain_id < 2 ^ 256
      → w.chain_id ≡ some chain_id
      → All (IsSigning k) w.signers
      → address_from_wallet_config k w.config w.context ≡ ok w.address
      → provider.code_at w.address ≡ ok []
      → ((sig : Bytes) → k.is_valid_191_signature w.address digest sig ≡ err e)
      → (signed : Bytes × Signature) × (sign_digest k w digest [] ≡ ok signed)
        × (is_valid_signature k w.address digest signed.0 w.context w.chain_id provider ≡ ok true)
  unfolding sign_digest signing_chain_id
  is_valid_signature-sign_digest w provider chain_id digest e d range small fits known signing
        derived bare undecided =
      let packed = sub_digest-keccak256 k chain_id w.address digest d fits small in
      let (parts, looped, signed) =
        sign_loop-AreSigned _ w.signers w.config.signers signing range.signers_fit in
      let (sig, encoded, valid) =
        is_valid_signature-AreSigned k w.config w.context w.address provider chain_id digest _ parts
          e d range.threshold_fits packed signed derived bare undecided in
      (
        (sig, record { threshold = w.config.threshold; signers = parts }),
        rw (known, packed, looped, encoded),
        rw known valid,
      )
