-- ===== src/Signature/Validity/Unsigned.antt =====
-- `IsValidSignature` of signature.go on signatures without a signer, for a wallet that is not deployed.
use go_sequence.Base.{
  ℕ, ◌^◌, ◌<◌, ◌≡◌, refl, subst, [], ◌∷◌, map, Option, none, some, true, ==_refl, All,
}
use go_sequence.Base.Bytes.{Bytes}
use go_sequence.Base.Result.{Error, ok, err}
use go_sequence.Ethkit.{Ethkit, Provider, Address, IsAddress, IsDocumented}
use go_sequence.Network.{WalletContext}
use go_sequence.Config.{
  WalletConfig, WalletConfigSigner, WalletConfigSigners, address_from_wallet_config,
}
use go_sequence.Digest.{Hash}
use go_sequence.Digest.SubDigest.{sub_digest-keccak256}
use go_sequence.Signature.{SignaturePart, Signature, part_type_address}
use go_sequence.Signature.Codec.{encode, decode_signature}
use go_sequence.Signature.Codec.Layout.{address_part, IsEncodablePart}
use go_sequence.Signature.Codec.RoundTrip.{keep_part, keep_signature, decode_signature-encode}
use go_sequence.Signature.Recover.Kept.{IsUnsigned, recover-unsigned}
use go_sequence.Signature.Validity.{
  config_signers, recover_wallet_config, validate_counterfactual, validate_by_code,
  is_valid_signature,
}

-- A part that names a signer and carries no signature.
abbrev pub unsigned_part : WalletConfigSigner → Option SignaturePart
unsigned_part s =
    some (record { weight = s.weight; address = s.address; type = part_type_address; value = [] })

abbrev pub unsigned : WalletConfig → Signature
unsigned c = record { threshold = c.threshold; signers = map unsigned_part c.signers }

-- The fields have the ranges of their types.
abbrev pub IsSignerInRange : WalletConfigSigner → Type 0
IsSignerInRange s = (s.weight < 2 ^ 8) × IsAddress s.address

pub record IsConfigInRange (c : WalletConfig) : Type 0 where
  pub threshold_fits : c.threshold < 2 ^ 16
  pub signers_fit : All IsSignerInRange c.signers

unsigned-parts :
    (signers : WalletConfigSigners)
    → All IsSignerInRange signers
    → All IsEncodablePart (map unsigned_part signers)
unsigned-parts [] h = tt
unsigned-parts (s ∷ signers) h = (address_part refl h.0.0 h.0.1, unsigned-parts signers h.1)

unsigned_part-IsUnsigned :
    (signers : WalletConfigSigners) → All IsUnsigned (map unsigned_part signers)
unsigned_part-IsUnsigned [] = tt
unsigned_part-IsUnsigned (s ∷ signers) = (refl, unsigned_part-IsUnsigned signers)

keep-unsigned :
    (signers : WalletConfigSigners)
    → map keep_part (map unsigned_part signers) ≡ map unsigned_part signers
keep-unsigned [] = refl
keep-unsigned (s ∷ signers) = rw (keep-unsigned signers)

config_signers-unsigned :
    (signers : WalletConfigSigners) → config_signers (map unsigned_part signers) ≡ ok signers
unfolding config_signers
config_signers-unsigned [] = refl
config_signers-unsigned (s ∷ signers) = rw (config_signers-unsigned signers)

module _ (k : Ethkit) where
  recover_wallet_config-unsigned :
      (c : WalletConfig) (msg sig : Bytes)
      → decode_signature k sig ≡ ok (keep_signature (unsigned c))
      → recover_wallet_config k msg sig none ≡ ok c
  unfolding recover_wallet_config
  recover_wallet_config-unsigned c msg sig e = rw (
    e,
    keep-unsigned c.signers,
    recover-unsigned k msg (unsigned c) none (unsigned_part-IsUnsigned c.signers),
    config_signers-unsigned c.signers,
  )

  decode_unsigned :
      (c : WalletConfig) {sig : Bytes}
      → IsDocumented k
      → IsConfigInRange c
      → encode k (unsigned c) ≡ ok sig
      → decode_signature k sig ≡ ok (keep_signature (unsigned c))
  decode_unsigned c {sig} d range e =
      let (b, encoded, decoded) = decode_signature-encode k (unsigned c) d (record {
        threshold_fits = range.threshold_fits;
        parts = unsigned-parts c.signers range.signers_fit;
      }) in
      let same : b ≡ sig = cc in
      subst (λ x. decode_signature k x ≡ ok (keep_signature (unsigned c))) same decoded

  -- Let a wallet's address follow from its configuration, and let it have no code on the chain. Then
  -- the encoding of the configuration with no signature at all, which everybody who knows the
  -- configuration can write, is a valid signature of every digest, unless `IsValid191Signature`
  -- decides before.
  pub is_valid_signature-unsigned :
      (c : WalletConfig) (context : WalletContext) (wallet : Address) (provider : Provider)
      (chain_id : ℕ) (digest : Hash) (sig : Bytes) (e : Error)
      → IsDocumented k
      → IsConfigInRange c
      → IsAddress wallet
      → chain_id < 2 ^ 256
      → address_from_wallet_config k c context ≡ ok wallet
      → provider.code_at wallet ≡ ok []
      → encode k (unsigned c) ≡ ok sig
      → k.is_valid_191_signature wallet digest sig ≡ err e
      → is_valid_signature k wallet digest sig context (some chain_id) provider ≡ ok true
  unfolding is_valid_signature validate_by_code validate_counterfactual
  is_valid_signature-unsigned c context wallet provider chain_id digest sig e d range small fits
        derived bare encoded undecided =
      rw (
        undecided,
        is_valid_signature,
        bare,
        sub_digest-keccak256 k chain_id wallet digest d fits small,
        recover_wallet_config-unsigned c _ sig (decode_unsigned c d range encoded),
        derived,
        ==_refl wallet,
      )
