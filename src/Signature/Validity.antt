-- ===== src/Signature/Validity.antt =====
-- `RecoverWalletConfigFromDigest` and `IsValidSignature` of signature.go.
pub mod Unsigned
pub mod Signed
mod Examples
use go_sequence.Base.{
  ℕ, List, [], ◌∷◌, Option, none, some, Bool, true, false, ◌==◌, if◌then◌else◌, length,
}
use go_sequence.Base.Bytes.{Bytes, bytes_equal, codes}
use go_sequence.Base.Result.{Result, ok, err, panic, out_of_fuel, ◌>>=◌, failed_to_validate}
use go_sequence.Ethkit.{Ethkit, Provider, Address}
use go_sequence.Network.{WalletContext}
use go_sequence.Config.{
  WalletConfig, WalletConfigSigner, WalletConfigSigners, address_from_wallet_config,
}
use go_sequence.Digest.{Hash, sub_digest}
use go_sequence.Signature.{SignaturePart, SignatureParts, Signature}
use go_sequence.Signature.Codec.{decode_signature}
use go_sequence.Signature.Recover.{recover}

-- The loop of `RecoverWalletConfigFromDigest`.
pub config_signers : SignatureParts → Result WalletConfigSigners
config_signers [] = ok []
config_signers (none ∷ parts) = panic
config_signers (some p ∷ parts) = do
  signers ← config_signers parts
  ok (record { weight = p.weight; address = p.address } ∷ signers)

module _ (k : Ethkit) where
  -- `RecoverWalletConfigFromDigest`; the context and the chain id are not used.
  pub recover_wallet_config : Bytes → Bytes → Option Provider → Result WalletConfig
  recover_wallet_config digest seq_sig provider = do
    decoded ← decode_signature k seq_sig
    recovered ← recover k decoded digest provider
    signers ← config_signers recovered.signers
    ok (record { threshold = recovered.threshold; signers = signers })

  -- The branch of `IsValidSignature` for a wallet that is not deployed: the provider is not passed on.
  pub validate_counterfactual : Address → Hash → Bytes → WalletContext → Option ℕ → Result Bool
  validate_counterfactual wallet digest seq_sig context chain_id = do
    digest' ← sub_digest k chain_id wallet digest
    recovered_config ← recover_wallet_config digest' seq_sig none
    recovered ← address_from_wallet_config k recovered_config context
    if recovered == wallet then ok true else err failed_to_validate

  -- The branch for a deployed wallet.
  pub validate_deployed : Address → Hash → Bytes → Provider → Result Bool
  validate_deployed wallet digest seq_sig provider = do
    res ← provider.is_valid_signature wallet digest seq_sig
    if bytes_equal (codes "0x1626ba7e") (k.hex_encode res) then ok true else err failed_to_validate

  pub validate_by_code : Address → Hash → Bytes → WalletContext → Option ℕ → Provider → Result Bool
  validate_by_code wallet digest seq_sig context chain_id provider = do
    code ← provider.code_at wallet
    if length code == 0
        then validate_counterfactual wallet digest seq_sig context chain_id
        else validate_deployed wallet digest seq_sig provider

  -- `IsValidSignature`
  pub is_valid_signature :
      Address → Hash → Bytes → WalletContext → Option ℕ → Provider → Result Bool
  is_valid_signature wallet digest seq_sig context chain_id provider =
      elim (k.is_valid_191_signature wallet digest seq_sig) [
        | ok valid ↦ ok valid
        | panic ↦ panic
        | out_of_fuel ↦ out_of_fuel
        | err _ ↦ validate_by_code wallet digest seq_sig context chain_id provider
      ]
