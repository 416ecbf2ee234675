-- ===== src/Signature/Validity/Signed.antt =====
-- Signatures whose parts were made by the signers of a configuration, or carry no signature.
use go_sequence.Base.{ℕ, ◌^◌, ◌<◌, ◌≡◌, refl, [], ◌∷◌, map, none, some, true, ==_refl, All}
use go_sequence.Base.Bytes.{Bytes}
use go_sequence.Base.Result.{Error, ok, err}
use go_sequence.Ethkit.{Ethkit, Provider, Address, IsDocumented}
use go_sequence.Network.{WalletContext}
use go_sequence.Config.{
  WalletConfig, WalletConfigSigner, WalletConfigSigners, address_from_wallet_config,
}
use go_sequence.Digest.{Hash, sub_digest}
use go_sequence.Signature.{SignaturePart, SignatureParts}
use go_sequence.Signature.Codec.{encode, decode_signature}
use go_sequence.Signature.Codec.Layout.{keep, IsEncodable, IsEncodablePart}
use go_sequence.Signature.Codec.RoundTrip.{keep_part, keep_signature, decode_signature-encode}
use go_sequence.Signature.Recover.{recover_one, recover_loop}
use go_sequence.Signature.Recover.Signed.{recover_loop-nil, recover_loop-cons, recover-ok}
use go_sequence.Signature.Validity.{
  config_signers, recover_wallet_config, validate_counterfactual, validate_by_code,
  is_valid_signature,
}

module _ (k : Ethkit) (msg : Bytes) where
  -- The part of a signer can be encoded, and recovers to the signer's weight and address.
  pub record IsSigned (info : WalletConfigSigner) (p : SignaturePart) : Type 0 where
    pub encodable : IsEncodable p
    pub part : SignaturePart
    pub recovers : recover_one k msg none (some (keep p)) ≡ ok part
    pub same_weight : part.weight ≡ info.weight
    pub same_address : part.address ≡ info.address

  -- Part by part.
  abbrev pub AreSigned : WalletConfigSigners → SignatureParts → Type 0
  AreSigned [] [] = Unit
  AreSigned (info ∷ infos) (some p ∷ parts) = IsSigned info p × AreSigned infos parts
  AreSigned _ _ = ⊥

  AreSigned-IsEncodablePart :
      (infos : WalletConfigSigners) (parts : SignatureParts)
      → AreSigned infos parts
      → All IsEncodablePart parts
  AreSigned-IsEncodablePart [] [] h = tt
  AreSigned-IsEncodablePart [] (p ∷ parts) h = absurd h
  AreSigned-IsEncodablePart (info ∷ infos) [] h = absurd h
  AreSigned-IsEncodablePart (info ∷ infos) (none ∷ parts) h = absurd h
  AreSigned-IsEncodablePart (info ∷ infos) (some p ∷ parts) h =
      (h.0.encodable, AreSigned-IsEncodablePart infos parts h.1)

  signer_eq :
      (p : SignaturePart) (info : WalletConfigSigner)
      → p.weight ≡ info.weight
      → p.address ≡ info.address
      → record { weight = p.weight; address = p.address } ≡ info
  signer_eq p info w a = cc

  recover_loop-AreSigned :
      (infos : WalletConfigSigners) (parts : SignatureParts)
      → AreSigned infos parts
      → (qs : SignatureParts) × (recover_loop k msg none (map keep_part parts) ≡ ok qs)
        × (config_signers qs ≡ ok infos)
  unfolding config_signers
  recover_loop-AreSigned [] [] h = ([], recover_loop-nil k msg none, refl)
  recover_loop-AreSigned [] (p ∷ parts) h = absurd h
  recover_loop-AreSigned (info ∷ infos) [] h = absurd h
  recover_loop-AreSigned (info ∷ infos) (none ∷ parts) h = absurd h
  recover_loop-AreSigned (info ∷ infos) (some p ∷ parts) h =
      let (qs, e1, e2) = recover_loop-AreSigned infos parts h.1 in
      let first = h.0 in
      (
        some first.part ∷ qs,
        recover_loop-cons k msg none _ _ first.recovers e1,
        rw (e2, signer_eq first.part info first.same_weight first.same_address),
      )

  recover_wallet_config-AreSigned :
      (c : WalletConfig) (parts : SignatureParts) (sig : Bytes)
      → AreSigned c.signers parts
      → decode_signature k sig
        ≡ ok (keep_signature (record { threshold = c.threshold; signers = parts }))
      → recover_wallet_config k msg sig none ≡ ok c
  unfolding recover_wallet_config
  recover_wallet_config-AreSigned c parts sig h e =
      let (qs, e1, e2) = recover_loop-AreSigned c.signers parts h in
      rw (
        e,
        recover-ok k msg (keep_signature (record { threshold = c.threshold; signers = parts })) none
            e1,
        e2,
      )

module _ (k : Ethkit) where
  -- The encoding of such a signature is valid for the wallet of the configuration, unless
  -- `IsValid191Signature` decides before.
  pub is_valid_signature-AreSigned :
      (c : WalletConfig) (context : WalletContext) (wallet : Address) (provider : Provider)
      (chain_id : ℕ) (digest : Hash) (msg : Bytes) (parts : SignatureParts) (e : Error)
      → IsDocumented k
      → c.threshold < 2 ^ 16
      → sub_digest k (some chain_id) wallet digest ≡ ok msg
      → AreSigned k msg c.signers parts
      → address_from_wallet_config k c context ≡ ok wallet
      → provider.code_at wallet ≡ ok []
      → ((sig : Bytes) → k.is_valid_191_signature wallet digest sig ≡ err e)
      → (sig : Bytes) × (encode k (record { threshold = c.threshold; signers = parts }) ≡ ok sig)
        × (is_valid_signature k wallet digest sig context (some chain_id) provider ≡ ok true)
  unfolding is_valid_signature validate_by_code validate_counterfactual
  is_valid_signature-AreSigned c context wallet provider chain_id digest msg parts e d fits packed
        signed derived bare undecided =
      let (sig, encoded, decoded) =
        decode_signature-encode k (record { threshold = c.threshold; signers = parts }) d
          (record {
            threshold_fits = fits;
            parts = AreSigned-IsEncodablePart k msg c.signers parts signed;
          }) in
      (
        sig,
        encoded,
        rw (
          undecided sig,
          is_valid_signature,
          bare,
          packed,
          recover_wallet_config-AreSigned k msg c parts sig signed decoded,
          derived,
          ==_refl wallet,
        ),
      )
