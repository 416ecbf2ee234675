-- ===== src/Wallet/Sign.antt =====
-- wallet.go: signing digests and transactions, and checking signatures.
pub mod Valid
use go_sequence.Base.{
  ℕ, List, [], ◌∷◌, ◌++◌, Option, none, some, Bool, true, false, ◌==◌, if◌then◌else◌,
}
use go_sequence.Base.Bytes.{Bytes}
use go_sequence.Base.Int.{ℤ, pos, equal_ℤ, ltb_ℤ}
use go_sequence.Base.Result.{
  Result, ok, err, panic, out_of_fuel, ◌>>=◌, unknown_chain_id, empty_transactions,
  provider_not_set,
}
use go_sequence.Ethkit.{Ethkit, Provider, Address}
use go_sequence.Config.{WalletConfigSigner, WalletConfigSigners, to_array32}
use go_sequence.Digest.{Hash, sub_digest}
use go_sequence.Transaction.{
  Transaction, transaction, children, Transactions, end, absent, next, body, zero_body,
  bundle_nonce,
}
use go_sequence.Transaction.Encode.{Abi, digest}
use go_sequence.Transaction.Signed.{SignedTransactions}
use go_sequence.Signature.{
  SignaturePart, SignatureParts, Signature, part_type_eoa, part_type_address,
  signature_type_eth_sign,
}
use go_sequence.Signature.Codec.{encode}
use go_sequence.Signature.Validity.{is_valid_signature}
use go_sequence.Relayer.{Relayer}
use go_sequence.Wallet.{Wallet, Signer, get_signer, get_nonce}

-- The part of one signer of the configuration: its signature and the signature's type, or only its
-- address when the wallet does not have the signer.
pub sign_part : Bytes → WalletConfigSigner → Option Signer → Result SignaturePart
sign_part msg info none =
    ok (record {
      weight = info.weight;
      address = info.address;
      type = part_type_address;
      value = [];
    })
sign_part msg info (some signer) = do
  sig_value ← signer.sign_message msg
  ok (record {
    weight = info.weight;
    address = signer.address;
    type = part_type_eoa;
    value = sig_value ++ (signature_type_eth_sign ∷ []);
  })

-- The loop of `SignDigest`.
pub sign_loop : Bytes → List Signer → WalletConfigSigners → Result SignatureParts
sign_loop msg signers [] = ok []
sign_loop msg signers (info ∷ infos) = do
  p ← sign_part msg info (get_signer signers info.address)
  parts ← sign_loop msg signers infos
  ok (some p ∷ parts)

-- The chain id of `SignDigest`: the first optional argument, or the wallet's. An argument may be nil.
pub signing_chain_id : Wallet → List (Option ℕ) → Result (Option ℕ)
signing_chain_id w (chain_id ∷ _) = ok chain_id
signing_chain_id w [] = elim w.chain_id [ none ↦ err unknown_chain_id | some id ↦ ok (some id) ]

module _ (k : Ethkit) where
  -- `MessageDigest` of signature.go; `common.BytesToHash` of the 32 bytes of a hash is those bytes.
  pub message_digest : Bytes → Hash
  message_digest msg = k.keccak256 msg

  -- `SignDigest`
  pub sign_digest : Wallet → Hash → List (Option ℕ) → Result (Bytes × Signature)
  sign_digest w digest' opt_chain_id = do
    chain_id ← signing_chain_id w opt_chain_id
    msg ← sub_digest k chain_id w.address digest'
    parts ← sign_loop msg w.signers w.config.signers
    let sig : Signature = record { threshold = w.config.threshold; signers = parts }
    encoded ← encode k sig
    ok (encoded, sig)

  -- `SignMessage`
  pub sign_message : Wallet → Bytes → Result (Bytes × Signature)
  sign_message w msg = sign_digest w (message_digest msg) []

  -- `Wallet.IsValidSignature`
  pub wallet_is_valid_signature : Wallet → Hash → Bytes → Result Bool
  wallet_is_valid_signature w digest' signature = elim w.provider [
    | none ↦ err provider_not_set
    | some provider ↦ is_valid_signature k w.address digest' signature w.context w.chain_id provider
  ]

-- A gas limit that is nil or 0.
abbrev pub no_gas_limit : Option ℤ → Bool
no_gas_limit none = true
no_gas_limit (some n) = equal_ℤ n (pos 0)

-- The loop of `SignTransactions` that finds out whether gas limits are to be estimated.
pub needs_estimate : Transactions → Result Bool
needs_estimate end = ok false
needs_estimate (absent ts) = panic
needs_estimate (next (transaction b c) ts) =
    let rest = needs_estimate ts in
    if b.revert_on_error then rest else if no_gas_limit b.gas_limit then ok true else rest

-- The transactions with gas limits; a nil relayer is called all the same.
pub estimated : Wallet → Transactions → Bool → Result Transactions
estimated w txns false = ok txns
estimated w txns true = elim w.relayer [
  | none ↦ panic
  | some relayer ↦ relayer.estimate_gas_limits w.config w.context txns
]

-- The nonce of the transactions, or else of the wallet.
pub nonce_or_latest : Wallet → Option ℤ → Result ℤ
nonce_or_latest w none = get_nonce w none
nonce_or_latest w (some n) = ok n

module _ (abi : Abi) (k : Ethkit) where
  -- `SignTransactions` behind its first check.
  pub sign_nonempty : Wallet → Transactions → Result SignedTransactions
  sign_nonempty w txns = do
    estimate_gas ← needs_estimate txns
    txns' ← estimated w txns estimate_gas
    given ← bundle_nonce txns'
    n ← nonce_or_latest w given
    digest' ← digest abi k (transaction (record zero_body { nonce = some n }) (children txns'))
    signed ← sign_digest k w digest' []
    ok (record {
      chain_id = w.chain_id;
      wallet_config = w.config;
      wallet_context = w.context;
      transactions = txns';
      nonce = some n;
      digest = digest';
      signature = signed.0;
    })

  -- `SignTransactions`
  pub sign_transactions : Wallet → Transactions → Result SignedTransactions
  sign_transactions w end = err empty_transactions
  sign_transactions w txns = sign_nonempty w txns
