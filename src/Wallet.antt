-- ===== src/Wallet.antt =====
-- wallet.go: a wallet, its signers, and its connections to a chain and to a relayer. The setters return
-- the wallet as it is afterwards.
pub mod Formed
pub mod Sign
mod Examples
use go_sequence.Base.{
  ℕ, ◌+◌, List, [], ◌∷◌, Option, none, some, Bool, true, false, ltb, ◌==◌, if◌then◌else◌, length,
  map,
}
use go_sequence.Base.Bytes.{Bytes}
use go_sequence.Base.Int.{ℤ}
use go_sequence.Base.Result.{
  Result, ok, err, panic, out_of_fuel, ◌>>=◌, ◌>>◌, provider_not_set, relayer_not_set,
}
use go_sequence.Ethkit.{Ethkit, Provider, Address, zero_address}
use go_sequence.Network.{WalletContext, sequence_context}
use go_sequence.Config.{
  WalletConfig, WalletConfigSigner, WalletConfigSigners, image_hash, address_from_image_hash,
  sort_wallet_config, is_wallet_config_usable,
}
use go_sequence.Relayer.{Relayer}
use go_sequence.Transaction.Signed.{SignedTransactions}

-- `ethwallet.Wallet`: a signer with a key of its own.
pub record Signer : Type 0 where
  pub address : Address
  pub sign_message : Bytes → Result Bytes

-- `WalletOptions`
pub record WalletOptions : Type 0 where
  pub config : WalletConfig
  pub context : Option WalletContext
  pub skip_sort_signers : Bool
  pub address : Address

pub record Wallet : Type 0 where
  pub context : WalletContext
  pub config : WalletConfig
  pub signers : List Signer
  pub provider : Option Provider
  pub relayer : Option Relayer
  pub address : Address
  pub skip_sort_signers : Bool
  pub chain_id : Option ℕ

abbrev pub context_or_default : Option WalletContext → WalletContext
context_or_default none = sequence_context
context_or_default (some c) = c

-- The configuration of a new wallet: a clone is sorted, so the caller's stays as it is.
pub configured : WalletOptions → Result WalletConfig
configured o = if o.skip_sort_signers then ok o.config else sort_wallet_config o.config

module _ (k : Ethkit) where
  -- The address of a new wallet.
  pub addressed : WalletOptions → WalletConfig → WalletContext → Result Address
  addressed o config context =
      let derived = do hs ← image_hash k config; address_from_image_hash k hs context
      in if o.address == zero_address then derived else ok o.address

  -- `NewWallet`
  pub new_wallet : WalletOptions → List Signer → Result Wallet
  new_wallet o signers = do
    config ← configured o
    usable ← is_wallet_config_usable config
    address ← addressed o config (context_or_default o.context)
    ok (record {
      context = context_or_default o.context;
      config = config;
      signers = signers;
      provider = none;
      relayer = none;
      address = address;
      skip_sort_signers = o.skip_sort_signers;
      chain_id = none;
    })

  -- `NewWalletSingleOwner`
  pub new_wallet_single_owner : Signer → Option WalletContext → Result Wallet
  new_wallet_single_owner owner context =
      new_wallet
        (record {
          config = record {
            threshold = 1;
            signers = record { weight = 1; address = owner.address } ∷ [];
          };
          context = some (context_or_default context);
          skip_sort_signers = false;
          address = zero_address;
        })
        (owner ∷ [])

-- `SetProvider`, `SetRelayer`, `Connect` and `SetChainID`.
pub set_provider : Wallet → Provider → Result Wallet
set_provider w provider = do
  chain_id ← provider.chain_id
  ok (record w { chain_id = some chain_id; provider = some provider })

pub set_relayer : Wallet → Relayer → Wallet
set_relayer w relayer = record w { relayer = some relayer }

pub connect : Wallet → Provider → Relayer → Result Wallet
connect w provider relayer = do w' ← set_provider w provider; ok (set_relayer w' relayer)

pub set_chain_id : Wallet → Option ℕ → Wallet
set_chain_id w chain_id = record w { chain_id = chain_id }

-- The new wallet gets the connections of the old one.
pub reconnect_provider : Option Provider → Wallet → Result Wallet
reconnect_provider none w = ok w
reconnect_provider (some provider) w = set_provider w provider

pub reconnect_relayer : Option Relayer → Wallet → Wallet
reconnect_relayer none w = w
reconnect_relayer (some relayer) w = set_relayer w relayer

module _ (k : Ethkit) where
  -- `UseConfig` and `UseSigners`: a new wallet with the address of this one.
  pub use_config : Wallet → WalletConfig → Result Wallet
  use_config w config = do
    ww ←
        new_wallet k
          (record {
            config = config;
            context = some w.context;
            skip_sort_signers = w.skip_sort_signers;
            address = w.address;
          })
          []
    connected ← reconnect_provider w.provider ww
    ok (reconnect_relayer w.relayer connected)

  pub use_signers : Wallet → List Signer → Result Wallet
  use_signers w signers = do ww ← use_config w w.config; ok (record ww { signers = signers })

-- `GetSignerAddresses`
pub get_signer_addresses : List Signer → List Address
get_signer_addresses [] = []
get_signer_addresses (s ∷ signers) = s.address ∷ get_signer_addresses signers

-- `GetSigner`
pub get_signer : List Signer → Address → Option Signer
get_signer [] a = none
get_signer (s ∷ signers) a =
    let rest = get_signer signers a in if s.address == a then some s else rest

abbrev pub is_available : Option Signer → Bool
is_available none = false
is_available (some s) = true

-- `IsSignerAvailable`
pub is_signer_available : Wallet → Address → Bool
is_signer_available w a = is_available (get_signer w.signers a)

-- The loops of `GetSignerWeight`: over the configuration for one address, and over the addresses.
pub weight_of_address : WalletConfigSigners → Address → ℕ → ℕ
weight_of_address [] a total = total
weight_of_address (sc ∷ signers) a total =
    weight_of_address signers a (if sc.address == a then total + sc.weight else total)

pub weight_of_addresses : WalletConfigSigners → List Address → ℕ → ℕ
weight_of_addresses signers [] total = total
weight_of_addresses signers (a ∷ addresses) total =
    weight_of_addresses signers addresses (weight_of_address signers a total)

-- `GetSignerWeight`
pub get_signer_weight : Wallet → ℕ
get_signer_weight w = weight_of_addresses w.config.signers (get_signer_addresses w.signers) 0

-- `GetNonce`
pub get_nonce : Wallet → Option ℕ → Result ℤ
get_nonce w block_num = elim w.relayer [
  | none ↦ err relayer_not_set
  | some relayer ↦ relayer.get_nonce w.config w.context none block_num
]

-- `IsWalletDeployed`
unfoldable pub is_wallet_deployed : Provider → Address → Result Bool
is_wallet_deployed provider address = do code ← provider.code_at address; ok (ltb 2 (length code))

-- `IsDeployed`
pub is_deployed : Wallet → Result Bool
is_deployed w = elim w.provider [
  | none ↦ err provider_not_set
  | some provider ↦ is_wallet_deployed provider w.address
]

-- `SendTransactions`
pub send_transactions : Wallet → SignedTransactions → Result Bytes
send_transactions w signed = elim w.relayer [
  | none ↦ err relayer_not_set
  | some relayer ↦ relayer.relay signed
]
