-- ===== src/Wallet/Formed.antt =====
-- Wallets through their life: new, connected, with another configuration or other signers.
use go_sequence.Base.{ℕ, ◌≡◌, ◌≢◌, refl, sym, ◌∙◌, List, [], Option, none, some, true, false, ==_ne}
use go_sequence.Base.Result.{ok, bind-ok, ok-subst}
use go_sequence.Ethkit.{Ethkit, Provider, Address, zero_address}
use go_sequence.Network.{WalletContext}
use go_sequence.Config.{WalletConfig, is_wallet_config_usable}
use go_sequence.Config.Sort.{IsAscending, sort_wallet_config_sound}
use go_sequence.Config.Usable.{is_wallet_config_usable-true}
use go_sequence.Relayer.{Relayer}
use go_sequence.Wallet.{
  Signer, WalletOptions, Wallet, context_or_default, configured, addressed, new_wallet,
  set_provider, set_relayer, set_chain_id, reconnect_provider, reconnect_relayer, use_config,
  use_signers,
}

-- The configuration is usable, and its signers are in order unless sorting was skipped.
pub record IsFormed (w : Wallet) : Type 0 where
  pub usable : is_wallet_config_usable w.config ≡ ok true
  pub ascending : w.skip_sort_signers ≡ false → IsAscending w.config.signers

-- A formed wallet with an address and a context that do not change.
pub record IsKept (a : Address) (context : WalletContext) (w : Wallet) : Type 0 where
  pub formed : IsFormed w
  pub same_address : w.address ≡ a
  pub same_context : w.context ≡ context

configured-IsAscending :
    (o : WalletOptions) {c : WalletConfig}
    → configured o ≡ ok c
    → o.skip_sort_signers ≡ false
    → IsAscending c.signers
unfolding configured
configured-IsAscending o e skip = (sort_wallet_config_sound o.config (rw skip at e)).1

module _ (k : Ethkit) where
  addressed-given :
      (o : WalletOptions) (c : WalletConfig) (context : WalletContext)
      → o.address ≢ zero_address
      → addressed k o c context ≡ ok o.address
  unfolding addressed
  addressed-given o c context h = rw (==_ne o.address zero_address h)

  new_wallet-IsFormed :
      (o : WalletOptions) (signers : List Signer) {w : Wallet}
      → new_wallet k o signers ≡ ok w
      → IsFormed w
  unfolding new_wallet
  new_wallet-IsFormed o signers e =
      let (c, e1, r1) = bind-ok (configured o) _ e in
      let (u, e2, r2) = bind-ok (is_wallet_config_usable c) _ r1 in
      let (a, e3, r3) = bind-ok (addressed k o c (context_or_default o.context)) _ r2 in
      ok-subst IsFormed r3 (record {
        usable = is_wallet_config_usable-true c e2;
        ascending = λ skip. configured-IsAscending o e1 skip;
      })

  new_wallet-IsKept :
      (o : WalletOptions) (signers : List Signer) {w : Wallet}
      → o.address ≢ zero_address
      → new_wallet k o signers ≡ ok w
      → IsKept o.address (context_or_default o.context) w
  unfolding new_wallet
  new_wallet-IsKept o signers h e =
      let (c, e1, r1) = bind-ok (configured o) _ e in
      let (u, e2, r2) = bind-ok (is_wallet_config_usable c) _ r1 in
      let (a, e3, r3) = bind-ok (addressed k o c (context_or_default o.context)) _ r2 in
      let given : a ≡ o.address = cc (addressed-given o c (context_or_default o.context) h) in
      ok-subst (IsKept o.address (context_or_default o.context)) r3 (record {
        formed = record {
          usable = is_wallet_config_usable-true c e2;
          ascending = λ skip. configured-IsAscending o e1 skip;
        };
        same_address = given;
        same_context = refl;
      })

  -- A call that changes or replaces a wallet.
  pub data Step (w : Wallet) : Wallet → Type 0 where
    used_config : {w' : Wallet} (c : WalletConfig) → use_config k w c ≡ ok w' → Step w w'
    used_signers :
        {w' : Wallet} (signers : List Signer) → use_signers k w signers ≡ ok w' → Step w w'
    set_a_provider : {w' : Wallet} (p : Provider) → set_provider w p ≡ ok w' → Step w w'
    set_a_relayer : (r : Relayer) → Step w (set_relayer w r)
    set_a_chain_id : (chain_id : Option ℕ) → Step w (set_chain_id w chain_id)

  pub data Reach (w : Wallet) : Wallet → Type 0 where
    here : Reach w w
    after : {u v : Wallet} → Reach w u → Step u v → Reach w v

  set_provider-IsKept :
      {a : Address} {context : WalletContext} (w : Wallet) (p : Provider) {w' : Wallet}
      → IsKept a context w
      → set_provider w p ≡ ok w'
      → IsKept a context w'
  unfolding set_provider
  set_provider-IsKept {a} {context} w p h e =
      let (id, _, e1) = bind-ok p.chain_id _ e in
      ok-subst (IsKept a context) e1 (record {
        formed = record { usable = h.formed.usable; ascending = h.formed.ascending };
        same_address = h.same_address;
        same_context = h.same_context;
      })

  -- The setters of fields that the invariant does not read.
  set_relayer-IsKept :
      {a : Address} {context : WalletContext} (w : Wallet) (r : Relayer)
      → IsKept a context w
      → IsKept a context (set_relayer w r)
  unfolding set_relayer
  set_relayer-IsKept w r h = record {
    formed = record { usable = h.formed.usable; ascending = h.formed.ascending };
    same_address = h.same_address;
    same_context = h.same_context;
  }

  set_chain_id-IsKept :
      {a : Address} {context : WalletContext} (w : Wallet) (chain_id : Option ℕ)
      → IsKept a context w
      → IsKept a context (set_chain_id w chain_id)
  unfolding set_chain_id
  set_chain_id-IsKept w chain_id h = record {
    formed = record { usable = h.formed.usable; ascending = h.formed.ascending };
    same_address = h.same_address;
    same_context = h.same_context;
  }

  reconnect_provider-IsKept :
      {a : Address} {context : WalletContext} (p : Option Provider) (w : Wallet) {w' : Wallet}
      → IsKept a context w
      → reconnect_provider p w ≡ ok w'
      → IsKept a context w'
  unfolding reconnect_provider
  reconnect_provider-IsKept {a} {context} none w h e = ok-subst (IsKept a context) e h
  reconnect_provider-IsKept (some p) w h e = set_provider-IsKept w p h e

  reconnect_relayer-IsKept :
      {a : Address} {context : WalletContext} (r : Option Relayer) (w : Wallet)
      → IsKept a context w
      → IsKept a context (reconnect_relayer r w)
  unfolding reconnect_relayer
  reconnect_relayer-IsKept none w h = h
  reconnect_relayer-IsKept (some r) w h = set_relayer-IsKept w r h

  use_config-IsKept :
      {a : Address} {context : WalletContext} (w : Wallet) (c : WalletConfig) {w' : Wallet}
      → a ≢ zero_address
      → IsKept a context w
      → use_config k w c ≡ ok w'
      → IsKept a context w'
  unfolding use_config
  use_config-IsKept {a} {context} w c nonzero h e =
      let options : WalletOptions = record {
        config = c;
        context = some w.context;
        skip_sort_signers = w.skip_sort_signers;
        address = w.address;
      } in
      let (ww, e1, r1) = bind-ok (new_wallet k options []) _ e in
      let (connected, e2, r2) = bind-ok (reconnect_provider w.provider ww) _ r1 in
      let given : w.address ≢ zero_address = λ z. nonzero (sym h.same_address ∙ z) in
      let made = new_wallet-IsKept options [] given e1 in
      let kept : IsKept a context ww = record {
        formed = made.formed;
        same_address = made.same_address ∙ h.same_address;
        same_context = made.same_context ∙ h.same_context;
      } in
      ok-subst (IsKept a context) r2 (
        reconnect_relayer-IsKept w.relayer connected
          (reconnect_provider-IsKept w.provider ww kept e2))

  use_signers-IsKept :
      {a : Address} {context : WalletContext} (w : Wallet) (signers : List Signer) {w' : Wallet}
      → a ≢ zero_address
      → IsKept a context w
      → use_signers k w signers ≡ ok w'
      → IsKept a context w'
  unfolding use_signers
  use_signers-IsKept {a} {context} w signers nonzero h e =
      let (ww, e1, r1) = bind-ok (use_config k w w.config) _ e in
      let kept = use_config-IsKept w w.config nonzero h e1 in
      ok-subst (IsKept a context) r1 (record {
        formed = record { usable = kept.formed.usable; ascending = kept.formed.ascending };
        same_address = kept.same_address;
        same_context = kept.same_context;
      })

  Step-IsKept :
      {a : Address} {context : WalletContext} {w w' : Wallet}
      → a ≢ zero_address
      → Step w w'
      → IsKept a context w
      → IsKept a context w'
  Step-IsKept {w} nonzero (used_config c e) h = use_config-IsKept w c nonzero h e
  Step-IsKept {w} nonzero (used_signers signers e) h = use_signers-IsKept w signers nonzero h e
  Step-IsKept {w} nonzero (set_a_provider p e) h = set_provider-IsKept w p h e
  Step-IsKept {w} nonzero (set_a_relayer r) h = set_relayer-IsKept w r h
  Step-IsKept {w} nonzero (set_a_chain_id chain_id) h = set_chain_id-IsKept w chain_id h

  Reach-IsKept :
      {a : Address} {context : WalletContext} {w w' : Wallet}
      → a ≢ zero_address
      → Reach w w'
      → IsKept a context w
      → IsKept a context w'
  Reach-IsKept nonzero here h = h
  Reach-IsKept nonzero (after r s) h = Step-IsKept nonzero s (Reach-IsKept nonzero r h)

  -- Whatever calls a new wallet goes through, the wallet keeps its address and its context, its
  -- configuration is usable, and the signers of the configuration stand in rising order of their
  -- addresses, each once, unless the wallet skips sorting. The address is not the zero address.
  pub new_wallet-Reach :
      (o : WalletOptions) (signers : List Signer) {w w' : Wallet}
      → new_wallet k o signers ≡ ok w
      → w.address ≢ zero_address
      → Reach w w'
      → IsKept w.address w.context w'
  new_wallet-Reach o signers {w} e nonzero r = Reach-IsKept nonzero r (record {
    formed = new_wallet-IsFormed o signers e;
    same_address = refl;
    same_context = refl;
  })
