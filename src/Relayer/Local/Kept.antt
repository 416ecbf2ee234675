-- ===== src/Relayer/Local/Kept.antt =====
-- What a local relayer keeps of the transactions.
use go_sequence.Base.Bytes.{Bytes}
use go_sequence.Base.{
  ℕ, ◌≡◌, refl, sym, ◌∙◌, subst, List, ◌∷◌, Option, none, some, Bool, true, false, Bool-cases, inl,
  inr, if◌then◌else◌,
}
use go_sequence.Base.Int.{ℤ}
use go_sequence.Base.Result.{Result, ok, ◌>>=◌, bind-ok, ok-subst}
use go_sequence.Ethkit.{Ethkit, Address, Provider}
use go_sequence.Network.{WalletContext}
use go_sequence.Config.{WalletConfig, address_from_wallet_config}
use go_sequence.Transaction.{
  Body, Transaction, transaction, Children, Transactions, end, absent, next, body, is_bundle,
  clone_children,
}
use go_sequence.Transaction.Encode.{
  Abi, or_zero, defaulted, flattened, encoded_transaction, encoded_transactions, execdata_of,
}
use go_sequence.Relayer.Local.{
  CallMsg, is_requested, gas_limit_of, gas_limits_of, update_gas_limits, estimate_gas_limits,
}
use go_sequence.Wallet.{is_wallet_deployed}

-- The same transactions with other gas limits, but for the gas limits that were requested.
abbrev pub KeepsLimits : Transactions → Transactions → Type 0
KeepsLimits end end = Unit
KeepsLimits (next (transaction b c) ts) (next t' ts') =
    (t' ≡ transaction (record b { gas_limit = (body t').gas_limit }) c)
    × ((if is_requested b.gas_limit then (body t').gas_limit else b.gas_limit) ≡ b.gas_limit)
    × KeepsLimits ts ts'
KeepsLimits _ _ = ⊥

flattened-gas_limit :
    (bundle : Bool) (b : Body) (c : Children) (call : Result Bytes) {e : Transaction}
    → flattened bundle call b c ≡ ok e
    → (body e).gas_limit ≡ b.gas_limit
flattened-gas_limit false b c call h = ok-subst (λ t. (body t).gas_limit ≡ b.gas_limit) h refl
flattened-gas_limit true b c call h =
    let (execdata, called, done) = bind-ok call _ h in
    ok-subst (λ t. (body t).gas_limit ≡ b.gas_limit) done refl

module _ (abi : Abi) where
  encoded_transaction-gas_limit :
      (b : Body) (c : Children) {e : Transaction}
      → encoded_transaction abi (transaction b c) ≡ ok e
      → (body e).gas_limit ≡ or_zero b.gas_limit
  unfolding encoded_transaction
  encoded_transaction-gas_limit b c h =
      let call = execdata_of abi (defaulted b) c in
      let bundle = is_bundle (transaction b c) in
      let (c', cloned, flat) =
        bind-ok (clone_children c) (λ c'. flattened bundle call (defaulted b) c') h in
      flattened-gas_limit bundle (defaulted b) c' call flat

or_zero-is_requested : (limit : Option ℤ) → is_requested limit ≡ true → or_zero limit ≡ limit
or_zero-is_requested none h = cc
or_zero-is_requested (some limit) h = refl

-- A requested limit is kept.
gas_limit_of-is_requested :
    (estimate_gas : CallMsg → Result ℕ) (wallet : Address) (is_deployed : Bool) (b e : Body)
    {limit : Option ℤ}
    → e.gas_limit ≡ or_zero b.gas_limit
    → gas_limit_of estimate_gas wallet is_deployed e ≡ ok limit
    → (if is_requested b.gas_limit then limit else b.gas_limit) ≡ b.gas_limit
unfolding gas_limit_of
gas_limit_of-is_requested estimate_gas wallet is_deployed b e {limit} same h =
    elim (Bool-cases (is_requested b.gas_limit)) [
      | inl y ↦
          let kept : e.gas_limit ≡ b.gas_limit = same ∙ or_zero-is_requested b.gas_limit y in
          let asked : is_requested e.gas_limit ≡ true =
            subst (λ o. is_requested o ≡ true) (sym kept) y in
          let taken : ok e.gas_limit ≡ ok limit = rw asked at h in
          rw y (ok-subst (λ o. o ≡ b.gas_limit) taken kept)
      | inr n ↦ rw n refl
    ]

module _ (abi : Abi) (estimate_gas : CallMsg → Result ℕ) (wallet : Address)
    (is_deployed : Bool) where
  update_gas_limits-KeepsLimits :
      (txns : Transactions) (encoded : List Transaction) (limits : List (Option ℤ))
      (txns' : Transactions)
      → encoded_transactions abi txns ≡ ok encoded
      → gas_limits_of estimate_gas wallet is_deployed encoded ≡ ok limits
      → update_gas_limits limits txns ≡ ok txns'
      → KeepsLimits txns txns'
  unfolding encoded_transactions gas_limits_of update_gas_limits
  update_gas_limits-KeepsLimits end encoded limits txns' h1 h2 h3 = ok-subst (KeepsLimits end) h3 tt
  update_gas_limits-KeepsLimits (absent ts) encoded limits txns' h1 h2 h3 = cc
  update_gas_limits-KeepsLimits (next (transaction b c) ts) encoded limits txns' h1 h2 h3 =
      let (e, first, rest) = bind-ok _ _ h1 in
      let (es, others, done) = bind-ok _ _ rest in
      let limited : gas_limits_of estimate_gas wallet is_deployed (e ∷ es) ≡ ok limits =
        ok-subst (λ x. gas_limits_of estimate_gas wallet is_deployed x ≡ ok limits) (sym done) h2 in
      let (l, limit, rest') = bind-ok _ _ limited in
      let (ls, limits', done') = bind-ok _ _ rest' in
      let updated : update_gas_limits (l ∷ ls) (next (transaction b c) ts) ≡ ok txns' =
        ok-subst (λ x. update_gas_limits x (next (transaction b c) ts) ≡ ok txns') (sym done') h3 in
      let (ts', more, done'') = bind-ok _ _ updated in
      let kept : KeepsLimits (next (transaction b c) ts)
          (next (transaction (record b { gas_limit = l }) c) ts') =
        (
          refl,
          gas_limit_of-is_requested estimate_gas wallet is_deployed b (body e)
              (encoded_transaction-gas_limit abi b c first) limit,
          update_gas_limits-KeepsLimits ts es ls ts' others limits' more,
        ) in
      ok-subst (KeepsLimits (next (transaction b c) ts)) done'' kept

-- When `EstimateGasLimits` of a local relayer succeeds, it has changed nothing of the transactions but
-- their gas limits, and no gas limit that was requested, which is one above 0.
pub estimate_gas_limits-KeepsLimits :
    (k : Ethkit) (abi : Abi) (estimate_gas : CallMsg → Result ℕ) (provider : Provider)
    (config : WalletConfig) (context : WalletContext) (txns txns' : Transactions)
    → estimate_gas_limits k abi estimate_gas provider config context txns ≡ ok txns'
    → KeepsLimits txns txns'
unfolding estimate_gas_limits
estimate_gas_limits-KeepsLimits k abi estimate_gas provider config context txns txns' h =
    let (wallet, derived, h1) =
      bind-ok (address_from_wallet_config k config context)
        (λ wallet. is_wallet_deployed provider wallet >>= λ is_deployed.
          encoded_transactions abi txns >>= λ encoded.
          gas_limits_of estimate_gas wallet is_deployed encoded >>= λ limits.
          update_gas_limits limits txns)
        h in
    let (is_deployed, known, h2) =
      bind-ok (is_wallet_deployed provider wallet)
        (λ is_deployed. encoded_transactions abi txns >>= λ encoded.
          gas_limits_of estimate_gas wallet is_deployed encoded >>= λ limits.
          update_gas_limits limits txns)
        h1 in
    let (encoded, encoding, h3) =
      bind-ok (encoded_transactions abi txns)
        (λ encoded. gas_limits_of estimate_gas wallet is_deployed encoded >>= λ limits.
          update_gas_limits limits txns)
        h2 in
    let (limits, estimated, h4) =
      bind-ok (gas_limits_of estimate_gas wallet is_deployed encoded)
        (λ limits. update_gas_limits limits txns) h3 in
    update_gas_limits-KeepsLimits abi estimate_gas wallet is_deployed txns encoded limits txns'
      encoding estimated h4
