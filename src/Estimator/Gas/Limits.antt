-- ===== src/Estimator/Gas/Limits.antt =====
-- The gas limits that `Estimate` sets.
use go_sequence.Base.{
  ℕ, suc, ◌+◌, ◌≡◌, refl, sym, ap, subst, ◌∙◌, List, [], ◌∷◌, Option, none, some, Bool, length,
  arith,
}
use go_sequence.Base.Bytes.{Bytes}
use go_sequence.Base.Int.{ℤ, ◌+ℤ◌, ◌-ℤ◌, add-sub}
use go_sequence.Base.Result.{ok, bind-ok}
use go_sequence.Ethkit.{Ethkit, Address, Provider}
use go_sequence.Network.{WalletContext}
use go_sequence.Config.{WalletConfig}
use go_sequence.Transaction.{Transaction, transaction, Transactions, end, absent, next, append_all}
use go_sequence.Transaction.Encode.{Abi}
use go_sequence.Wallet.{is_wallet_deployed}
use go_sequence.Estimator.{Estimator, SortedSigner, pick_signers}
use go_sequence.Estimator.Stub.{build_stub_signature}
use go_sequence.Estimator.Gas.{
  Overrides, Simulator, uint64_of, estimate_overrides, estimate_prefix, estimate_prefixes,
  set_gas_limits, last_estimate, finish_estimate, estimate,
}

abbrev pub count : Transactions → ℕ
count end = 0
count (absent txs) = suc (count txs)
count (next t txs) = suc (count txs)

-- No transaction of the slice is nil.
abbrev pub ArePresent : Transactions → Type 0
ArePresent end = Unit
ArePresent (absent txs) = ⊥
ArePresent (next t txs) = ArePresent txs

-- What `Estimate` leaves as it is.
abbrev pub without_limits : Transactions → Transactions
without_limits end = end
without_limits (absent txs) = absent (without_limits txs)
without_limits (next (transaction body c) txs) =
    next (transaction (record body { gas_limit = none }) c) (without_limits txs)

abbrev add_limit : ℤ → Option ℤ → ℤ
add_limit a none = a
add_limit a (some limit) = a +ℤ limit

-- The gas limits, added to a number.
abbrev pub add_limits : ℤ → Transactions → ℤ
add_limits a end = a
add_limits a (absent txs) = add_limits a txs
add_limits a (next (transaction body c) txs) = add_limits (add_limit a body.gas_limit) txs

append_all-end : (ts : Transactions) → append_all ts end ≡ ts
append_all-end end = refl
append_all-end (absent ts) = ap absent (append_all-end ts)
append_all-end (next t ts) = ap (next t) (append_all-end ts)

append_all-next :
    (t : Transaction) (ts us : Transactions)
    → append_all (append_all ts (next t end)) us ≡ append_all ts (next t us)
append_all-next t end us = refl
append_all-next t (absent ts) us = ap absent (append_all-next t ts us)
append_all-next t (next u ts) us = ap (next u) (append_all-next t ts us)

at_end :
    (i : ℕ) (front : Transactions)
    → ◌≡◌ {A = ℕ × Transactions} (i, front) (i + count end, append_all front end)
at_end i front = let z : i + 0 ≡ i = omega arith in rw (z, append_all-end front) refl

one_more :
    (i : ℕ) (t : Transaction) (front rest : Transactions)
    → ◌≡◌ {A = ℕ × Transactions}
        (i + 1 + count rest, append_all (append_all front (next t end)) rest)
        (i + count (next t rest), append_all front (next t rest))
one_more i t front rest =
    let z : i + 1 + count rest ≡ i + suc (count rest) = omega arith in
    rw (z, append_all-next t front rest) refl

last_estimate-cons :
    (a b : ℤ) (es others : List ℤ) → es ≡ b ∷ others → last_estimate (a ∷ es) ≡ last_estimate es
unfolding last_estimate
last_estimate-cons a b es others e = rw e refl

-- The limits follow from the estimates, of which there is one more than there are transactions.
set_gas_limits-add_limits :
    (a z : ℤ) (estimates : List ℤ) (txs : Transactions)
    → ArePresent txs
    → length estimates ≡ count txs
    → last_estimate (a ∷ estimates) ≡ ok z
    → (limited : Transactions) × (set_gas_limits (a ∷ estimates) txs ≡ ok limited)
      × (add_limits a limited ≡ z)
      × (without_limits limited ≡ without_limits txs)
unfolding set_gas_limits last_estimate
set_gas_limits-add_limits a z [] end p l e = (end, refl, cc, refl)
set_gas_limits-add_limits a z (b ∷ estimates) end p l e = absurd (omega arith)
set_gas_limits-add_limits a z estimates (absent txs) p l e = absurd p
set_gas_limits-add_limits a z [] (next t txs) p l e = absurd (omega arith)
set_gas_limits-add_limits a z (b ∷ estimates) (next (transaction body c) txs) p l e =
    let (limited, set', added, kept) =
      set_gas_limits-add_limits b z estimates txs p (omega arith) e in
    (
      next (transaction (record body { gas_limit = some (b -ℤ a) }) c) limited,
      rw set' refl,
      ap (λ n. add_limits n limited) (add-sub a b) ∙ added,
      ap (next (transaction (record body { gas_limit = none }) c)) kept,
    )

module _ (sim : Simulator) (k : Ethkit) (abi : Abi) (e : Estimator) (draw : ℕ → Bytes)
    (wallet : Address) (signature : Bytes) (overrides : Overrides) where
  -- The estimates of the prefixes: the first is that of the prefix in front, and the last that of all.
  estimate_prefixes-ends :
      (i : ℕ) (front rest : Transactions) (estimates : List ℤ)
      → ArePresent rest
      → estimate_prefixes sim k abi e draw i wallet signature overrides front rest ≡ ok estimates
      → (first last : ℤ) × (others : List ℤ) × (estimates ≡ first ∷ others)
        × (length others ≡ count rest)
        × (last_estimate estimates ≡ ok last)
        × (estimate_prefix sim k abi e draw i wallet signature overrides front ≡ ok first)
        × (estimate_prefix sim k abi e draw
              (i + count rest)
              wallet
              signature
              overrides
              (append_all front rest)
            ≡ ok last)
  unfolding estimate_prefixes last_estimate
  estimate_prefixes-ends i front end estimates p h =
      let (first, estimated, done) = bind-ok _ _ h in
      let same : first ∷ [] ≡ estimates = cc in
      (
        first,
        first,
        [],
        sym same,
        refl,
        ap last_estimate (sym same),
        estimated,
        subst (λ x. estimate_prefix sim k abi e draw x.0 wallet signature overrides x.1 ≡ ok first)
            (at_end i front) estimated,
      )
  estimate_prefixes-ends i front (absent rest) estimates p h = absurd p
  estimate_prefixes-ends i front (next t rest) estimates p h =
      let (first, estimated, more) = bind-ok _ _ h in
      let (es, later, done) = bind-ok _ _ more in
      let same : first ∷ es ≡ estimates = cc in
      let (second, last, others, split, l, ends, _, all) =
        estimate_prefixes-ends (i + 1) (append_all front (next t end)) rest es p later in
      let n : length es ≡ suc (length others) = ap length split in
      (
        first,
        last,
        es,
        sym same,
        omega (arith, n, l),
        ap last_estimate (sym same) ∙ (last_estimate-cons first second es others split ∙ ends),
        estimated,
        subst (λ x. estimate_prefix sim k abi e draw x.0 wallet signature overrides x.1 ≡ ok last)
            (one_more i t front rest) all,
      )

  finish_estimate-Limited :
      (txs : Transactions) (estimates : List ℤ)
      → ArePresent txs
      → estimate_prefixes sim k abi e draw 0 wallet signature overrides end txs ≡ ok estimates
      → (first last : ℤ) × (limited : Transactions) × (estimate_prefix sim k abi e draw 0 wallet
            signature overrides end
          ≡ ok first)
        × (estimate_prefix sim k abi e draw (count txs) wallet signature overrides txs ≡ ok last)
        × (finish_estimate txs estimates ≡ ok (uint64_of last, limited))
        × (add_limits first limited ≡ last)
        × (without_limits limited ≡ without_limits txs)
  unfolding finish_estimate
  finish_estimate-Limited txs estimates p h =
      let (first, last, others, split, l, ends, one, all) =
        estimate_prefixes-ends 0 end txs estimates p h in
      let (limited, set', added, kept) =
        set_gas_limits-add_limits first last others txs p l (rw split at ends) in
      let whole : estimate_prefix sim k abi e draw (count txs) wallet signature overrides txs
          ≡ ok last =
        subst (λ n. estimate_prefix sim k abi e draw n wallet signature overrides txs ≡ ok last)
          (omega arith) all in
      (first, last, limited, one, whole, rw (split, set', (rw split at ends)) refl, added, kept)

-- Once the node has answered for each prefix of the transactions, none of which is nil, `Estimate`
-- returns the estimate of all of them. The gas limits that it sets, added to the estimate of no
-- transaction, make up the same number, and nothing else of the transactions changes.
pub estimate-add_limits :
    (sim : Simulator) (k : Ethkit) (abi : Abi) (e : Estimator) (draw : ℕ → Bytes)
    (random : ℕ → ℕ → Bytes) (provider : Provider) (wallet : Address) (c : WalletConfig)
    (context : WalletContext) (is_eoa : List Bool) (sorted : List SortedSigner) (txs : Transactions)
    (signature : Bytes) (deployed : Bool) (estimates : List ℤ)
    → ArePresent txs
    → build_stub_signature k random c (pick_signers c sorted) is_eoa ≡ ok signature
    → is_wallet_deployed provider wallet ≡ ok deployed
    → estimate_prefixes sim k abi e draw 0 wallet signature
        (estimate_overrides sim context wallet deployed)
        end
        txs
      ≡ ok estimates
    → (first last : ℤ) × (limited : Transactions) × (estimate_prefix sim k abi e draw 0 wallet
          signature
          (estimate_overrides sim context wallet deployed)
          end
        ≡ ok first)
      × (estimate_prefix sim k abi e draw
            (count txs)
            wallet
            signature
            (estimate_overrides sim context wallet deployed)
            txs
          ≡ ok last)
      × (estimate sim k abi e draw random provider wallet c context (ok is_eoa) sorted txs
          ≡ ok (uint64_of last, limited))
      × (add_limits first limited ≡ last)
      × (without_limits limited ≡ without_limits txs)
unfolding estimate
estimate-add_limits sim k abi e draw random provider wallet c context is_eoa sorted txs signature
      deployed estimates p signed on_chain h =
    let (first, last, limited, one, all, finished, added, kept) =
      finish_estimate-Limited sim k abi e draw wallet signature
        (estimate_overrides sim context wallet deployed) txs estimates p h in
    (first, last, limited, one, all, rw (signed, on_chain, h) finished, added, kept)
