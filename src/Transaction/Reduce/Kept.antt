-- ===== src/Transaction/Reduce/Kept.antt =====
-- What `ReduceSignatures` leaves alone.
use go_sequence.Base.{ℕ, ◌≡◌, refl, ap, ◌∙◌, Option, none}
use go_sequence.Base.Bytes.{Bytes}
use go_sequence.Base.Result.{Result, ok, err, panic, out_of_fuel, ◌>>◌}
use go_sequence.Ethkit.{Ethkit}
use go_sequence.Transaction.{
  Body, Transaction, transaction, Children, no_children, children, Transactions, end, absent, next,
  is_valid,
}
use go_sequence.Transaction.Encode.{Abi}
use go_sequence.Transaction.Reduce.{
  reduced_signature, store_signature, after_child, reduce_signatures, reduce_children, reduce_all,
}

-- A transaction without its signature and those of its children.
abbrev mutual
  pub unsigned : Transaction → Transaction
  unsigned (transaction b c) = transaction (record b { signature = none }) (unsigned_children c)

  pub unsigned_children : Children → Children
  unsigned_children no_children = no_children
  unsigned_children (children ts) = children (unsigned_all ts)

  pub unsigned_all : Transactions → Transactions
  unsigned_all end = end
  unsigned_all (absent ts) = absent (unsigned_all ts)
  unsigned_all (next t ts) = next (unsigned t) (unsigned_all ts)

module _ (abi : Abi) (k : Ethkit) (chain_id : Option ℕ) where
  unsigned-store_signature :
      (b : Body) (c : Children) (later : Children × Result {0} Unit) (r : Result (Option Bytes))
      → unsigned_children later.0 ≡ unsigned_children c
      → unsigned (store_signature abi k chain_id b c later r).0 ≡ unsigned (transaction b c)
  unfolding store_signature
  unsigned-store_signature b c later (ok s) h = ap (transaction (record b { signature = none })) h
  unsigned-store_signature b c later (err e) h = refl
  unsigned-store_signature b c later panic h = refl
  unsigned-store_signature b c later out_of_fuel h = refl

  unsigned-after_child :
      (t : Transaction × Result {0} Unit) (ts : Transactions)
      (later : Transactions × Result {0} Unit)
      → unsigned_all later.0 ≡ unsigned_all ts
      → unsigned_all (after_child abi k chain_id t ts later).0
        ≡ next (unsigned t.0) (unsigned_all ts)
  unfolding after_child
  unsigned-after_child (t, ok u) ts later h = ap (next (unsigned t)) h
  unsigned-after_child (t, err e) ts later h = refl
  unsigned-after_child (t, panic) ts later h = refl
  unsigned-after_child (t, out_of_fuel) ts later h = refl

  mutual
    unfolding reduce_signatures

    unsigned-reduce_signatures :
        (t : Transaction) → unsigned (reduce_signatures abi k chain_id t).0 ≡ unsigned t
    unsigned-reduce_signatures (transaction b c) =
        unsigned-store_signature b c (reduce_children abi k chain_id c)
          (is_valid (transaction b c) >> reduced_signature abi k chain_id b c)
          (unsigned-reduce_children c)

    unsigned-reduce_children :
        (c : Children)
        → unsigned_children (reduce_children abi k chain_id c).0 ≡ unsigned_children c
    unsigned-reduce_children no_children = refl
    unsigned-reduce_children (children ts) = ap children (unsigned-reduce_all ts)

    unsigned-reduce_all :
        (ts : Transactions) → unsigned_all (reduce_all abi k chain_id ts).0 ≡ unsigned_all ts
    unsigned-reduce_all end = refl
    unsigned-reduce_all (absent ts) = refl
    unsigned-reduce_all (next t ts) =
        unsigned-after_child (reduce_signatures abi k chain_id t) ts (reduce_all abi k chain_id ts)
          (unsigned-reduce_all ts)
        ∙ ap (λ u. next u (unsigned_all ts)) (unsigned-reduce_signatures t)

-- `ReduceSignatures` changes nothing of a transaction and of those in it but their signatures, whatever
-- error stops it.
pub reduce_signatures-unsigned :
    (abi : Abi) (k : Ethkit) (chain_id : Option ℕ) (t : Transaction)
    → unsigned (reduce_signatures abi k chain_id t).0 ≡ unsigned t
reduce_signatures-unsigned abi k chain_id t = unsigned-reduce_signatures abi k chain_id t
