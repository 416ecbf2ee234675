-- ===== src/Deployer/Deployed.antt =====
-- Where the code of a deployed contract is.
use go_sequence.Base.{ℕ, ◌<◌, ◌≡◌, refl, List, false, ◌==◌, length, arith}
use go_sequence.Base.Bytes.{Bytes}
use go_sequence.Base.Result.{Result, ok, err, panic, out_of_fuel}
use go_sequence.Ethkit.{Ethkit, Address}
use go_sequence.Deployer.Effects.{
  Ensures, Ensures-Any, Ensures-query, Ensures-bind, Ensures-if, Ensures-map, returned, failed,
  Ensures-eq,
}
use go_sequence.Deployer.Create2.{Packer, compute_create2_address}
use go_sequence.Deployer.{
  Node, code_or_empty, deploy_contract, deploy_absent, deploy_created, deploy,
}

module _ {World Tx Pending : Type 0} (node : Node World Tx Pending) where
  -- There is code at the address.
  abbrev pub HasCode : World → Address → Type 0
  HasCode w a = (code : Bytes) × (node.code_at w a ≡ ok code) × (0 < length code)

  code_or_empty-HasCode :
      (w : World) (a : Address) (code : Bytes)
      → code_or_empty (node.code_at w a) ≡ ok code
      → (length code == 0) ≡ false
      → HasCode w a
  code_or_empty-HasCode w a code e n = found (node.code_at w a) refl e
    where
      found : (r : Result Bytes) → node.code_at w a ≡ r → code_or_empty r ≡ ok code → HasCode w a
      found (ok code') e1 e2 = (code', e1, ground arith)
      found (err x) e1 e2 = let none_there : length code ≡ 0 = ground arith in absurd (ground arith)
      found panic e1 e2 = cc
      found out_of_fuel e1 e2 = cc

  -- The code is at the address, and the address is the one that was asked for.
  abbrev IsAt : Address → World → Address → Type 0
  IsAt a w a' = (a' ≡ a) × HasCode w a'

  -- The query of the code at an address.
  abbrev Read : World → Result Bytes → World → Bytes → Type 0
  Read w r v code = (v ≡ w) × (r ≡ ok code)

  deploy_contract-IsAt :
      (a : Address) (input : Bytes) (gas_limit : ℕ) (w : World)
      → Ensures (IsAt a) (deploy_contract node a input gas_limit w)
  unfolding deploy_contract
  deploy_contract-IsAt a input gas_limit w = Ensures-bind _ _ _ (Ensures-Any _) λ w1 tx _.
      Ensures-bind _ _ _ (Ensures-Any _) λ w2 u _.
        Ensures-bind _ _ _
          (Ensures-query {Q = Read w2 (code_or_empty (node.code_at w2 a))} w2 _
            (λ code e. (refl, e)))
          λ w3 code h.
            Ensures-if _ _ _ w3 (λ y. failed w3 _)
              (λ n. returned w3 a (refl, code_or_empty-HasCode w3 a code (rw (← h.0) at h.1) n))

  deploy_created-IsAt :
      {Arg : Type 0} (k : Ethkit) (p : Packer Arg) (created : Address × Bytes)
      (contract_instance gas_limit : ℕ) (w : World)
      → Ensures (IsAt created.0) (deploy_created node k p created contract_instance gas_limit w)
  unfolding deploy_created deploy_absent
  deploy_created-IsAt k p created contract_instance gas_limit w =
      Ensures-bind _ _ _
        (Ensures-query {Q = Read w (node.code_at w created.0)} w _ (λ code e. (refl, e)))
        λ w1 code h.
          Ensures-if (length code == 0) _ _ w1
            (λ y.
              Ensures-bind _ _ _ (Ensures-Any _)
                λ w2 input _. deploy_contract-IsAt created.0 input gas_limit w2)
            (λ n. returned w1 created.0 (refl, (code, rw (← h.0) at h.1, ground arith)))

  module _ {Arg : Type 0} (k : Ethkit) (p : Packer Arg) (contract_bin : Bytes)
      (contract_instance : ℕ) (contract_args : List Arg) where
    -- There is code at the address, which `ComputeCreate2Address` gives.
    abbrev pub IsDeployed : World → Address → Type 0
    IsDeployed w a =
        HasCode w a
        × (data' : Bytes) × (compute_create2_address k p contract_bin contract_instance
              contract_args
            ≡ ok (a, data'))

    deploy-IsDeployed :
        (gas_limit : ℕ) (w : World)
        → Ensures IsDeployed
            (deploy node k p contract_bin contract_instance gas_limit contract_args w)
    unfolding deploy
    deploy-IsDeployed gas_limit w = Ensures-bind _ _ _ (Ensures-Any _) λ w1 u _.
        Ensures-bind _ _ _
          (Ensures-query
            {Q = λ v created.
              compute_create2_address k p contract_bin contract_instance contract_args ≡ ok created}
            w1 _ (λ created e. e))
          λ w2 created e.
            Ensures-map (deploy_created-IsAt k p created contract_instance gas_limit w2)
              (λ w3 a at. (at.1, created.1, rw at.0 e))

    -- When `Deploy` succeeds, there is code at the address that it returns, and the address is the one
    -- that `ComputeCreate2Address` gives for the contract.
    pub deploy-HasCode :
        (gas_limit : ℕ) (w : World) {w' : World} {a : Address}
        → deploy node k p contract_bin contract_instance gas_limit contract_args w ≡ (w', ok a)
        → IsDeployed w' a
    deploy-HasCode gas_limit w e = Ensures-eq (deploy-IsDeployed gas_limit w) e
