-- ===== src/Deployer/Live.antt =====
-- A deployment comes through on a chain that executes what it is sent.
pub mod Chain
pub mod Stages
use go_sequence.Base.{ℕ, ◌^◌, ◌<◌, ◌≤◌, ◌≡◌, refl, List, ◌++◌, some, ◌==◌, length, arith}
use go_sequence.Base.Bytes.{Bytes}
use go_sequence.Base.Int.{pos}
use go_sequence.Base.Result.{ok}
use go_sequence.Ethkit.{Ethkit, Address, IsDocumented}
use go_sequence.Deployer.Create2.Eip1014.{
  packed_args, IsPacker, int64_of-pos, compute_create2_address-create2_address,
}
use go_sequence.Deployer.Effects.{Succeeds, succeeded, Succeeds-bind, Succeeds-if, Succeeds-read}
use go_sequence.Deployer.Create2.{Packer}
use go_sequence.Deployer.{Node, deploy_contract, deploy_absent, deploy_created, deploy}
use go_sequence.Deployer.Deployed.{HasCode}
use go_sequence.Deployer.Live.Chain.{created_at, NoCode, IsLive}
use go_sequence.Deployer.Live.Stages.{
  HasSecond, send_and_wait-Succeeds, code_there, no_code, ensure_universal_deployer-Succeeds,
}

module _ {World Tx Pending : Type 0} (node : Node World Tx Pending) where
  module _ {Arg : Type 0} {k : Ethkit} {p : Packer Arg} {code : Bytes} {n gas_needed : ℕ}
      {Ready : World → Type 0} (live : IsLive node k p code n gas_needed Ready) where
    -- What `Deploy` ends with.
    abbrev IsCreated : World → Address → Type 0
    IsCreated w' a' = (a' ≡ created_at k code n) × HasCode node w' a'

    deploy_contract-Succeeds :
        (w : World) (input : Bytes) (gas_limit : ℕ)
        → HasSecond node live w
        → NoCode node w (created_at k code n)
        → p.pack_deploy code (pos n) ≡ ok input
        → gas_needed ≤ gas_limit
        → Succeeds IsCreated (deploy_contract node (created_at k code n) input gas_limit w)
    unfolding deploy_contract
    deploy_contract-Succeeds w input gas_limit (ready, there) absent' e enough =
        let a = created_at k code n in
        let (tx, e3, h) = live.deploys w input gas_limit ready there absent' e enough in
        Succeeds-read _ _ w (some tx) (rw e3) (
          Succeeds-bind _ _ w (send_and_wait-Succeeds node w (λ w'. HasCode node w' a) tx h)
            λ w1 u (found, e', long).
              Succeeds-read _ _ w1 found (rw e')
                (code_there node w1 found _ a long (refl, (found, e', long))))

    deploy_created-Succeeds :
        (w : World) (gas_limit : ℕ)
        → IsPacker p
        → n < 2 ^ 63
        → gas_needed ≤ gas_limit
        → HasSecond node live w
        → Succeeds IsCreated (deploy_created node k p (created_at k code n, code) n gas_limit w)
    unfolding deploy_created deploy_absent
    deploy_created-Succeeds w gas_limit packs small enough second =
        let a = created_at k code n in
        let (found, e) = live.code_at-ok w a second.0 in
        Succeeds-read _ _ w found e (
          Succeeds-if (length found == 0) _ _ w
            (λ y.
              let (input, e2) = packs.packs_deploy code n (omega arith) in
              Succeeds-read _ _ w input (rw (int64_of-pos n small) e2) (
                deploy_contract-Succeeds w input gas_limit second (no_code node w a found e y) e2
                  enough))
            (λ l. succeeded w a (refl, (found, e, ground arith))))

  -- On a chain that answers and executes what the wallet can pay for, whichever of the universal
  -- deployers it has already, `Deploy` succeeds when the arguments can be packed, the instance is below
  -- 2 ^ 63 and the gas is enough: it returns the address that EIP-1014 gives for the second universal
  -- deployer, the instance and the contract's code with its arguments, and there is code at it.
  pub deploy-Succeeds :
      {Arg : Type 0} {k : Ethkit} {p : Packer Arg} {n gas_needed : ℕ} {Ready : World → Type 0}
      (contract_bin packed : Bytes) (contract_args : List Arg) (gas_limit : ℕ) (w : World)
      → IsDocumented k
      → IsPacker p
      → IsLive node k p (contract_bin ++ packed) n gas_needed Ready
      → Ready w
      → n < 2 ^ 63
      → p.pack (packed_args p contract_args) ≡ ok packed
      → gas_needed ≤ gas_limit
      → Succeeds
          (λ w' a'. (a' ≡ created_at k (contract_bin ++ packed) n) × HasCode node w' a')
          (deploy node k p contract_bin n gas_limit contract_args w)
  unfolding deploy
  deploy-Succeeds {k = k} {p = p} {n = n} contract_bin packed contract_args gas_limit w d packs live
        ready small e enough =
      Succeeds-bind _ _ w (ensure_universal_deployer-Succeeds node live w ready) λ w1 u second.
        Succeeds-read _ _ w1 _
          (compute_create2_address-create2_address k p contract_bin packed n contract_args d packs
            small e)
          (deploy_created-Succeeds live w1 gas_limit packs small enough second)
