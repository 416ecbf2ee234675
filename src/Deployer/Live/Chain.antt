-- ===== src/Deployer/Live/Chain.antt =====
-- What a chain is taken to do with the transactions of deployer/deployer.go.
use go_sequence.Base.{ℕ, ◌≤◌, ◌≡◌, ◌≢◌, [], some}
use go_sequence.Base.Bytes.{Bytes, to_bytes}
use go_sequence.Base.Int.{pos}
use go_sequence.Base.Result.{ok}
use go_sequence.Ethkit.{Ethkit, Address}
use go_sequence.Deployer.Create2.Eip1014.{create2_address}
use go_sequence.Deployer.Effects.{Succeeds}
use go_sequence.Deployer.Create2.{Packer, universal_deployer_2_address}
use go_sequence.Deployer.{
  Node, Request, receipt_status_successful, funding_request, eoa_universal_deployer_address,
  universal_deployer_funding, universal_deployer_tx, universal_deployer_address, deployer_2_request,
  deploy_request,
}
use go_sequence.Deployer.Deployed.{HasCode}

-- Where the second universal deployer creates a contract: the salt is the number of the instance.
abbrev pub created_at : Ethkit → Bytes → ℕ → Address
created_at k code n = create2_address k universal_deployer_2_address (to_bytes 32 n) code

module _ {World Tx Pending : Type 0} (node : Node World Tx Pending) where
  -- A transaction for the request is sent and waited for, its receipt has the status, and the property
  -- holds of the chain afterwards.
  abbrev pub IsExecuted : World → Request → (World → Type 0) → Type 0
  IsExecuted w r Q =
      (tx : Tx) × (node.new_transaction w r ≡ ok tx)
      × Succeeds
          (λ w1 pending.
            Succeeds (λ w2 status. (status ≡ receipt_status_successful) × Q w2)
              (node.wait_tx pending w1))
          (node.send_transaction (some tx) w)

  -- The account that sends the raw transaction has what it costs.
  abbrev pub HasFunds : World → Type 0
  HasFunds w =
      (n : ℕ) × (node.balance_at w eoa_universal_deployer_address ≡ ok n)
      × (universal_deployer_funding ≤ n)

  -- There is no code at the address.
  abbrev pub NoCode : World → Address → Type 0
  NoCode w a = node.code_at w a ≡ ok []

  -- `Ready` are the states of the chain in which the node answers and the wallet can pay; a transaction
  -- of the wallet leads from one to another. The transfer arrives and changes no code. The raw
  -- transaction, which can be executed once, creates the first universal deployer when its account can
  -- pay and the deployer is not there, and no other code. A request to that deployer creates the second
  -- one when it is not there. A request to the second one that is given enough gas runs the creation
  -- code, which leaves code at the address of EIP-1014, when there is none yet.
  pub record IsLive {Arg : Type 0} (k : Ethkit) (p : Packer Arg) (code : Bytes)
      (contract_instance gas_needed : ℕ) (Ready : World → Type 0) : Type 0 where
    pub code_at-ok :
        (w : World) (a : Address) → Ready w → (found : Bytes) × (node.code_at w a ≡ ok found)
    pub balance_at-ok : (w : World) (a : Address) → Ready w → (n : ℕ) × (node.balance_at w a ≡ ok n)
    pub funds :
        (w : World)
        → Ready w
        → IsExecuted w
            (funding_request node)
            (λ w'. Ready w' × HasFunds w' × ((a : Address) → node.code_at w' a ≡ node.code_at w a))
    pub deploys_1 :
        (w : World)
        → Ready w
        → HasFunds w
        → NoCode w universal_deployer_address
        → Succeeds
            (λ w1 hash.
              Succeeds
                (λ w2 status.
                  (status ≡ receipt_status_successful)
                  × Ready w2
                  × HasCode node w2 universal_deployer_address
                  × ((a : Address)
                      → a ≢ universal_deployer_address
                      → node.code_at w2 a ≡ node.code_at w a))
                (node.wait_for_txn_receipt hash w1))
            (node.send_raw_transaction universal_deployer_tx w)
    pub deploys_2 :
        (w : World)
        → Ready w
        → HasCode node w universal_deployer_address
        → NoCode w universal_deployer_2_address
        → IsExecuted w
            (deployer_2_request node)
            (λ w'. Ready w' × HasCode node w' universal_deployer_2_address)
    pub deploys :
        (w : World) (input : Bytes) (gas_limit : ℕ)
        → Ready w
        → HasCode node w universal_deployer_2_address
        → NoCode w (created_at k code contract_instance)
        → p.pack_deploy code (pos contract_instance) ≡ ok input
        → gas_needed ≤ gas_limit
        → IsExecuted w
            (deploy_request node input gas_limit)
            (λ w'. HasCode node w' (created_at k code contract_instance))
