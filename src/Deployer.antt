-- ===== src/Deployer.antt =====
-- deployer/deployer.go: deploying a contract at an address that follows from its code, through the
-- universal deployer contracts, which are deployed first when the chain does not have them.
pub mod Effects
pub mod Create2
pub mod Deployed
pub mod Live
mod Examples
use go_sequence.Base.{ℕ, ◌*◌, List, [], ◌∷◌, Option, none, some, ltb, ◌==◌, if◌then◌else◌, length}
use go_sequence.Base.Bytes.{Bytes, codes, to_bytes}
use go_sequence.Base.Result.{
  Result, ok, err, panic, out_of_fuel, provider_not_set, cannot_deploy_universal_deployer,
  cannot_deploy_contract, transaction_failed, failed_to_deploy_stage_1,
}
use go_sequence.Ethkit.{Ethkit, Address}
use go_sequence.Deployer.Effects.{Action, ◌>>=◌, ◌>>◌, done, query}
use go_sequence.Deployer.Create2.{
  Packer, int64_of, universal_deployer_2_address, compute_create2_address,
}

abbrev pub eoa_universal_deployer_address : Address
eoa_universal_deployer_address = 0x9c5a87452d4FAC0cbd53BDCA580b20A45526B3AB

abbrev pub universal_deployer_address : Address
universal_deployer_address = 0x1b926fbb24a9f78dcdd3272f2d86f5d0660e59c0

abbrev pub universal_deployer_funding : ℕ
universal_deployer_funding = 300 * 100000000000000

pub universal_deployer_tx : Bytes
universal_deployer_tx =
    codes
      "0xf9010880852416b84e01830222e08080b8b66080604052348015600f57600080fd5b50609980601d6000396000f3fe60a06020601f369081018290049091028201604052608081815260009260609284918190838280828437600092018290525084519495509392505060208401905034f5604080516001600160a01b0383168152905191935081900360200190a0505000fea26469706673582212205a310755225e3c740b2f013fb6343f4c205e7141fcdf15947f5f0e0e818727fb64736f6c634300060a00331ca01820182018201820182018201820182018201820182018201820182018201820a01820182018201820182018201820182018201820182018201820182018201820"

pub universal_deployer_2_bytecode : Bytes
universal_deployer_2_bytecode =
    to_bytes 349
      0x608060405234801561001057600080fd5b5061013d806100206000396000f3fe60806040526004361061001e5760003560e01c80639c4ae2d014610023575b600080fd5b6100cb6004803603604081101561003957600080fd5b81019060208101813564010000000081111561005457600080fd5b82018360208201111561006657600080fd5b8035906020019184600183028401116401000000008311171561008857600080fd5b91908080601f01602080910402602001604051908101604052809392919081815260200183838082843760009201919091525092955050913592506100cd915050565b005b60008183516020850134f56040805173ffffffffffffffffffffffffffffffffffffffff83168152905191925081900360200190a050505056fea264697066735822122033609f614f03931b92d88c309d698449bb77efcd517328d341fa4f923c5d8c7964736f6c63430007060033

-- `ethtxn.TransactionRequest`, with the fields that the deployer sets.
pub record Request : Type 0 where
  pub to : Address
  pub data' : Bytes
  pub eth_value : ℕ
  pub gas_limit : ℕ

-- `types.ReceiptStatusSuccessful`
abbrev pub receipt_status_successful : ℕ
receipt_status_successful = 1

-- The provider of a chain and a wallet that is connected to it. `send_transaction` may be given a nil
-- transaction, and returns what to wait for; waiting returns the status of the receipt.
pub record Node (World Tx Pending : Type 0) : Type 0 where
  pub code_at : World → Address → Result Bytes
  pub balance_at : World → Address → Result ℕ
  pub new_transaction : World → Request → Result Tx
  pub send_transaction : Option Tx → Action World Pending
  pub wait_tx : Pending → Action World ℕ
  pub send_raw_transaction : Bytes → Action World Bytes
  pub wait_for_txn_receipt : Bytes → Action World ℕ

-- The code, or no bytes when the call failed: the error is overwritten.
abbrev pub code_or_empty : Result Bytes → Result Bytes
code_or_empty (ok code) = ok code
code_or_empty (err e) = ok []
code_or_empty panic = panic
code_or_empty out_of_fuel = out_of_fuel

-- The transaction, or nil when the call failed: the error is overwritten.
abbrev pub tx_or_nil : {Tx : Type 0} → Result Tx → Result (Option Tx)
tx_or_nil (ok tx) = ok (some tx)
tx_or_nil (err e) = ok none
tx_or_nil panic = panic
tx_or_nil out_of_fuel = out_of_fuel

-- `NewUniversalDeployer`, for the wallet's provider.
pub new_universal_deployer : {P : Type 0} → Option P → Result P
new_universal_deployer none = err provider_not_set
new_universal_deployer (some provider) = ok provider

module _ {World Tx Pending : Type 0} (node : Node World Tx Pending) where
  -- The status of a receipt is looked at.
  abbrev pub successful : ℕ → Action World Unit
  successful status =
      if status == receipt_status_successful then done (ok tt) else done (err transaction_failed)

  -- `SendTransaction`, `waitTx` and the test of the receipt.
  pub send_and_wait : Option Tx → Action World Unit
  send_and_wait tx = do
    pending ← node.send_transaction tx
    status ← node.wait_tx pending
    successful status

  abbrev pub funding_request : Request
  funding_request = record {
    to = eoa_universal_deployer_address;
    data' = [];
    eth_value = universal_deployer_funding;
    gas_limit = 0;
  }

  -- The wallet of the deployer's key gets its funds.
  pub fund : Action World Unit
  fund = do
    signed_txn ← query λ w. node.new_transaction w funding_request
    send_and_wait (some signed_txn)

  -- `deployUniversalDeployer1`
  pub deploy_universal_deployer_1 : Action World Unit
  deploy_universal_deployer_1 = do
    deployer_balance ← query λ w. node.balance_at w eoa_universal_deployer_address
    if ltb deployer_balance universal_deployer_funding then fund else done (ok tt)
    tx_hash ← node.send_raw_transaction universal_deployer_tx
    status ← node.wait_for_txn_receipt tx_hash
    successful status
    code ← query λ w. node.code_at w universal_deployer_address
    if length code == 0 then done (err failed_to_deploy_stage_1) else done (ok tt)

  abbrev pub deployer_2_request : Request
  deployer_2_request = record {
    to = universal_deployer_address;
    data' = universal_deployer_2_bytecode;
    eth_value = 0;
    gas_limit = 200000;
  }

  -- `deployUniversalDeployer2`
  pub deploy_universal_deployer_2 : Action World Unit
  deploy_universal_deployer_2 = do
    code ← query λ w. node.code_at w universal_deployer_address
    if length code == 0 then deploy_universal_deployer_1 else done (ok tt)
    tx ← query λ w. node.new_transaction w deployer_2_request
    send_and_wait (some tx)

  -- The universal deployer is deployed, and looked for.
  pub deploy_universal_deployer : Action World Unit
  deploy_universal_deployer = do
    deploy_universal_deployer_2
    code ← query λ w. code_or_empty (node.code_at w universal_deployer_2_address)
    if length code == 0 then done (err cannot_deploy_universal_deployer) else done (ok tt)

  -- The first part of `Deploy`: the universal deployer is deployed when it is not there.
  pub ensure_universal_deployer : Action World Unit
  ensure_universal_deployer = do
    code ← query λ w. node.code_at w universal_deployer_2_address
    if length code == 0 then deploy_universal_deployer else done (ok tt)

  abbrev pub deploy_request : Bytes → ℕ → Request
  deploy_request input gas_limit = record {
    to = universal_deployer_2_address;
    data' = input;
    eth_value = 0;
    gas_limit = gas_limit;
  }

  -- The last part of `Deploy`: the transaction is sent, and the contract looked for.
  pub deploy_contract : Address → Bytes → ℕ → Action World Address
  deploy_contract contract_address input gas_limit = do
    tx ← query λ w. tx_or_nil (node.new_transaction w (deploy_request input gas_limit))
    send_and_wait tx
    code ← query λ w. code_or_empty (node.code_at w contract_address)
    if length code == 0 then done (err cannot_deploy_contract) else done (ok contract_address)

  module _ {Arg : Type 0} (k : Ethkit) (p : Packer Arg) where
    -- What `Deploy` does for a contract that is not there yet.
    pub deploy_absent : Address × Bytes → ℕ → ℕ → Action World Address
    deploy_absent created contract_instance gas_limit = do
      input ← done (p.pack_deploy created.1 (int64_of contract_instance))
      deploy_contract created.0 input gas_limit

    -- `Deploy` for a contract whose address is known: when it is there already, nothing is done.
    pub deploy_created : Address × Bytes → ℕ → ℕ → Action World Address
    deploy_created created contract_instance gas_limit = do
      code ← query λ w. node.code_at w created.0
      if length code == 0
          then deploy_absent created contract_instance gas_limit
          else done (ok created.0)

    -- `Deploy`
    pub deploy : Bytes → ℕ → ℕ → List Arg → Action World Address
    deploy contract_bin contract_instance gas_limit contract_args = do
      ensure_universal_deployer
      created ← done (compute_create2_address k p contract_bin contract_instance contract_args)
      deploy_created created contract_instance gas_limit
