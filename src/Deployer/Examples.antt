-- ===== src/Deployer/Examples.antt =====
-- A chain without the universal deployers, and a contract that is deployed on it.
use go_sequence.Base.{
  ℕ, ◌+◌, ◌<◌, ◌≡◌, ◌≢◌, ==_ne, subst, refl, [], ◌∷◌, none, some, Bool, true, false, ◌||◌, leb,
  ◌==◌, if◌then◌else◌, length, sym, arith,
}
use go_sequence.Base.Bytes.{Bytes, to_bytes, from_bytes}
use go_sequence.Base.Result.{ok, err, external}
use go_sequence.Ethkit.{Address}
use go_sequence.Ethkit.StandIn.{stand_in, stand_in-IsDocumented}
use go_sequence.Deployer.Effects.{◌>>=◌, Succeeds, succeeded}
use go_sequence.Deployer.Create2.{Packer, universal_deployer_2_address, compute_create2_address}
use go_sequence.Deployer.{
  Node, Request, send_and_wait, fund, deploy_universal_deployer_1, deploy_universal_deployer_2,
  deploy_universal_deployer, ensure_universal_deployer, universal_deployer_tx,
  universal_deployer_address, universal_deployer_funding, universal_deployer_2_bytecode,
  deploy_contract, deploy_absent, deploy_created, deploy,
}
use go_sequence.Deployer.Deployed.{HasCode, IsDeployed, deploy-HasCode}
use go_sequence.Deployer.Live.Chain.{created_at, IsLive}
use go_sequence.Deployer.Live.{deploy-Succeeds}
use go_sequence.Deployer.Create2.Eip1014.{IsPacker}
use go_sequence.Base.Int.{ℤ, pos, negsuc}

-- Which contracts are there, and what the account of the raw transaction has.
record Chain : Type 0 where
  first : Bool
  second : Bool
  contract : Bool
  funds : ℕ

abbrev code_if : Bool → Bytes
code_if true = 96 ∷ []
code_if false = []

abbrev the_address : Address
the_address = 0x0102

abbrev after_request : Chain → Request → Chain
after_request w r =
    if r.to == universal_deployer_2_address
    then record w { contract = w.contract || w.second }
    else if r.to == universal_deployer_address
    then record w { second = w.second || w.first }
    else record w { funds = w.funds + r.eth_value }

abbrev node : Node Chain Request Request
node = record {
  code_at = λ w a. ok (
      if a == universal_deployer_2_address
      then code_if w.second
      else if a == universal_deployer_address
      then code_if w.first
      else if a == the_address
      then code_if w.contract
      else []);
  balance_at = λ w a. ok w.funds;
  new_transaction = λ w r. ok r;
  send_transaction = elim [ none ↦ λ w. (w, err (external 0)) | some r ↦ λ w. (w, ok r) ];
  wait_tx = λ r w. (after_request w r, ok 1);
  send_raw_transaction = λ tx w. (w, ok tx);
  wait_for_txn_receipt =
      λ tx w. (record w { first = w.first || leb universal_deployer_funding w.funds }, ok 1);
}

abbrev salt_bytes : ℤ → Bytes
salt_bytes (pos n) = to_bytes 32 n
salt_bytes (negsuc n) = to_bytes 32 0

-- Arguments are packed as they are.
abbrev packer : Packer ℕ
packer = record {
  inputs = 0;
  pack = λ args. ok args;
  pack_deploy = λ data' salt. ok data';
  pack_uint256 = λ salt. ok (salt_bytes salt);
}

abbrev empty_chain : Chain
empty_chain = record { first = false; second = false; contract = false; funds = 7 }

code_if-true : (b : Bool) (code : Bytes) → ok (code_if b) ≡ ok code → 0 < length code → b ≡ true
code_if-true true code e h = refl
code_if-true false code e h = let same : code ≡ [] = cc in absurd (ground arith)

there : (b : Bool) → b ≡ true → (x : Bytes) × (ok (code_if b) ≡ ok x) × (0 < length x)
there b e = (96 ∷ [], rw e, omega arith)

or-true : (a b : Bool) → b ≡ true → (a || b) ≡ true
or-true true b e = refl
or-true false b e = e

created : compute_create2_address stand_in packer (1 ∷ 2 ∷ []) 0 [] ≡ ok (the_address, 1 ∷ 2 ∷ [])
unfolding compute_create2_address to_bytes from_bytes
created = refl

packer-IsPacker : IsPacker packer
packer-IsPacker = record {
  packs_uint256 = λ n small. refl;
  packs_deploy = λ code n small. (code, refl);
}

created_there : created_at stand_in (1 ∷ 2 ∷ []) 0 ≡ the_address
unfolding to_bytes from_bytes
created_there = refl

at_address : (w : Chain) → w.contract ≡ true → HasCode node w (created_at stand_in (1 ∷ 2 ∷ []) 0)
at_address w e = subst (HasCode node w) (sym created_there) (there w.contract e)

-- The creation of the first universal deployer leaves other addresses as they are.
others_kept :
    (w : Chain) (b : Bool) (a : Address)
    → a ≢ universal_deployer_address
    → node.code_at (record w { first = b }) a ≡ node.code_at w a
others_kept w b a apart = rw (==_ne a universal_deployer_address apart)

abbrev Always : Chain → Type 0
Always w = Unit

node-IsLive : IsLive node stand_in packer (1 ∷ 2 ∷ []) 0 40000 Always
node-IsLive = record {
  code_at-ok = λ w a ready. (_, refl);
  balance_at-ok = λ w a ready. (w.funds, refl);
  funds = λ w ready.
      (_, refl, succeeded w _ (succeeded _ 1 (refl, (tt, (_, refl, omega arith), λ a. refl))));
  deploys_1 = λ w ready (n, e, h) absent'. succeeded w _ (
      succeeded _ 1 (
        refl,
        tt,
        there _ (
            or-true w.first (leb universal_deployer_funding w.funds)
              (let same : w.funds ≡ n = cc in rw same (ground arith))),
        others_kept w (w.first || leb universal_deployer_funding w.funds),
      ));
  deploys_2 = λ w ready (code, e, h) absent'. (
    _,
    refl,
    succeeded w _ (
        succeeded _ 1
          (refl, (tt, there _ (or-true w.second w.first (code_if-true w.first code e h))))),
  );
  deploys = λ w input gas_limit ready (code, e, h) absent' packed enough. (
    _,
    refl,
    succeeded w _ (
        succeeded _ 1 (
          refl,
          at_address (record w { contract = w.contract || w.second })
              (or-true w.contract w.second (code_if-true w.second code e h)),
        )),
  );
}

abbrev deployed_chain : Chain
deployed_chain = record {
  first = true;
  second = true;
  contract = true;
  funds = 7 + universal_deployer_funding;
}

deployed :
    deploy node stand_in packer (1 ∷ 2 ∷ []) 0 50000 [] empty_chain
    ≡ (deployed_chain, ok the_address)
unfolding deploy ensure_universal_deployer deploy_universal_deployer deploy_universal_deployer_2
    deploy_universal_deployer_1 fund send_and_wait deploy_created deploy_absent deploy_contract
    compute_create2_address universal_deployer_tx universal_deployer_2_bytecode to_bytes from_bytes
    ◌>>=◌
deployed = refl

deploy-HasCode_example :
    IsDeployed node stand_in packer (1 ∷ 2 ∷ []) 0 [] deployed_chain the_address
deploy-HasCode_example =
    deploy-HasCode node stand_in packer (1 ∷ 2 ∷ []) 0 [] 50000 empty_chain deployed

deploy-Succeeds_example :
    Succeeds
      (λ w' a'. (a' ≡ created_at stand_in (1 ∷ 2 ∷ []) 0) × HasCode node w' a')
      (deploy node stand_in packer (1 ∷ 2 ∷ []) 0 50000 [] empty_chain)
deploy-Succeeds_example =
    deploy-Succeeds node (1 ∷ 2 ∷ []) [] [] 50000 empty_chain stand_in-IsDocumented packer-IsPacker
      node-IsLive tt (omega arith) refl (omega arith)
