-- ===== src/Deployer/Live/Stages.antt =====
-- The stages of the universal deployer of deployer/deployer.go come through.
use go_sequence.Base.{
  ℕ, ◌<◌, ◌≡◌, ◌≢◌, refl, ◌∙◌, [], ◌∷◌, some, true, ◌==◌, length, ltb, if◌then◌else◌, arith,
}
use go_sequence.Base.Bytes.{Bytes}
use go_sequence.Base.Result.{Error, ok, err, failed_to_deploy_stage_1}
use go_sequence.Ethkit.{Ethkit, Address}
use go_sequence.Deployer.Effects.{
  ◌>>=◌, ◌>>◌, query, done, Succeeds-map, Succeeds, succeeded, Succeeds-bind, Succeeds-if,
  Succeeds-read,
}
use go_sequence.Deployer.Create2.{Packer, universal_deployer_2_address}
use go_sequence.Deployer.{
  Node, successful, receipt_status_successful, send_and_wait, fund, eoa_universal_deployer_address,
  universal_deployer_funding, deploy_universal_deployer_1, deploy_universal_deployer_2,
  deploy_universal_deployer, ensure_universal_deployer, universal_deployer_tx,
  universal_deployer_address,
}
use go_sequence.Deployer.Deployed.{HasCode}
use go_sequence.Deployer.Live.Chain.{HasFunds, NoCode, IsLive}

module _ {World Tx Pending : Type 0} (node : Node World Tx Pending) where
  pub send_and_wait-Succeeds :
      (w : World) (Q : World → Type 0) (tx : Tx)
      → Succeeds
          (λ w1 pending.
            Succeeds
              (λ w2 status. (status ≡ receipt_status_successful) × Q w2)
              (node.wait_tx pending w1))
          (node.send_transaction (some tx) w)
      → Succeeds (λ w' u. Q w') (send_and_wait node (some tx) w)
  unfolding send_and_wait
  send_and_wait-Succeeds w Q tx h = Succeeds-bind _ _ _ h λ w1 pending h1.
      Succeeds-bind _ _ _ h1 λ w2 status h2.
        Succeeds-if (status == receipt_status_successful) _ _ w2 (λ y. succeeded w2 tt h2.1)
          (λ n. absurd (ground arith))

  -- The check that there is code, where there is.
  pub code_there :
      {A : Type 0} {Q : World → A → Type 0} (w : World) (code : Bytes) (e : Error) (v : A)
      → 0 < length code
      → Q w v
      → Succeeds Q ((if length code == 0 then done (err e) else done (ok v)) w)
  code_there w code e v long h =
      Succeeds-if (length code == 0) _ _ w (λ y. absurd (ground arith)) (λ n. succeeded w v h)

  -- Code that has no bytes.
  pub no_code :
      (w : World) (a : Address) (code : Bytes)
      → node.code_at w a ≡ ok code
      → (length code == 0) ≡ true
      → NoCode node w a
  no_code w a [] e h = e
  no_code w a (b ∷ code) e h = absurd (ground arith)

  module _ {Arg : Type 0} {k : Ethkit} {p : Packer Arg} {code : Bytes} {n gas_needed : ℕ}
      {Ready : World → Type 0} (live : IsLive node k p code n gas_needed Ready) where
    -- After the funding, which is left out when it is not needed.
    abbrev IsFunded : World → World → Type 0
    IsFunded w w' =
        Ready w' × HasFunds node w' × ((a : Address) → node.code_at w' a ≡ node.code_at w a)

    fund-Succeeds : (w : World) → Ready w → Succeeds (λ w' u. IsFunded w w') (fund node w)
    unfolding fund
    fund-Succeeds w ready =
        let (tx, e, h) = live.funds w ready in
        Succeeds-read _ _ w tx e (send_and_wait-Succeeds w (IsFunded w) tx h)

    -- The first universal deployer is there, and no other code has changed.
    abbrev HasFirst : World → World → Type 0
    HasFirst w w' =
        Ready w'
        × HasCode node w' universal_deployer_address
        × ((a : Address) → a ≢ universal_deployer_address → node.code_at w' a ≡ node.code_at w a)

    -- The raw transaction, on a chain that is funded.
    raw-Succeeds :
        (w : World)
        → Ready w
        → HasFunds node w
        → NoCode node w universal_deployer_address
        → Succeeds
            (λ w' u. HasFirst w w')
            ((do
              tx_hash ← node.send_raw_transaction universal_deployer_tx
              status ← node.wait_for_txn_receipt tx_hash
              successful node status
              found ← query λ w. node.code_at w universal_deployer_address
              if length found == 0 then done (err failed_to_deploy_stage_1) else done (ok tt))
              w)
    raw-Succeeds w ready funded absent' =
        Succeeds-bind _ _ w (live.deploys_1 w ready funded absent') λ w2 hash h.
          Succeeds-bind _ _ w2 h λ w3 status (same, ready3, there3, kept3).
            Succeeds-bind {P = λ w' u. HasFirst w w'} _ _ w3
              (Succeeds-if (status == receipt_status_successful) _ _ w3
                (λ y. succeeded w3 tt (ready3, there3, kept3)) (λ m. absurd (ground arith)))
              λ w4 u' (ready', (found, e', long), kept).
                Succeeds-read _ _ w4 found e'
                  (code_there w4 found _ tt long (ready', (found, e', long), kept))

    HasFirst-after :
        (w w1 : World)
        → IsFunded w w1
        → (w' : World) (u : Unit {0}) → HasFirst w1 w'
        → HasFirst w w'
    HasFirst-after w w1 (_, _, same) w' u (ready, there, kept) =
        (ready, there, λ a apart. kept a apart ∙ same a)

    deploy_universal_deployer_1-Succeeds :
        (w : World)
        → Ready w
        → NoCode node w universal_deployer_address
        → Succeeds (λ w' u. HasFirst w w') (deploy_universal_deployer_1 node w)
    unfolding deploy_universal_deployer_1
    deploy_universal_deployer_1-Succeeds w ready absent' =
        let (m, e) = live.balance_at-ok w eoa_universal_deployer_address ready in
        Succeeds-read _ _ w m e (
          Succeeds-bind {P = λ w' u. IsFunded w w'} _ _ w
            (Succeeds-if (ltb m universal_deployer_funding) _ _ w (λ y. fund-Succeeds w ready)
              (λ l. succeeded w tt (ready, (m, e, ground arith), λ a. refl)))
            λ w1 u (ready', funded, same).
              Succeeds-map
                (raw-Succeeds w1 ready' funded (same universal_deployer_address ∙ absent'))
                (HasFirst-after w w1 (ready', funded, same)))

    abbrev pub HasSecond : World → Type 0
    HasSecond w' = Ready w' × HasCode node w' universal_deployer_2_address

    deploy_universal_deployer_2-Succeeds :
        (w : World)
        → Ready w
        → NoCode node w universal_deployer_2_address
        → Succeeds (λ w' u. HasSecond w') (deploy_universal_deployer_2 node w)
    unfolding deploy_universal_deployer_2
    deploy_universal_deployer_2-Succeeds w ready absent' =
        let (found, e) = live.code_at-ok w universal_deployer_address ready in
        Succeeds-read _ _ w found e (
          Succeeds-bind {P = λ w' u. HasFirst w w'} _ _ w
            (Succeeds-if (length found == 0) _ _ w
              (λ y.
                deploy_universal_deployer_1-Succeeds w ready
                  (no_code w universal_deployer_address found e y))
              (λ l. succeeded w tt (ready, (found, e, ground arith), λ a apart. refl)))
            λ w1 u (ready', there, kept).
              let (tx, e1, h) =
                live.deploys_2 w1 ready' there
                  (kept universal_deployer_2_address (λ x. absurd (omega arith)) ∙ absent') in
              Succeeds-read _ _ w1 tx e1 (send_and_wait-Succeeds w1 HasSecond tx h))

    pub ensure_universal_deployer-Succeeds :
        (w : World) → Ready w → Succeeds (λ w' u. HasSecond w') (ensure_universal_deployer node w)
    unfolding ensure_universal_deployer deploy_universal_deployer
    ensure_universal_deployer-Succeeds w ready =
        let (found, e) = live.code_at-ok w universal_deployer_2_address ready in
        Succeeds-read _ _ w found e (
          Succeeds-if (length found == 0) _ _ w
            (λ y.
              Succeeds-bind _ _ w
                (deploy_universal_deployer_2-Succeeds w ready
                  (no_code w universal_deployer_2_address found e y))
                λ w1 u (ready', (code', e1, long)).
                  Succeeds-read _ _ w1 code' (rw e1)
                    (code_there w1 code' _ tt long (ready', (code', e1, long))))
            (λ l. succeeded w tt (ready, (found, e, ground arith))))
