-- ===== src/Estimator/Examples.antt =====
-- Estimates at concrete values.
use go_sequence.Base.{
  zero, suc, ◌<◌, replicate, All, false, refl, ℕ, ◌≤◌, ◌≡◌, refl, List, [], ◌∷◌, true, arith,
}
use go_sequence.Config.{WalletConfig, WalletConfigSigner}
use go_sequence.Estimator.{SortedSigner, pick_loop, pick_signers}
use go_sequence.Ethkit.StandIn.{stand_in, stand_in-IsDocumented}
use go_sequence.Signature.{Signature}
use go_sequence.Signature.Codec.{decode_signature}
use go_sequence.Signature.Weight.{signed_weight}
use go_sequence.Signature.Validity.Unsigned.{IsConfigInRange}
use go_sequence.Base.Bytes.{Bytes, IsByte}
use go_sequence.Base.Result.{ok}
use go_sequence.Estimator.Picked.{AreIndexed}
use go_sequence.Estimator.Stub.{build_stub_signature}
use go_sequence.Estimator.Stub.Decoded.{build_stub_signature-reach}

abbrev of_weight : ℕ → WalletConfigSigner
of_weight w = record { weight = w; address = w }

abbrev two_of_three : WalletConfig
two_of_three = record { threshold = 4; signers = of_weight 3 ∷ of_weight 1 ∷ of_weight 2 ∷ [] }

abbrev by_weight : List SortedSigner
by_weight =
    record { s = of_weight 1; i = 1 }
    ∷ record { s = of_weight 2; i = 2 }
    ∷ record { s = of_weight 3; i = 0 }
    ∷ []

pick_three : pick_signers two_of_three by_weight ≡ true ∷ true ∷ true ∷ []
unfolding pick_signers pick_loop
pick_three = refl

by_weight-AreIndexed : AreIndexed two_of_three.signers by_weight
by_weight-AreIndexed = (
  refl,
  (λ e. absurd (omega arith), (λ e. absurd (omega arith), tt)),
  (refl, (λ e. absurd (omega arith), tt), (refl, tt, tt)),
)

replicate-IsByte : (n b : ℕ) → b < 256 → All IsByte (replicate n b)
replicate-IsByte zero b h = tt
replicate-IsByte (suc n) b h = (h, replicate-IsByte n b h)

two_of_three-IsConfigInRange : IsConfigInRange two_of_three
two_of_three-IsConfigInRange = record {
  threshold_fits = omega arith;
  signers_fit =
      ((omega arith, omega arith), ((omega arith, omega arith), ((omega arith, omega arith), tt)));
}

-- The second signer is a contract.
build_stub_signature-reach_example :
    (b : Bytes) × (s : Signature) × (build_stub_signature stand_in
        (λ i j. replicate 20 7)
        two_of_three
        (pick_signers two_of_three by_weight)
        (true ∷ false ∷ true ∷ [])
      ≡ ok b)
    × (decode_signature stand_in b ≡ ok s)
    × (s.threshold ≤ signed_weight s.signers)
build_stub_signature-reach_example =
    build_stub_signature-reach stand_in (λ i j. replicate 20 7) two_of_three by_weight
      (true ∷ false ∷ true ∷ []) stand_in-IsDocumented (λ i j. replicate-IsByte 20 7 (omega arith))
      two_of_three-IsConfigInRange refl by_weight-AreIndexed (omega arith)
