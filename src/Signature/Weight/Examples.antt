-- ===== src/Signature/Weight/Examples.antt =====
-- `Weight` at concrete signatures.
use go_sequence.Base.{ℕ, ◌≡◌, refl, [], ◌∷◌, Option, none, some, replicate}
use go_sequence.Base.Result.{ok, panic}
use go_sequence.Signature.{SignaturePart, Signature}
use go_sequence.Signature.Weight.{weight_loop, total_weight}

abbrev signed : ℕ → Option SignaturePart
signed w = some (record { weight = w; address = 0; type = 0; value = 2 ∷ [] })

abbrev unsigned : ℕ → Option SignaturePart
unsigned w = some (record { weight = w; address = 5; type = 1; value = [] })

abbrev two_of_three : Signature
two_of_three = record { threshold = 2; signers = signed 200 ∷ unsigned 9 ∷ signed 100 ∷ [] }

weight_fits : total_weight two_of_three ≡ ok 300
unfolding total_weight weight_loop
weight_fits = refl

-- 258 parts of weight 255 add up to 65790, which a uint16 does not hold.
weight_wraps :
    total_weight (record { threshold = 1; signers = replicate 258 (signed 255) }) ≡ ok 254
unfolding total_weight weight_loop
weight_wraps = refl

weight_nil : total_weight (record { threshold = 1; signers = none ∷ [] }) ≡ panic
unfolding total_weight weight_loop
weight_nil = refl
