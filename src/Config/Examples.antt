-- ===== src/Config/Examples.antt =====
-- Configurations at work. The addresses are those of config_test.go.
use mathlib.Core.List.{Perm}
use go_sequence.Base.{◌≤◌, ◌<◌, ◌≡◌, ◌↔◌, refl, [], ◌∷◌, true, arith}
use go_sequence.Base.Result.{ok, err, signer_duplicate, threshold_zero, threshold_above_weight}
use go_sequence.Ethkit.{Address}
use go_sequence.Config.{
  WalletConfig, WalletConfigSigner, insert_signer, sort_signers, has_duplicate, sort_wallet_config,
  weight_sum, is_wallet_config_usable,
}
use go_sequence.Config.Sort.{IsAscending, sort_wallet_config_sound, sort_wallet_config_complete}
use go_sequence.Config.Usable.{sum_of_weights, is_wallet_config_usable_iff}

abbrev two_from : Address → WalletConfigSigner
two_from a = record { weight = 2; address = a }

abbrev unsorted : WalletConfig
unsorted = record { threshold = 4; signers = two_from 0xdef ∷ two_from 0xabc ∷ two_from 0x456 ∷ [] }

abbrev sorted : WalletConfig
sorted = record { threshold = 4; signers = two_from 0x456 ∷ two_from 0xabc ∷ two_from 0xdef ∷ [] }

sort_three : sort_wallet_config unsorted ≡ ok sorted
unfolding sort_wallet_config sort_signers insert_signer has_duplicate
sort_three = refl

sort_duplicate :
    sort_wallet_config
      (record { threshold = 4; signers = two_from 0xdef ∷ two_from 0xabc ∷ two_from 0xdef ∷ [] })
    ≡ err signer_duplicate
unfolding sort_wallet_config sort_signers insert_signer has_duplicate
sort_duplicate = refl

sort_wallet_config_sound_example :
    (sorted.threshold ≡ unsorted.threshold)
    × IsAscending sorted.signers
    × Perm sorted.signers unsorted.signers
sort_wallet_config_sound_example = sort_wallet_config_sound unsorted sort_three

sort_wallet_config_complete_example :
    (c' : WalletConfig) × (sort_wallet_config unsorted ≡ ok c') × (sort_wallet_config c' ≡ ok c')
sort_wallet_config_complete_example = sort_wallet_config_complete unsorted (omega arith)

is_wallet_config_usable_iff_example :
    (is_wallet_config_usable unsorted ≡ ok true)
    ↔ ((0 < unsorted.threshold) × (unsorted.threshold ≤ sum_of_weights unsorted.signers))
is_wallet_config_usable_iff_example =
    is_wallet_config_usable_iff unsorted (omega arith) (omega arith)

usable_zero : is_wallet_config_usable (record unsorted { threshold = 0 }) ≡ err threshold_zero
unfolding is_wallet_config_usable
usable_zero = refl

usable_too_high :
    is_wallet_config_usable (record unsorted { threshold = 7 }) ≡ err threshold_above_weight
unfolding is_wallet_config_usable weight_sum
usable_too_high = refl
