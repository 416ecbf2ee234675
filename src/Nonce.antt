-- ===== src/Nonce.antt =====
-- `EncodeNonce`, `DecodeNonce` and `GenerateRandomNonce` of transactions.go.
pub mod RoundTrip
mod Examples
use go_sequence.Base.{ℕ, ◌-◌, ◌*◌, ◌^◌, if◌then◌else◌}
use go_sequence.Base.Int.{ℤ, pos, negsuc, ◌+ℤ◌, ◌*ℕ◌, ltb_ℤ, ◌divℤ◌, ◌modℤ◌}
use go_sequence.Base.Result.{
  Result, ok, err, panic, out_of_fuel, nonce_space_too_large, nonce_too_large,
}

-- The bounds are checked from above only: negative numbers pass.
pub encode_nonce : ℤ → ℤ → Result ℤ
encode_nonce space nonce =
    if ltb_ℤ space (pos (2 ^ 160))
    then if ltb_ℤ nonce (pos (2 ^ 96))
      then ok ((space *ℕ (2 ^ 96)) +ℤ nonce)
      else err nonce_too_large
    else err nonce_space_too_large

-- The result is (space, nonce).
pub decode_nonce : ℤ → ℤ × ℤ
decode_nonce raw = (◌divℤ◌ raw (2 ^ 96), ◌modℤ◌ raw (2 ^ 96))

-- `max` of `GenerateRandomNonce`: `Sub(max, 1)` runs on the receiver, which `Exp` has just set.
abbrev pub max_random_space : ℕ
max_random_space = 2 ^ 100 - 1

-- `draw` is the result of `rand.Int(rand.Reader, max)`. On an error `Set(nil)` dereferences nil.
pub generate_random_nonce : Result ℕ → Result ℤ
generate_random_nonce (ok n) = ok (pos (n * 2 ^ 96))
generate_random_nonce (err e) = panic
generate_random_nonce panic = panic
generate_random_nonce out_of_fuel = out_of_fuel
