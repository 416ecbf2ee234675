-- ===== src/Nonce/Examples.antt =====
-- Nonces at concrete values.
use go_sequence.Base.{◌≡◌, refl, ◌^◌, ◌*◌, ◌+◌, ◌-◌}
use go_sequence.Base.Int.{pos, negsuc, ◌+ℤ◌, ◌*ℕ◌}
use go_sequence.Base.Result.{ok, err, panic, external}
use go_sequence.Nonce.{encode_nonce, decode_nonce, generate_random_nonce}
use go_sequence.Nonce.RoundTrip.{decode_nonce-encode_nonce}

encode_two : encode_nonce (pos 2) (pos 5) ≡ ok (pos (2 * 2 ^ 96 + 5))
unfolding encode_nonce ◌+ℤ◌ ◌*ℕ◌
encode_two = refl

decode_nonce-encode_nonce_example : decode_nonce (pos (2 * 2 ^ 96 + 5)) ≡ (pos 2, pos 5)
decode_nonce-encode_nonce_example = decode_nonce-encode_nonce (pos 2) 5 encode_two

-- A negative nonce is not read back.
negative_nonce : encode_nonce (pos 1) (negsuc 0) ≡ ok (pos (2 ^ 96 - 1))
unfolding encode_nonce ◌+ℤ◌ ◌*ℕ◌
negative_nonce = refl

random_failure : generate_random_nonce (err (external 0)) ≡ panic
unfolding generate_random_nonce
random_failure = refl
