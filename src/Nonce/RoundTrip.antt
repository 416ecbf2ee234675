-- ===== src/Nonce/RoundTrip.antt =====
-- A nonce and its space are packed into one number, and read back.
use go_sequence.Base.{ℕ, ◌*◌, ◌^◌, ◌<◌, ◌≡◌, refl, arith}
use go_sequence.Base.Int.{ℤ, pos, negsuc, ◌+ℤ◌, ◌*ℕ◌, ◌divℤ◌, ◌modℤ◌}
use go_sequence.Base.Result.{ok}
use go_sequence.Nonce.{encode_nonce, decode_nonce, generate_random_nonce, max_random_space}

-- A nonce that is not negative and was encoded is decoded to the same space and nonce, for a
-- negative space too.
pub decode_nonce-encode_nonce :
    (space : ℤ) (nonce : ℕ) {raw : ℤ}
    → encode_nonce space (pos nonce) ≡ ok raw
    → decode_nonce raw ≡ (space, pos nonce)
unfolding encode_nonce decode_nonce ◌+ℤ◌ ◌*ℕ◌ ◌divℤ◌ ◌modℤ◌
decode_nonce-encode_nonce (pos s) nonce e = ground arith
decode_nonce-encode_nonce (negsuc s) nonce e = ground arith

-- Every 256-bit number is the encoding of the space and the nonce that it decodes to.
encode_nonce-decode_nonce :
    (raw : ℕ)
    → raw < 2 ^ 256
    → let (space, nonce) = decode_nonce (pos raw) in encode_nonce space nonce ≡ ok (pos raw)
unfolding encode_nonce decode_nonce ◌+ℤ◌ ◌*ℕ◌ ◌divℤ◌ ◌modℤ◌
encode_nonce-decode_nonce raw h = ground arith

-- A generated nonce is a space of at most 100 bits with the nonce 0, and its encoding is accepted.
generate_random_nonce-encode_nonce :
    (n : ℕ)
    → n < max_random_space
    → (raw : ℤ) × (generate_random_nonce (ok n) ≡ ok raw)
      × (decode_nonce raw ≡ (pos n, pos 0))
      × (encode_nonce (pos n) (pos 0) ≡ ok raw)
unfolding generate_random_nonce encode_nonce decode_nonce ◌+ℤ◌ ◌*ℕ◌ ◌divℤ◌ ◌modℤ◌
generate_random_nonce-encode_nonce n h = (pos (n * 2 ^ 96), refl, ground arith, ground arith)
