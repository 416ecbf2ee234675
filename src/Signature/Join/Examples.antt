-- ===== src/Signature/Join/Examples.antt =====
-- Joining at concrete signatures.
use go_sequence.Base.{ℕ, ◌≡◌, ◌≢◌, refl, [], ◌∷◌, ◌++◌, Option, some, arith}
use go_sequence.Base.Bytes.{bytes_equal}
use go_sequence.Base.Result.{ok, panic, err, different_signed_messages}
use go_sequence.Signature.{SignaturePart, Signature}
use go_sequence.Signature.Join.{
  copy_loop, copy, next_index, find_address, join_found, join_loop, join_two, join_all,
  join_signatures,
}
use go_sequence.Signature.Join.NilParts.{join_signatures-ne-ok}
use go_sequence.Signature.Join.Addresses.{addresses, join_two-addresses}

abbrev alice : ℕ → Option SignaturePart
alice v = some (record { weight = 1; address = 0xa; type = 2; value = v ∷ [] })

abbrev bob : Option SignaturePart
bob = some (record { weight = 1; address = 0xb; type = 1; value = [] })

abbrev from_alice : Signature
from_alice = record { threshold = 2; signers = alice 7 ∷ bob ∷ [] }

abbrev from_bob : Signature
from_bob = record { threshold = 2; signers = bob ∷ [] }

join_signatures-ne-ok_example : join_signatures (from_alice ∷ from_bob ∷ []) ≢ ok from_alice
join_signatures-ne-ok_example =
    join_signatures-ne-ok from_alice from_bob [] from_alice (omega arith) (omega arith)

-- The first part of the copy is nil.
join_panics : join_signatures (from_alice ∷ from_bob ∷ []) ≡ panic
unfolding join_signatures copy copy_loop join_all join_two join_loop find_address
join_panics = refl

abbrev both : Signature
both = record { threshold = 2; signers = alice 7 ∷ bob ∷ bob ∷ [] }

join_both : join_two from_alice from_bob ≡ ok both
unfolding join_two join_loop find_address next_index join_found
join_both = refl

join_two-addresses_example :
    addresses both.signers ≡ addresses (from_alice.signers ++ from_bob.signers)
join_two-addresses_example = join_two-addresses from_alice from_bob join_both

join_conflict :
    join_two from_alice (record { threshold = 2; signers = alice 8 ∷ [] })
    ≡ err different_signed_messages
unfolding join_two join_loop find_address next_index join_found bytes_equal
join_conflict = refl
