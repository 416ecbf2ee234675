-- ===== src/Digest/Examples.antt =====
-- Sub-digests at concrete values.
use go_sequence.Base.{◌≡◌, refl, [], none, replicate}
use go_sequence.Base.Result.{ok, err, unknown_chain_id}
use go_sequence.Ethkit.StandIn.{stand_in}
use go_sequence.Digest.{Hash, zero_hash, sub_digest, compute_meta_txn_id_from_digest}

abbrev some_digest : Hash
some_digest = replicate 32 5

no_chain_id : sub_digest stand_in none 0xabc some_digest ≡ err unknown_chain_id
unfolding sub_digest
no_chain_id = refl

no_meta_txn_id :
    compute_meta_txn_id_from_digest stand_in none 0xabc some_digest ≡ ok ([], zero_hash)
unfolding compute_meta_txn_id_from_digest sub_digest
no_meta_txn_id = refl
