-- ===== src/Digest/SubDigest.antt =====
-- What a sub-digest binds.
use go_sequence.Base.{ℕ, ◌^◌, ◌<◌, ◌≡◌, List, [], ◌∷◌, ◌++◌, append-nil, Option, some}
use go_sequence.Base.Bytes.{to_bytes}
use go_sequence.Base.Result.{Error, ok, err}
use go_sequence.Ethkit.{Ethkit, Address, IsAddress, IsDocumented, PackArg}
use go_sequence.Digest.{
  Hash, zero_hash, pack_message_data, sub_digest, compute_meta_txn_id_from_digest,
}

module _ (k : Ethkit) where
  -- The sub-digest is the hash of 0x19 0x01, the chain id in 32 bytes, the 20 bytes of the wallet's
  -- address and the digest, for a chain id and an address in range.
  pub sub_digest-keccak256 :
      (chain_id : ℕ) (address : Address) (digest : Hash)
      → IsDocumented k
      → chain_id < 2 ^ 256
      → IsAddress address
      → sub_digest k (some chain_id) address digest
        ≡ ok (
            k.keccak256
              (0x19 ∷ 0x01 ∷ (to_bytes 32 chain_id ++ (k.address_bytes address ++ digest))))
  unfolding sub_digest pack_message_data
  sub_digest-keccak256 chain_id address digest d c a =
      let args : List PackArg =
        PackArg.string (0x19 ∷ 0x01 ∷ [])
        ∷ PackArg.uint256 chain_id
        ∷ PackArg.address address
        ∷ PackArg.bytes digest
        ∷ [] in
      rw (d.packs args (tt, (c, (a, (tt, tt)))), append-nil)

  -- Whatever error `SubDigest` returns, the meta transaction id is empty and no error is reported.
  compute_meta_txn_id_swallows :
      (chain_id : Option ℕ) (address : Address) (digest : Hash) (e : Error)
      → sub_digest k chain_id address digest ≡ err e
      → compute_meta_txn_id_from_digest k chain_id address digest ≡ ok ([], zero_hash)
  unfolding compute_meta_txn_id_from_digest
  compute_meta_txn_id_swallows chain_id address digest e h = rw (h, compute_meta_txn_id_from_digest)
