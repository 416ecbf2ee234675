-- ===== src/Digest.antt =====
-- digests.go: the digest that a wallet signs for a message on a chain, and the meta transaction id.
pub mod SubDigest
mod Examples
use go_sequence.Base.{
  ℕ, ◌^◌, ◌<◌, List, [], ◌∷◌, Option, none, some, ◌==◌, if◌then◌else◌, length, drop,
}
use go_sequence.Base.Bytes.{Bytes}
use go_sequence.Base.Result.{
  Result, ok, err, panic, out_of_fuel, ◌>>=◌, unknown_chain_id, meta_txn_id_length,
}
use go_sequence.Ethkit.{Ethkit, PackArg, Address}
use go_sequence.Config.{to_array32}

-- `common.Hash` is a [32]byte.
abbrev pub Hash : Type 0
Hash = Bytes

abbrev pub zero_hash : Hash
zero_hash = to_array32 []

module _ (k : Ethkit) where
  -- `PackMessageData`; a nil chain id is `none`.
  unfoldable pub pack_message_data : Option ℕ → Address → Hash → Result Bytes
  pack_message_data none address digest = err unknown_chain_id
  pack_message_data (some chain_id) address digest = k.solidity_pack (
      PackArg.string (0x19 ∷ 0x01 ∷ [])
      ∷ PackArg.uint256 chain_id
      ∷ PackArg.address address
      ∷ PackArg.bytes digest
      ∷ [])

  -- `SubDigest`
  unfoldable pub sub_digest : Option ℕ → Address → Hash → Result Bytes
  sub_digest none address digest = err unknown_chain_id
  sub_digest (some chain_id) address digest = do
    packed_data ← pack_message_data (some chain_id) address digest
    ok (k.keccak256 packed_data)

  -- The end of `ComputeMetaTxnIDFromDigest`: the id is the text after "0x". `common.BytesToHash` of 32
  -- bytes is those bytes.
  unfoldable pub meta_txn_id_of : Bytes → Result (Bytes × Hash)
  meta_txn_id_of sub_digest_bytes =
      let hex = k.hex_encode sub_digest_bytes in
      if length hex == 66 then ok (drop 2 hex, sub_digest_bytes) else err meta_txn_id_length

  -- `ComputeMetaTxnIDFromDigest`: an error of `SubDigest` is not passed on.
  unfoldable pub compute_meta_txn_id_from_digest : Option ℕ → Address → Hash → Result (Bytes × Hash)
  compute_meta_txn_id_from_digest chain_id address digest =
      elim (sub_digest chain_id address digest) [
        | ok sub_digest_bytes ↦ meta_txn_id_of sub_digest_bytes
        | err e ↦ ok ([], zero_hash)
        | panic ↦ panic
        | out_of_fuel ↦ out_of_fuel
      ]
