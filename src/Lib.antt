-- ===== src/Lib.antt =====
-- The Sequence wallet client, a Go library for multi-signature smart wallets on Ethereum: what its
-- own code computes, on the values that it passes around. A wallet is a configuration of weighted
-- signers with a threshold; its address follows from the configuration. Its owners sign the digest of
-- a bundle of meta-transactions, the signatures are packed into one byte string, and a relayer sends
-- the bundle; the receipts of the meta-transactions are read off the logs of the native transaction.
--
-- Which file models what:
-- - Base: lists and numbers, bytes (Base/Bytes), integers for math/big (Base/Int), and the outcome of
--   a Go call (Base/Result): a value, an error with one constructor for each message of the code, or a
--   run-time panic (a nil dereference, an index out of range).
-- - Ethkit: what the code calls of github.com/0xsequence/ethkit (packing, hashing, recovery of a key,
--   the provider of a chain). These are parameters; IsDocumented states what their documentation
--   promises, and Ethkit/StandIn is an instance of it on which examples run.
-- - Network: WalletContext of network.go.
-- - Config: config.go. WalletConfig, its image hash and address, SortWalletConfig (Config/Sort) and
--   IsWalletConfigUsable (Config/Usable).
-- - Nonce: EncodeNonce, DecodeNonce and GenerateRandomNonce of transactions.go.
-- - Digest: PackMessageData, SubDigest and ComputeMetaTxnIDFromDigest of digests.go.
-- - Transaction: the tree of transactions of transactions.go, Clone, IsValid, IsBundle, the bundling
--   operations and Nonce. Transaction/Encode: EncodedTransactions and Execdata, and the digests of a
--   bundle of digests.go; Transaction/Encode/Twice: what is encoded already. Transaction/Decode:
--   DecodeExecdata and the raw transactions, with the packing of calls as an interface that has laws;
--   Transaction/Reduce: ReduceSignatures of a tree, and ReduceExecdataSignatures.
-- - Receipt: the events of receipts.go; Receipt/Decode: decodeReceipt, with what it keeps
--   (Receipt/Decode/Kept) and how the events of its logs (Receipt/Decode/Logged) go to its receipts
--   (Receipt/Decode/Order); Receipt/Native: DecodeReceipt; Receipt/Find: Receipt.Find;
--   Receipt/Fetch: receipt_fetcher.go.
-- - Signature: signature.go. Signature/Codec: Encode and DecodeSignature; Signature/Knapsack: knapsack;
--   Signature/Weight and Signature/Join: Weight, Copy, JoinTwo and JoinSignatures; Signature/Recover:
--   Recover and IsValid; Signature/Validity: RecoverWalletConfigFromDigest and IsValidSignature;
--   Signature/Reduce: Reduce and cost.
-- - Wallet: wallet.go. The life of a wallet (Wallet/Formed) and its signing (Wallet/Sign), with the
--   signers as records of their calls.
-- - Relayer: relayer.go. The interface of a relayer, EncodeTransactionsForRelaying, and
--   LegacyWaitForMetaTxn (Relayer/Wait) on the answers of the node, round by round. Relayer/Local:
--   EstimateGasLimits of relayer/local_relayer.go.
-- - Listener: legacy_receipt_listener.go. The past receipts (Listener/Past), their native receipts
--   (Listener/Unfilled), handleBlock (Listener/Blocks), WaitForMetaTxn beside the goroutines of
--   handleReceipts (Listener/Waiting) and the unbounded buffer between two channels
--   (Listener/Buffer), the last two as step relations.
-- - Estimator: estimator.go. CalldataCost and PickSigners, the latter on the order in which the sort
--   leaves the signers (Estimator/Picked); isEOA with its cache (Estimator/Eoa); AreEOAs and its
--   goroutines as a step relation (Estimator/Workers); BuildStubSignature (Estimator/Stub);
--   EstimateCall and Estimate (Estimator/Gas).
-- - Deployer: deployer/deployer.go, as calls that take the chain and return it (Deployer/Effects);
--   ComputeCreate2Address (Deployer/Create2), beside the address of EIP-1014
--   (Deployer/Create2/Eip1014). Deployer/Live/Chain says what the chain is taken to do with the
--   transactions, each from the state in which it can be executed; its creations stand at addresses
--   of EIP-1014, not at those that the code computes.
--
-- Correspondence. A byte is a number below 256 and a slice of bytes a list; an address is the
-- number that its 20 bytes stand for; the widths of uint8, uint16 and uint64 are written out where
-- the code computes with them, and a *big.Int that may be negative is an integer. A pointer or a
-- slice that may be nil is an option or has a constructor for nil. Pointers in a slice are the
-- values that they point to, so the same *Transaction or *SignaturePart that stands twice in a
-- slice and is changed through one of its places is not modelled; and a slice has no capacity
-- beyond its length, into which msg[:32] of Signature.Recover could read. A method that changes its
-- receiver returns it. A function that returns a value and an error returns a Result, and an error
-- that is wrapped with a message is the error inside. Goroutines that share a lock or a channel are
-- a relation of steps, one for each critical section or message. Loops are structural recursion,
-- but for these, which take fuel: DecodeSignature, as much as there are bytes, of which it reads
-- two at least in each round; Reduce and DecodeExecdata, one round more than there are bytes in the
-- value that nests the others; BuildStubSignature, two levels, as the signers of its nested
-- configuration are no contracts; and the decimal digits of a length, of which there are at most
-- 20.
--
-- Not modelled: the network and its transports, contexts and time-outs, logging, JSON, the
-- generated clients under api, indexer, metadata, guard and relayer/proto, the bindings and artifacts
-- under contracts, and the test utilities. Also not modelled: Simulate of estimator.go, GetWalletNonce,
-- the other calls of the relayers under relayer, which a node or a service answers, auth.go, utils.go, and
-- lib/prototyp, whose types carry values to JSON and to a database.
pub mod Base
pub mod Ethkit
pub mod Network
pub mod Config
pub mod Nonce
pub mod Digest
pub mod Transaction
pub mod Receipt
pub mod Relayer
pub mod Wallet
pub mod Listener
pub mod Estimator
pub mod Deployer
pub mod Signature
