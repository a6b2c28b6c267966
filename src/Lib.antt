-- ===== src/Lib.antt =====
-- Verification library of Enclave OS (Mini), a trusted execution environment runtime: an enclave
-- that does not trust its host, talks to it over shared memory, and keeps keys for attested callers.
--
-- The parts and how they interact. Enclave and host exchange messages over single-producer,
-- single-consumer rings in host memory (common/src/queue.rs). The messages are RPC frames
-- (common/src/rpc.rs) or role-owned frames that carry the identity of their request
-- (common/src/rpc/honest.rs). The two long-lived entry points of the enclave share one lifecycle cell
-- (common/src/core_phase.rs). The vault (crates/enclave-os-vault) decides by a key's policy who may
-- use the key and who may change the policy. Apps keep the roles of their users in a sealed store
-- (crates/enclave-os-app-auth/src/roles.rs). A versioned sparse Merkle tree
-- (crates/enclave-os-merkle) keeps records at the host and checks what it reads against a root.
--
-- Common: shared helpers. Tests holds Boolean tests, Lists the lists over native numbers, Bytes the
--   fixed-width encodings, Words wrapping arithmetic, Options and Results the chains that `?` makes.
-- Queue: common/src/queue.rs. Capacity has the constants, the checks and SpscQueueHeader; Memory the
--   copies through the aligned staging buffer (copy_to_shared, copy_from_shared), with the addresses
--   that decide on the staging as arguments; Ring the memory behind an endpoint's pointers and
--   write_bytes and read_bytes; Producer SpscProducer (try_send, send_bounded) and Consumer SpscConsumer
--   (readable_frame, try_recv_into, try_recv_with, try_recv, recv). Fifo has the queue that a client sees
--   and the relation Holds; Fifo/Send, Fifo/Receive and Fifo/Run the refinement, Safety what holds for
--   a header and a buffer that the host wrote as it likes. A position is a u64 and wraps where the
--   source wraps; the two unchecked sums of try_send wrap too, as in a release build. Memory maps an
--   offset from the buffer's start to a byte, and offsets outside the buffer stand for its surroundings.
--   The loop of send_bounded takes the list of what the other side does between its tries.
-- Rpc: common/src/rpc.rs (Method for RpcMethod, Frame for the codecs, Frame/RoundTrip and Frame/Parts for
--   their laws) and common/src/rpc/honest.rs (Honest, Honest/RoundTrip). A signed status is kept as its
--   two's complement. A borrowed slice is its bytes.
-- CorePhase: common/src/core_phase.rs. The atomic byte is a number, each operation an atomic access.
--   request_shutdown runs on fuel, with a list of the accesses of the other threads for every
--   iteration; fuel 3 is enough, since a lost exchange means that the phase moved forward, and it can
--   do so at most twice before no shutdown is needed.
-- Vault: crates/enclave-os-vault. Types has the schema of types.rs and what the policy reads of a
--   request; Platform the operations outside the policy, as one record of parameters: certificate and
--   quote parsing, attestation servers, token verification, case mapping, the operation-binding hash
--   and the clock. Caller has resolve_caller, oidc_matches and tee_matches, Approval the approval
--   tokens of signing.rs, Conditions evaluate_conditions, Access evaluate_op, Update
--   evaluate_policy_update, key_required_oids and runtime_only_delta. An error is a constructor for each
--   message. Texts are their bytes. Records has the key record and the answers, Keys the store (VaultKv,
--   the sealed store with its JSON codec, a parameter), load_record, audit_and_save and audit.rs,
--   Audit the reading of the audit log (its loop recurs on the numbers up to next_seq), Handlers what
--   the handlers of lib.rs compute without the store, and Service the handlers (handle_export,
--   handle_delete, handle_update_policy, handle_get_policy, handle_get_info, handle_list,
--   handle_read_audit, handle_stage_pending, handle_list_pending, handle_promote_pending,
--   handle_revoke_pending) with require_op and their dispatch, serve. A handler passes the store on; an
--   answer Error is its error case. The mutex and the global cell of the store are left out, and the
--   clock stands still within a request. IsVaultKv is what the invariant relies on of the store and the
--   codec.
-- Roles: crates/enclave-os-app-auth/src/roles.rs. SealedKv is the store and the JSON codec, a parameter,
--   and IsSealedKv what the code relies on of them. Every operation passes the store on, and returns
--   the store that a failed write left.
--
-- Merkle: crates/enclave-os-merkle. Hash has the tagged hashes of hash.rs, Proof the proofs of proof.rs
--   (Proof/Fold and Proof/Sound, with the binary tree that a root stands for, Proof/Codec and
--   Proof/Strict for the encoding), Node the nodes of node.rs (Node/Codec, Node/Decoded, Node/Position
--   and Node/Subtree), Cache the LRU cache of cache.rs. Session has the state of a read, the cache and
--   the number of calls of the host; Store the reads of tree.rs (load_node, walk, open, get, root_at,
--   get_at) and Store/Prove its proofs. A `[u8; 32]` is a list of bytes with IsHash. SHA-256, HMAC, the
--   AEAD cipher and the host's KvBackend::get are the record Primitives; the host's answer may depend
--   on the number of the call. No theorem assumes that SHA-256 is injective: a Collision is a result.
--   The loops of walk and prove_path recur on the 64 nibbles of a path; past them the source indexes
--   out of bounds, which is the error `panic` here.
--
-- Not modelled: the TLS and attestation stacks, the host process, the WASM runtime, the sealed store
-- and the third-party code; the commits, the pruner and the snapshots of the Merkle store; the
-- vault's creation of keys from a grant, the operations behind require_op (wrap, unwrap, sign, mac)
-- and the issuing of approval tokens; the worker storage payloads. The memory orderings of the ring's
-- atomics are not modelled: each operation of an endpoint is one step.
pub mod Common
pub mod Queue
pub mod Rpc
pub mod CorePhase
pub mod Vault
pub mod Roles
pub mod Merkle
