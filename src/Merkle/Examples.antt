-- ===== src/Merkle/Examples.antt =====
-- Runs of the Merkle store, and the theorems at concrete inputs. The digest and the code are toys: a
-- message's length stands for its hash.
use privasys_enclave_os_mini.Common.{
  ◌%◌, ◌≤◌, ◌≡◌, ◌≢◌, refl, ap, ◌⊎◌, true, none, some, [], ◌∷◌, arith, length, All, replicate,
}
use mathlib.Core.Logic.{ite}
use native.Mathlib.Decide.{ℕ_discrete}
use privasys_enclave_os_mini.Common.Bytes.{Bytes, IsByte, byte_at}
use privasys_enclave_os_mini.Common.Results.{ok}
use privasys_enclave_os_mini.Merkle.Hash.{
  Hash, IsHash, IsDigest, Collision, Bytes-discrete, placeholder, leaf_hash, internal_hash,
  sha256_parts,
}
use privasys_enclave_os_mini.Merkle.Proof
use privasys_enclave_os_mini.Merkle.Proof.{
  Proof, Verified, present, absent, bit, combine, recompute, statement, verify, common_prefix_bits,
  common_prefix_from, leading_zeros,
}
use privasys_enclave_os_mini.Merkle.Proof.Sound.{Tree, lookup, tree_hash, verify_sound}
use privasys_enclave_os_mini.Merkle.Proof.Codec.{decode-encode}
use privasys_enclave_os_mini.Merkle.Proof.Strict.{encode-decode}
use privasys_enclave_os_mini.Merkle.Node
use privasys_enclave_os_mini.Merkle.Node.{NodeKey, root_key, Child, LeafNode, Node}
use privasys_enclave_os_mini.Merkle.Node.Codec.{decode-encode_node}
use privasys_enclave_os_mini.Merkle.Cache
use privasys_enclave_os_mini.Merkle.Cache.{NodeCache}
use privasys_enclave_os_mini.Merkle.Cache.Laws.{put_lem}
use privasys_enclave_os_mini.Merkle.Session.{Primitives, Session, cache_get, cache_put, fetch}
use privasys_enclave_os_mini.Merkle.Store.{
  MerkleStore, node_record_key, value_record_key, path_of, vh_of, open_at, get_key, load_root_child,
  load_node, load_through, check_hash, read_value, read_leaf, differ, walk, walk_from, visit,
  value_aad,
}
use privasys_enclave_os_mini.Merkle.Store.Authentic.{get_key_authentic}
use privasys_enclave_os_mini.Merkle.Store.Absence.{forged_node, opened, get_key-forged_absence}
use privasys_enclave_os_mini.Merkle.Store.Prove.{
  prove, prove_path, prove_from, prove_visit, leaf_pair,
}
use privasys_enclave_os_mini.Merkle.Store.Prove.Accepted.{prove_accepted}

abbrev toy_digest : Bytes → Hash
toy_digest m = length m % 256 ∷ replicate 31 0

abbrev toy_hmac : Bytes → Hash
toy_hmac m = 0xA0 ∷ (length m % 256 ∷ replicate 30 0)

toy-IsDigest : IsDigest toy_digest
toy-IsDigest m = refl

toy_hmac-sized : (m : Bytes) → IsHash (toy_hmac m) × All IsByte (toy_hmac m)
toy_hmac-sized m = (refl, omega arith)

abbrev low_path : Hash
low_path = 0x10 ∷ replicate 31 0

abbrev high_path : Hash
high_path = 0x90 ∷ replicate 31 0

-- Two leaves, one under each half.
abbrev two_leaves : Tree
two_leaves = Tree.node (Tree.leaf low_path (replicate 32 1)) (Tree.leaf high_path (replicate 32 2))

abbrev high_proof : Proof
high_proof = record {
  leaf = some (high_path, replicate 32 2);
  siblings = leaf_hash toy_digest low_path (replicate 32 1) ∷ [];
}

high_verified :
    verify toy_digest (tree_hash toy_digest toy-IsDigest two_leaves) high_path high_proof
    ≡ ok (present (replicate 32 2))
unfolding verify statement recompute combine bit Bytes-discrete ℕ_discrete leaf_hash internal_hash
    sha256_parts
high_verified = refl

-- The divergent leaf covers a path that shares its first bit, and not one that shares none.
prefix_lengths :
    (common_prefix_bits low_path low_path ≡ 256)
    × (common_prefix_bits low_path high_path ≡ 0)
    × (common_prefix_bits high_path (0x91 ∷ replicate 31 0) ≡ 7)
unfolding common_prefix_bits common_prefix_from leading_zeros
prefix_lengths = (refl, refl, refl)

verify_sound_example :
    (present (replicate 32 2) ≡ lookup 0 two_leaves high_path) ⊎ Collision toy_digest
unfolding leaf_hash
verify_sound_example =
    verify_sound toy_digest toy-IsDigest two_leaves high_path high_proof (present (replicate 32 2))
      ((refl, refl), (refl, refl)) ((refl, refl), (refl, tt)) high_verified

decode-encode_example : Proof.decode (Proof.encode high_proof) ≡ ok high_proof
unfolding leaf_hash
decode-encode_example = decode-encode high_proof ((refl, refl), (refl, tt)) (omega arith)

abbrev empty_proof : Proof
empty_proof = record { leaf = none; siblings = [] }

empty_decoded : Proof.decode (0 ∷ 0 ∷ 0 ∷ []) ≡ ok empty_proof
unfolding Proof.decode Proof.decode_leaf Proof.read_siblings
empty_decoded = refl

encode-decode_example : Proof.encode empty_proof ≡ 0 ∷ 0 ∷ 0 ∷ []
encode-decode_example = encode-decode (0 ∷ 0 ∷ 0 ∷ []) empty_proof (omega arith) empty_decoded

abbrev some_child : Child
some_child = record { version = 5; hash = replicate 32 1; is_leaf = true }

abbrev some_node : Node
some_node = Node.internal (none ∷ (some some_child ∷ replicate 14 none))

decode-encode_node_example : Node.decode (Node.encode some_node) ≡ ok some_node
decode-encode_node_example =
    decode-encode_node some_node (refl, ((omega arith, refl), tt)) (λ e. cc e)

put_lem_example :
    (length (Cache.put (Cache.new 1) (root_key 3) some_node).entries ≤ 1)
    × ((Cache.get (Cache.put (Cache.new 1) (root_key 3) some_node) (root_key 3)).0 ≡ some some_node)
unfolding Cache.new Cache.put
put_lem_example =
    put_lem (Cache.new 1) (root_key 3) some_node (omega arith) (λ e. absurd (omega arith))

abbrev key : Bytes
key = 1 ∷ 2 ∷ []

abbrev value : Bytes
value = 7 ∷ []

abbrev key_path : Hash
key_path = 0xA0 ∷ (3 ∷ replicate 30 0)

abbrev value_hash : Hash
value_hash = 0xA0 ∷ (34 ∷ replicate 30 0)

abbrev only_leaf : LeafNode
only_leaf = record { path = key_path; vh = value_hash; value_version = 1 }

-- A host with one leaf, at version 1, and its value.
abbrev honest : Primitives
honest = record {
  sha256 = toy_digest;
  hmac = toy_hmac;
  decrypt = λ ct aad. some ct;
  backend_get = λ n k.
      ite (Bytes-discrete k (node_record_key (root_key 1)))
        (ok (some (Node.encode (Node.leaf only_leaf))))
        (ite (Bytes-discrete k (value_record_key value_hash 1)) (ok (some value)) (ok none));
}

abbrev fresh : Session
fresh = record { cache = record { capacity = 4; tick = 0; entries = [] }; calls = 0 }

abbrev one_leaf : Tree
one_leaf = Tree.leaf key_path value_hash

abbrev one_root : Hash
one_root = 89 ∷ replicate 31 0

abbrev store : MerkleStore
store = record {
  root = one_root;
  version = 1;
  root_child = some (record { version = 1; hash = one_root; is_leaf = true });
}

store_opened : (open_at honest one_root 1 fresh).0 ≡ ok store
unfolding open_at load_root_child load_node load_through cache_get cache_put fetch check_hash
    node_record_key Node.encode Node.encode_key Node.pack_nibbles Node.decode Node.decode_leaf
    Node.hash Node.is_leaf Cache.get Cache.put Cache.find Cache.touch Cache.insert Cache.is_some
    Cache.evict Cache.remove Cache.min_by_tick Cache.NodeKey-discrete placeholder leaf_hash
    sha256_parts Bytes-discrete ℕ_discrete value_record_key
store_opened = refl

value_read : (get_key honest store key fresh).0 ≡ ok (some value)
unfolding get_key walk walk_from visit read_leaf read_value path_of vh_of value_aad differ load_node
    load_through cache_get cache_put fetch check_hash node_record_key Node.encode Node.encode_key
    Node.pack_nibbles Node.decode Node.decode_leaf Node.hash Node.is_leaf Cache.get Cache.put
    Cache.find Cache.touch Cache.insert Cache.is_some Cache.evict Cache.remove Cache.min_by_tick
    Cache.NodeKey-discrete leaf_hash sha256_parts Bytes-discrete ℕ_discrete value_record_key
value_read = refl

key_proof_made :
    (prove honest store key fresh).0
    ≡ ok (record { leaf = some (key_path, value_hash); siblings = [] })
unfolding prove prove_path prove_from prove_visit leaf_pair path_of differ load_node load_through
    cache_get cache_put fetch check_hash node_record_key Node.encode Node.encode_key
    Node.pack_nibbles Node.decode Node.decode_leaf Node.hash Node.is_leaf Cache.get Cache.put
    Cache.find Cache.touch Cache.insert Cache.is_some Cache.evict Cache.remove Cache.min_by_tick
    Cache.NodeKey-discrete leaf_hash sha256_parts Bytes-discrete ℕ_discrete value_record_key
key_proof_made = refl

get_key_authentic_example :
    (lookup 0 one_leaf (path_of honest key) ≡ present (vh_of honest (path_of honest key) value))
    ⊎ Collision toy_digest
get_key_authentic_example =
    get_key_authentic honest toy-IsDigest one_leaf 1 key value store fresh fresh toy_hmac-sized
      (refl, refl) tt tt (unfold leaf_hash in store_opened) value_read

prove_accepted_example :
    (0 ≤ 256)
    × (verify toy_digest one_root
          (path_of honest key)
          (record { leaf = some (key_path, value_hash); siblings = [] })
        ≡ ok (present value_hash))
prove_accepted_example =
    prove_accepted honest toy-IsDigest one_root 1 key store
      (record { leaf = some (key_path, value_hash); siblings = [] }) (one_root, present value_hash)
      fresh fresh (unfold path_of in omega arith) tt tt store_opened key_proof_made
      (unfold statement path_of leaf_hash sha256_parts Bytes-discrete ℕ_discrete in refl)

-- A host that answers the root's record with the forged node, whatever the root commits to.
abbrev lying : Primitives
lying = record {
  sha256 = toy_digest;
  hmac = toy_hmac;
  decrypt = λ ct aad. some ct;
  backend_get = λ n k. ok (some (Node.encode (forged_node one_root)));
}

root-ne-placeholder : one_root ≢ placeholder toy_digest
unfolding placeholder sha256_parts
root-ne-placeholder e = absurd (omega (arith, ap (λ h. byte_at h 0) e))

-- The key of the example above, which the tree holds.
get_key-forged_absence_example :
    (s' : Session) × (open_at lying one_root 1 fresh
      ≡ (ok (opened lying one_root 1 refl (λ n. refl)), s'))
    × ((get_key lying (opened lying one_root 1 refl (λ n. refl)) key s').0 ≡ ok none)
get_key-forged_absence_example =
    get_key-forged_absence lying one_root 1 refl (λ n. refl) key fresh root-ne-placeholder
      (unfold path_of in omega arith) (unfold path_of Node.nibble in λ e. absurd (omega (arith, e)))
      (unfold Cache.find in refl)
