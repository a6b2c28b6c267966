-- ===== src/Merkle/Store.antt =====
-- Reads of the versioned store of crates/enclave-os-merkle/src/tree.rs: records, nodes, values and the
-- walk from the root.
pub mod Authentic
pub mod Absence
pub mod Prove
use privasys_enclave_os_mini.Common.{
  ℕ, zero, suc, ◌+◌, Bool, true, false, not, Option, none, some, List, [], ◌∷◌, ◌++◌, ltb, ◌==◌,
  if◌then◌else◌, length, get_elem?,
}
use mathlib.Core.Logic.{ite}
use privasys_enclave_os_mini.Common.Bytes.{Bytes, to_be_bytes}
use privasys_enclave_os_mini.Common.Results.{Result, ok, err, ok_or, refuse_if}
use privasys_enclave_os_mini.Merkle.Error.{MerkleError, corrupted, missing, invalid, panic}
use privasys_enclave_os_mini.Merkle.Hash.{Hash, Bytes-discrete, placeholder}
use privasys_enclave_os_mini.Merkle.Node.{
  NodeKey, root_key, encode_key, Child, Children, LeafNode, Node, internal, leaf, is_leaf, nibble,
  nibbles, decode, hash,
}
use privasys_enclave_os_mini.Merkle.Session.{
  Primitives, Session, Read, after, ◌>>=◌, ◌>>◌, pure, fail, lift, cache_get, cache_put, fetch,
}

unfoldable pub node_record_key : NodeKey → Bytes
node_record_key nk = b'n' ∷ encode_key nk

unfoldable pub value_record_key : Hash → ℕ → Bytes
value_record_key vh value_version = b'v' ∷ (vh ++ to_be_bytes 8 value_version)

unfoldable pub root_record_key : ℕ → Bytes
root_record_key version = b'r' ∷ to_be_bytes 8 version

abbrev pub value_aad_tag : Bytes
value_aad_tag =
    101 ∷ 110 ∷ 99 ∷ 108 ∷ 97 ∷ 118 ∷ 101 ∷ 95 ∷ 111 ∷ 115 ∷ 95 ∷ 109 ∷ 101 ∷ 114 ∷ 107 ∷ 108 ∷ 101
    ∷ 95 ∷ 118 ∷ 97 ∷ 108 ∷ []

unfoldable pub value_aad : Hash → Bytes
value_aad path = value_aad_tag ++ path

-- The part of the store that reads use, beside its session.
pub record MerkleStore : Type 0 where
  pub root : Hash
  pub version : ℕ
  pub root_child : Option Child

-- `a != b` on `bool`
unfoldable pub differ : Bool → Bool → Bool
differ true b = not b
differ false b = b

module _ (prims : Primitives) where
  unfoldable pub path_of : Bytes → Hash
  path_of key = prims.hmac (b'p' ∷ key)

  unfoldable pub vh_of : Hash → Bytes → Hash
  vh_of path plaintext = prims.hmac (b'v' ∷ (path ++ plaintext))

  -- The node, if its hash is the expected one.
  unfoldable pub check_hash : Hash → Node → Result MerkleError (Unit {0})
  check_hash expected node =
      ite (Bytes-discrete (hash prims.sha256 node) expected) (ok tt) (err corrupted)

  -- `load_node` behind the look into the cache.
  unfoldable pub load_through : NodeKey → Hash → Option Node → Read Node
  load_through nk expected (some node) = do lift (check_hash expected node); pure node
  load_through nk expected none = do
    found ← fetch prims (node_record_key nk)
    encoded ← lift (ok_or found missing)
    node ← lift (decode encoded)
    lift (check_hash expected node)
    cache_put nk node
    pure node

  unfoldable pub load_node : NodeKey → Hash → Read Node
  load_node nk expected = do cached ← cache_get nk; load_through nk expected cached

  unfoldable pub load_root_record : ℕ → Read Hash
  load_root_record version = do
    found ← fetch prims (root_record_key version)
    rec ← lift (ok_or found missing)
    lift (refuse_if (not (length rec == 32)) corrupted)
    pure rec

  unfoldable pub load_root_child : Hash → ℕ → Read (Option Child)
  load_root_child root version = ite (Bytes-discrete root (placeholder prims.sha256)) (pure none) (
      load_node (root_key version) root >>= λ node.
      pure (some (record { version = version; hash = root; is_leaf = is_leaf node })))

  unfoldable pub read_value : Hash → Hash → ℕ → Read Bytes
  read_value path vh value_version = do
    found ← fetch prims (value_record_key vh value_version)
    ct ← lift (ok_or found missing)
    pt ← lift (ok_or (prims.decrypt ct (value_aad path)) corrupted)
    lift (ite (Bytes-discrete (vh_of path pt) vh) (ok tt) (err corrupted))
    pure pt

  unfoldable pub read_leaf : Hash → LeafNode → Read (Option Bytes)
  read_leaf path l =
      ite (Bytes-discrete l.path path)
        (read_value path l.vh l.value_version >>= λ value. pure (some value)) (pure none)

  -- The slot of an internal node that the path selects; `descend` goes on from the child there.
  unfoldable pub enter_slot :
      (List ℕ → Child → Read (Option Bytes))
      → (nib : ℕ) → List ℕ
      → Option (Option Child)
      → Read (Option Bytes)
  enter_slot descend nib prefix none = fail panic
  enter_slot descend nib prefix (some none) = pure none
  enter_slot descend nib prefix (some (some c)) = descend (prefix ++ nib ∷ []) c

  unfoldable pub visit :
      (List ℕ → Child → Read (Option Bytes)) → Hash → List ℕ → Node → Read (Option Bytes)
  visit descend path prefix (leaf l) = read_leaf path l
  visit descend path prefix (internal children) =
      let nib = nibble path (length prefix) in
      enter_slot descend nib prefix (get_elem? children nib)

  -- Below the last nibble, reading the next one is out of bounds.
  unfoldable pub visit_last : Hash → Node → Read (Option Bytes)
  visit_last path (leaf l) = read_leaf path l
  visit_last path (internal children) = fail panic

  -- The loop of `walk`, with `left` nibbles of the path below the prefix.
  unfoldable pub walk_from : (left : ℕ) → Hash → List ℕ → Child → Read (Option Bytes)
  walk_from zero path prefix child = do
    node ← load_node (record { version = child.version; prefix = prefix }) child.hash
    lift (refuse_if (differ (is_leaf node) child.is_leaf) corrupted)
    visit_last path node
  walk_from (suc left) path prefix child = do
    node ← load_node (record { version = child.version; prefix = prefix }) child.hash
    lift (refuse_if (differ (is_leaf node) child.is_leaf) corrupted)
    visit (walk_from left path) path prefix node

  unfoldable pub walk : Option Child → Hash → Read (Option Bytes)
  walk none path = pure none
  walk (some child) path = walk_from nibbles path [] child

  -- `open`: the store at a root and a version.
  unfoldable pub open_at : Hash → ℕ → Read MerkleStore
  open_at root version = do
    root_child ← load_root_child root version
    pure (record { root = root; version = version; root_child = root_child })

  unfoldable pub get_key : MerkleStore → Bytes → Read (Option Bytes)
  get_key store key = walk store.root_child (path_of key)

  unfoldable pub root_at : MerkleStore → ℕ → Read Hash
  root_at store version = do
    lift (refuse_if (ltb store.version version) invalid)
    load_root_record version

  unfoldable pub get_at : MerkleStore → ℕ → Bytes → Read (Option Bytes)
  get_at store version key = do
    lift (refuse_if (ltb store.version version) invalid)
    root ← load_root_record version
    root_child ← load_root_child root version
    walk root_child (path_of key)
