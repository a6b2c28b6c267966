-- ===== src/Merkle/Store/Prove.antt =====
-- `prove` of crates/enclave-os-merkle/src/tree.rs: the siblings and the leaf on the way to a path.
pub mod Verifies
pub mod Accepted
use privasys_enclave_os_mini.Common.{
  ℕ, zero, suc, ◌+◌, ◌^◌, Bool, true, false, Option, none, some, List, [], ◌∷◌, ◌++◌, reverse, ltb,
  if◌then◌else◌, length, take, drop,
}
use privasys_enclave_os_mini.Common.Bytes.{Bytes}
use privasys_enclave_os_mini.Common.Results.{Result, ok, err, refuse_if}
use privasys_enclave_os_mini.Merkle.Error.{MerkleError, corrupted, invalid, panic}
use privasys_enclave_os_mini.Merkle.Hash.{Hash}
use privasys_enclave_os_mini.Merkle.Proof.{Proof}
use privasys_enclave_os_mini.Merkle.Node.{
  NodeKey, Child, Children, LeafNode, Node, internal, leaf, is_leaf, nibble, nibbles, subtree_hash,
}
use privasys_enclave_os_mini.Merkle.Session.{
  Primitives, Session, Read, after, ◌>>=◌, ◌>>◌, pure, fail, lift,
}
use privasys_enclave_os_mini.Merkle.Store.{
  MerkleStore, differ, path_of, load_node, load_root_record, load_root_child,
}

-- Where the descent inside a node ends: at an empty range, at the one leaf of a range, with its slot,
-- or at an internal child in the path's own slot.
pub data Range : Type 0 where
  empty_range : Range
  leaf_range : ℕ → Child → Range
  inner_range : Child → Range

-- The children that are present, each with its slot; the first slot has number `i`.
abbrev pub with_slots : ℕ → Children → List (ℕ × Child)
with_slots i [] = []
with_slots i (none ∷ children) = with_slots (suc i) children
with_slots i (some c ∷ children) = (i, c) ∷ with_slots (suc i) children

abbrev pub present_slots : (start width : ℕ) → Children → List (ℕ × Child)
present_slots start width children = with_slots start (take width (drop start children))

unfoldable pub end_of_slot : List (ℕ × Child) → Range
end_of_slot [] = empty_range
end_of_slot ((i, c) ∷ more) = if c.is_leaf then leaf_range i c else inner_range c

-- The `match` on a range that can be halved; `halved` is what the half on the path gives.
unfoldable pub end_of_range :
    List (ℕ × Child) → List Hash → (halved : Range × List Hash) → Range × List Hash
end_of_range [] siblings halved = (empty_range, siblings)
end_of_range ((i, c) ∷ []) siblings halved =
    if c.is_leaf then (leaf_range i c, siblings) else halved
end_of_range (a ∷ b ∷ more) siblings halved = halved

-- The inner loop, over a range of `2 ^ levels` slots; the siblings run from the top down.
unfoldable pub search_slot :
    (Bytes → Hash) → Children → (slot start levels : ℕ) → List Hash → Range × List Hash
search_slot sha256 children slot start zero siblings =
    (end_of_slot (present_slots start 1 children), siblings)
search_slot sha256 children slot start (suc levels) siblings =
    let half = 2 ^ levels in
    let low = ltb slot (start + half) in
    let ours = if low then start else start + half in
    let sib = if low then start + half else start in
    end_of_range (present_slots start (2 ^ suc levels) children) siblings (
      search_slot sha256 children slot ours levels
        (siblings ++ subtree_hash sha256 children sib levels ∷ []))

abbrev pub Evidence : Type 0
Evidence = Option LeafNode × List Hash

unfoldable pub leaf_only : List Hash → Node → Read Evidence
leaf_only siblings (leaf l) = pure (some l, siblings)
leaf_only siblings (internal children) = fail corrupted

unfoldable pub prove_last : List Hash → Node → Read Evidence
prove_last siblings (leaf l) = pure (some l, siblings)
prove_last siblings (internal children) = fail panic

unfoldable pub leaf_pair : Option LeafNode → Option (Hash × Hash)
leaf_pair none = none
leaf_pair (some l) = some (l.path, l.vh)

module _ (prims : Primitives) where
  unfoldable pub follow :
      (List ℕ → Child → List Hash → Read Evidence)
      → (slot : ℕ) → List ℕ
      → Range × List Hash
      → Read Evidence
  follow descend slot prefix (empty_range, siblings) = pure (none, siblings)
  follow descend slot prefix (leaf_range i c, siblings) = do
    node ← load_node prims (record { version = c.version; prefix = prefix ++ i ∷ [] }) c.hash
    leaf_only siblings node
  follow descend slot prefix (inner_range c, siblings) = descend (prefix ++ slot ∷ []) c siblings

  unfoldable pub prove_visit :
      (List ℕ → Child → List Hash → Read Evidence)
      → Hash
      → List ℕ
      → List Hash
      → Node
      → Read Evidence
  prove_visit descend path prefix siblings (leaf l) = pure (some l, siblings)
  prove_visit descend path prefix siblings (internal children) =
      let slot = nibble path (length prefix) in
      follow descend slot prefix (search_slot prims.sha256 children slot 0 4 siblings)

  -- The outer loop, with `left` nibbles of the path below the prefix.
  unfoldable pub prove_from : (left : ℕ) → Hash → List ℕ → Child → List Hash → Read Evidence
  prove_from zero path prefix child siblings = do
    node ← load_node prims (record { version = child.version; prefix = prefix }) child.hash
    lift (refuse_if (differ (is_leaf node) child.is_leaf) corrupted)
    prove_last siblings node
  prove_from (suc left) path prefix child siblings = do
    node ← load_node prims (record { version = child.version; prefix = prefix }) child.hash
    lift (refuse_if (differ (is_leaf node) child.is_leaf) corrupted)
    prove_visit (prove_from left path) path prefix siblings node

  unfoldable pub prove_path : Option Child → Hash → Read Proof
  unfolding leaf_pair
  prove_path none path = pure (record { leaf = none; siblings = [] })
  prove_path (some child) path = prove_from nibbles path [] child [] >>= λ e.
      pure (record { leaf = leaf_pair e.0; siblings = reverse e.1 })

  unfoldable pub prove : MerkleStore → Bytes → Read Proof
  prove store key = prove_path store.root_child (path_of prims key)

  unfoldable pub prove_at : MerkleStore → ℕ → Bytes → Read Proof
  prove_at store version key = do
    lift (refuse_if (ltb store.version version) invalid)
    root ← load_root_record prims version
    root_child ← load_root_child prims root version
    prove_path root_child (path_of prims key)
