-- ===== src/Merkle/Store/Absence.antt =====
-- A read of crates/enclave-os-merkle/src/tree.rs that finds an empty slot reports an absent key, and
-- does not check that the node is one that a commit could have written: what a host can make of it.
use privasys_enclave_os_mini.Common.{
  ℕ, zero, suc, ◌+◌, ◌/◌, ◌%◌, ◌<◌, ◌≡◌, ◌≢◌, refl, ap, ◌∙◌, ◌⊎◌, inl, inr, true, false, Option,
  none, some, ◌∷◌, arith, ◌==◌, All, get_elem?, replicate, Bool-cases,
}
use mathlib.Core.Logic.{ite, if_pos}
use privasys_enclave_os_mini.Common.Words.{bit_and_mask}
use privasys_enclave_os_mini.Common.Bytes.{Bytes, IsByte, byte_at}
use privasys_enclave_os_mini.Common.Results.{ok, err}
use privasys_enclave_os_mini.Merkle.Error.{corrupted}
use privasys_enclave_os_mini.Merkle.Hash.{Hash, IsHash, Bytes-discrete, placeholder}
use privasys_enclave_os_mini.Merkle.Node.{
  root_key, Child, Node, internal, is_leaf, nibble, encode, decode, hash, collapse, subtree_hash,
}
use privasys_enclave_os_mini.Merkle.Node.Codec.{decode-encode_node}
use privasys_enclave_os_mini.Merkle.Node.Position.{byte_at-IsByte}
use privasys_enclave_os_mini.Merkle.Cache.{NodeCache, find, get, put}
use privasys_enclave_os_mini.Merkle.Cache.Laws.{get-find, put-find}
use privasys_enclave_os_mini.Merkle.Session.{
  Primitives, Session, after, pure, cache_get, cache_put, fetch,
}
use privasys_enclave_os_mini.Merkle.Store.{
  node_record_key, MerkleStore, differ, path_of, check_hash, load_through, load_node,
  load_root_child, enter_slot, visit, walk_from, walk, open_at, get_key,
}

-- A node with one leaf child, whose hash is claimed to be the root: a range with one leaf has that
-- leaf's hash, so this node has the root as its hash too.
abbrev pub forged_child : Hash → Child
forged_child root = record { version = 0; hash = root; is_leaf = true }

abbrev pub forged_node : Hash → Node
forged_node root = internal (some (forged_child root) ∷ replicate 15 none)

hash-forged_node : (sha256 : Bytes → Hash) (root : Hash) → hash sha256 (forged_node root) ≡ root
unfolding hash subtree_hash collapse
hash-forged_node sha256 root = refl

nibble-lt : (path : Hash) (i : ℕ) → All IsByte path → nibble path i < 16
unfolding nibble
nibble-lt path i octets =
    let b : ℕ = byte_at path (i / 2) in
    let small : b < 256 = byte_at-IsByte path (i / 2) octets in
    elim (Bool-cases (i % 2 == 0)) [
      | inl even ↦ rw even (omega arith)
      | inr odd ↦ rw odd (omega (arith, bit_and_mask 4 b))
    ]

get_elem?-replicate : (n i : ℕ) (o : Option Child) → i < n → get_elem? (replicate n o) i ≡ some o
get_elem?-replicate zero i o h = absurd (omega arith)
get_elem?-replicate (suc n) zero o h = refl
get_elem?-replicate (suc n) (suc i) o h = get_elem?-replicate n i o (omega arith)

forged_slot :
    (root : Hash) (i : ℕ)
    → i ≢ 0
    → i < 16
    → get_elem? (some (forged_child root) ∷ replicate 15 none) i ≡ some none
forged_slot root zero ne h = absurd (ne refl)
forged_slot root (suc i) ne h = get_elem?-replicate 15 i none (omega arith)

module _ (prims : Primitives) (root : Hash) (version : ℕ) (sized : IsHash root)
    (host : (n : ℕ)
      → prims.backend_get n (node_record_key (root_key version))
        ≡ ok (some (encode (forged_node root)))) where
  -- The cache holds no other node under the root's key.
  abbrev Uncached : Session → Type 0
  Uncached s =
      (find (root_key version) s.cache.entries ≡ none)
      ⊎ (find (root_key version) s.cache.entries ≡ some (forged_node root))

  check_hash-forged : check_hash prims root (forged_node root) ≡ ok tt
  unfolding check_hash
  check_hash-forged =
      if_pos (Bytes-discrete (hash prims.sha256 (forged_node root)) root)
        (hash-forged_node prims.sha256 root) (ok tt) (err corrupted)

  decode-forged : decode (encode (forged_node root)) ≡ ok (forged_node root)
  decode-forged =
      decode-encode_node (forged_node root) (refl, ((omega arith, sized), tt)) (λ e. cc e)

  -- The node is accepted for the root, from the host or from the cache.
  load_node-forged :
      (s : Session)
      → Uncached s
      → (s' : Session) × (load_node prims (root_key version) root s ≡ (ok (forged_node root), s'))
        × Uncached s'
  unfolding load_node load_through cache_get cache_put fetch
  load_node-forged s (inr held) =
      let (answer, kept) = get-find s.cache (root_key version) in
      (
        record s { cache = (get s.cache (root_key version)).1 },
        rw (answer ∙ held, check_hash-forged) refl,
        inr (kept ∙ held),
      )
  load_node-forged s (inl fresh) =
      let (answer, kept) = get-find s.cache (root_key version) in
      let cache = (get s.cache (root_key version)).1 in
      (
        record s { cache = put cache (root_key version) (forged_node root); calls = s.calls + 1 },
        rw (answer ∙ fresh, host s.calls, decode-forged, check_hash-forged) refl,
        uncached cache (kept ∙ fresh) (put-find cache (root_key version) (forged_node root)),
      )
    where
      uncached :
          (c : NodeCache)
          → find (root_key version) c.entries ≡ none
          → (find (root_key version) (put c (root_key version) (forged_node root)).entries
              ≡ some (forged_node root))
            ⊎ (put c (root_key version) (forged_node root) ≡ c)
          → (find (root_key version) (put c (root_key version) (forged_node root)).entries ≡ none)
            ⊎ (find (root_key version) (put c (root_key version) (forged_node root)).entries
                ≡ some (forged_node root))
      uncached c none_yet (inl now) = inr now
      uncached c none_yet (inr same) =
          inl (ap (λ x. find (root_key version) x.entries) same ∙ none_yet)

  abbrev pub opened : MerkleStore
  opened = record {
    root = root;
    version = version;
    root_child = some (record { version = version; hash = root; is_leaf = false });
  }

  load_root_child-forged :
      (s s1 : Session)
      → root ≢ placeholder prims.sha256
      → load_node prims (root_key version) root s ≡ (ok (forged_node root), s1)
      → load_root_child prims root version s ≡ (ok opened.root_child, s1)
  unfolding load_root_child is_leaf
  load_root_child-forged s s1 ne loaded =
      by_decision (Bytes-discrete root (placeholder prims.sha256))
    where
      by_decision :
          (d : Dec (root ≡ placeholder prims.sha256))
          → ite d
              (pure none)
              (λ s.
                after
                  (load_node prims (root_key version) root s)
                  λ n. pure (some (record { version = version; hash = root; is_leaf = is_leaf n })))
              s
            ≡ (ok opened.root_child, s1)
      by_decision (yes q) = absurd (ne q)
      by_decision (no q) = rw loaded refl

  -- Where the root is not the empty tree's and the host answers every request for the root's node
  -- with a node whose only child is a leaf in slot 0 that claims the root as its hash: from a session
  -- whose cache holds no node under that key, the store opens at the root without an error, and every
  -- read of a key whose path starts with another nibble than 0 reports that the key is absent,
  -- whatever the tree under the root holds.
  pub get_key-forged_absence :
      (key : Bytes) (s : Session)
      → root ≢ placeholder prims.sha256
      → All IsByte (path_of prims key)
      → nibble (path_of prims key) 0 ≢ 0
      → find (root_key version) s.cache.entries ≡ none
      → (s' : Session) × (open_at prims root version s ≡ (ok opened, s'))
        × ((get_key prims opened key s').0 ≡ ok none)
  unfolding open_at get_key walk walk_from visit enter_slot is_leaf differ
  get_key-forged_absence key s ne octets other fresh =
      let path : Hash = path_of prims key in
      let (s1, loaded, kept) = load_node-forged s (inl fresh) in
      let (s2, again, _) = load_node-forged s1 kept in
      let slot = forged_slot root (nibble path 0) other (nibble-lt path 0 octets) in
      (s1, rw (load_root_child-forged s s1 ne loaded) refl, rw (again, slot) refl)
