-- ===== src/Merkle/Store/Authentic.antt =====
-- A value that a read of crates/enclave-os-merkle/src/tree.rs returns is the one under the root,
-- whatever the host answers, unless two messages with one SHA-256 digest are at hand.
use privasys_enclave_os_mini.Common.{
  ℕ, zero, suc, ◌*◌, ◌≡◌, refl, sym, ap, ◌∙◌, ◌⊎◌, inl, inr, Bool, true, false, Option, none, some,
  List, [], ◌∷◌, ◌++◌, arith, length, All, get_elem?, length-append,
}
use mathlib.Core.Logic.{ite, if_pos}
use privasys_enclave_os_mini.Common.Bytes.{Bytes, IsByte}
use privasys_enclave_os_mini.Common.Results.{Result, ok, err, ok_or, refuse_if}
use privasys_enclave_os_mini.Merkle.Error.{MerkleError, corrupted, missing, panic}
use privasys_enclave_os_mini.Merkle.Hash.{
  Hash, IsHash, IsDigest, Collision, Bytes-discrete, placeholder,
}
use privasys_enclave_os_mini.Merkle.Proof.{present, absent}
use privasys_enclave_os_mini.Merkle.Proof.Sound.{
  Tree, IsTree, lookup, tree_hash, Below, leaf-lookup,
}
use privasys_enclave_os_mini.Merkle.Node.{
  NodeKey, root_key, Child, Children, LeafNode, Node, internal, leaf, is_leaf, nibble, decode, hash,
}
use privasys_enclave_os_mini.Merkle.Node.Decoded.{HasHashes, decode-HasHashes}
use privasys_enclave_os_mini.Merkle.Node.Position.{nibble-Position}
use privasys_enclave_os_mini.Merkle.Node.Subtree.{subtree_hash-AtSlot}
use privasys_enclave_os_mini.Merkle.Session.{
  Primitives, Session, Read, after, pure, lift, cache_get, cache_put, fetch, IsSession, Ensures,
  after-Ensures, pure-Ensures, fail-Ensures, lift-Ensures, cache_get-Ensures, cache_put-Ensures,
  fetch-Ensures,
}
use privasys_enclave_os_mini.Merkle.Store.{
  node_record_key, value_record_key, value_aad, MerkleStore, differ, path_of, vh_of, check_hash,
  load_through, load_node, read_value, read_leaf, enter_slot, visit, visit_last, walk_from, walk,
  open_at, get_key, load_root_child,
}

differ-false : (a b : Bool) → differ a b ≡ false → a ≡ b
unfolding differ
differ-false true true e = refl
differ-false true false e = e
differ-false false b e = sym e

refuse_if-ok : (b : Bool) → refuse_if b corrupted ≡ ok tt → b ≡ false
refuse_if-ok true e = absurd (cc e)
refuse_if-ok false e = refl

module _ (prims : Primitives) where
  -- What a node that was loaded for a hash has.
  abbrev pub Loaded : Hash → Node → Type 0
  Loaded expected n = (hash prims.sha256 n ≡ expected) × HasHashes n

  check_hash-ok :
      (expected : Hash) (n : Node)
      → check_hash prims expected n ≡ ok tt
      → hash prims.sha256 n ≡ expected
  unfolding check_hash
  check_hash-ok expected n e = by_decision (Bytes-discrete (hash prims.sha256 n) expected) e
    where
      by_decision :
          (d : Dec (hash prims.sha256 n ≡ expected))
          → ◌≡◌ {A = Result MerkleError (Unit {0})} (ite d (ok tt) (err corrupted)) (ok tt)
          → hash prims.sha256 n ≡ expected
      by_decision (yes q) r = q
      by_decision (no q) r = absurd (cc r)

  load_through-Ensures :
      (nk : NodeKey) (expected : Hash) (cached : Option Node) (s : Session)
      → IsSession s
      → ((n : Node) → cached ≡ some n → HasHashes n)
      → Ensures (Loaded expected) (load_through prims nk expected cached s)
  unfolding load_through
  load_through-Ensures nk expected (some n) s hs h =
      after-Ensures _ _ (lift (check_hash prims expected n) s) _
        (lift-Ensures (check_hash prims expected n) s hs)
        λ u s1 h1 q. pure-Ensures _ n s1 h1 (check_hash-ok expected n q, h n refl)
  load_through-Ensures nk expected none s hs h =
      after-Ensures _ _ (fetch prims (node_record_key nk) s) _
        (fetch-Ensures prims (node_record_key nk) s hs)
        λ found s1 h1 u1.
          after-Ensures _ _ (lift (ok_or found missing) s1) _
            (lift-Ensures (ok_or found missing) s1 h1)
            λ encoded s2 h2 u2.
              after-Ensures _ _ (lift (decode encoded) s2) _ (lift-Ensures (decode encoded) s2 h2)
                λ n s3 h3 q3.
                  after-Ensures _ _ (lift (check_hash prims expected n) s3) _
                    (lift-Ensures (check_hash prims expected n) s3 h3)
                    λ u s4 h4 q4.
                      let sizes : HasHashes n = decode-HasHashes encoded n q3 in
                      after-Ensures _ _ (cache_put nk n s4) _ (cache_put-Ensures nk n s4 h4 sizes)
                        λ u5 s5 h5 v5. pure-Ensures _ n s5 h5 (check_hash-ok expected n q4, sizes)

  -- A node that is loaded, from the cache or from the host, has the hash that was asked for.
  pub load_node-Ensures :
      (nk : NodeKey) (expected : Hash) (s : Session)
      → IsSession s
      → Ensures (Loaded expected) (load_node prims nk expected s)
  unfolding load_node
  load_node-Ensures nk expected s hs =
      after-Ensures _ _ (cache_get nk s) _ (cache_get-Ensures nk s hs)
        λ cached s1 h1 h. load_through-Ensures nk expected cached s1 h1 h

  read_value-Ensures :
      (path vh : Hash) (version : ℕ) (s : Session)
      → IsSession s
      → Ensures (λ v. vh_of prims path v ≡ vh) (read_value prims path vh version s)
  unfolding read_value
  read_value-Ensures path vh version s hs =
      after-Ensures _ _ (fetch prims (value_record_key vh version) s) _
        (fetch-Ensures prims (value_record_key vh version) s hs)
        λ found s1 h1 u1.
          after-Ensures _ _ (lift (ok_or found missing) s1) _
            (lift-Ensures (ok_or found missing) s1 h1)
            λ ct s2 h2 u2.
              after-Ensures _ _ (lift (ok_or (prims.decrypt ct (value_aad path)) corrupted) s2) _
                (lift-Ensures (ok_or (prims.decrypt ct (value_aad path)) corrupted) s2 h2)
                λ pt s3 h3 u3. committed pt s3 h3 (Bytes-discrete (vh_of prims path pt) vh)
    where
      committed :
          (pt : Bytes) (s3 : Session)
          → IsSession s3
          → (d : Dec (vh_of prims path pt ≡ vh))
          → Ensures
              (λ v. vh_of prims path v ≡ vh)
              (after (lift (ite d (ok tt) (err corrupted)) s3) λ _. pure pt)
      committed pt s3 h3 (yes q) = pure-Ensures (λ v. vh_of prims path v ≡ vh) pt s3 h3 q
      committed pt s3 h3 (no q) = fail-Ensures (λ v. vh_of prims path v ≡ vh) corrupted s3 h3

  -- One round of the loop: the node is loaded, its kind checked, and `k` goes on.
  pub round-Ensures :
      {B : Type 0} (P : B → Type 0) (c : Child) (prefix : List ℕ) (k : Node → Read B) (s : Session)
      → IsSession s
      → ((n : Node) (s' : Session)
          → IsSession s'
          → Loaded c.hash n
          → is_leaf n ≡ c.is_leaf
          → Ensures P (k n s'))
      → Ensures P (
          after (load_node prims (record { version = c.version; prefix = prefix }) c.hash s) λ n s1.
            after (lift (refuse_if (differ (is_leaf n) c.is_leaf) corrupted) s1) λ _ s2. k n s2)
  round-Ensures P c prefix k s hs h =
      after-Ensures _ _ (load_node prims (record { version = c.version; prefix = prefix }) c.hash s)
        _ (load_node-Ensures (record { version = c.version; prefix = prefix }) c.hash s hs)
        λ n s1 h1 loaded.
          after-Ensures _ _ (lift (refuse_if (differ (is_leaf n) c.is_leaf) corrupted) s1) _
            (lift-Ensures (refuse_if (differ (is_leaf n) c.is_leaf) corrupted) s1 h1)
            λ u s2 h2 q. h n s2 h2 loaded (differ-false (is_leaf n) c.is_leaf (refuse_if-ok _ q))

module _ (prims : Primitives) (digest : IsDigest prims.sha256) (t : Tree) (path : Hash)
    (octets : All IsByte path) (sized : IsHash path) where
  -- The child stands in the tree where the path leads, `k` nibbles down unless it is a leaf.
  abbrev Anchored : Child → ℕ → Type 0
  Anchored c k =
      ((d : ℕ) × Below prims.sha256 digest path 0 t d c.hash × (c.is_leaf ≡ false → d ≡ 4 * k))
      ⊎ Collision prims.sha256

  -- A value that is returned is the one that the tree commits to.
  abbrev Committed : Option Bytes → Type 0
  Committed o =
      (v : Bytes)
      → o ≡ some v
      → (lookup 0 t path ≡ present (vh_of prims path v)) ⊎ Collision prims.sha256

  none-Committed : Committed none
  none-Committed v e = absurd (cc e)

  read_leaf-Ensures :
      (c : Child) (k : ℕ) (l : LeafNode) (s : Session)
      → IsSession s
      → Anchored c k
      → Loaded prims c.hash (leaf l)
      → Ensures Committed (read_leaf prims path l s)
  unfolding read_leaf hash
  read_leaf-Ensures c k l s hs anchor (h, (hp, hv)) = by_decision (Bytes-discrete l.path path)
    where
      known : l.path ≡ path → (v : Bytes) → vh_of prims path v ≡ l.vh → Committed (some v)
      known q v e w r = elim anchor [
        | inr found ↦ inr found
        | inl (d, (t', ht', b, same), _) ↦
            elim (leaf-lookup prims.sha256 digest path d l.path l.vh t' hp hv ht' (h ∙ b)) [
              | inr found ↦ inr found
              | inl here ↦
                  let v_eq : v ≡ w = cc r in
                  inl (
                    same
                    ∙ sym here
                    ∙ if_pos (Bytes-discrete l.path path) q (present l.vh) absent
                    ∙ ap present (sym e ∙ ap (vh_of prims path) v_eq))
            ]
      ]

      by_decision :
          (dec : Dec (l.path ≡ path))
          → Ensures Committed (
              ite dec
                (λ s.
                  after (read_value prims path l.vh l.value_version s) λ value. pure (some value))
                (pure none)
                s)
      by_decision (yes q) =
          after-Ensures _ _ (read_value prims path l.vh l.value_version s) _
            (read_value-Ensures prims path l.vh l.value_version s hs)
            λ v s1 h1 e. pure-Ensures Committed (some v) s1 h1 (known q v e)
      by_decision (no q) = pure-Ensures Committed none s hs none-Committed

  enter_slot-Ensures :
      (c : Child) (cs : Children) (prefix : List ℕ) (descend : List ℕ → Child → Read (Option Bytes))
      (slot : Option (Option Child)) (s : Session)
      → IsSession s
      → Anchored c (length prefix)
      → Loaded prims c.hash (internal cs)
      → c.is_leaf ≡ false
      → get_elem? cs (nibble path (length prefix)) ≡ slot
      → ((p : List ℕ) (c' : Child) (s' : Session)
          → IsSession s'
          → length p ≡ suc (length prefix)
          → Anchored c' (suc (length prefix))
          → Ensures Committed (descend p c' s'))
      → Ensures Committed (enter_slot prims descend (nibble path (length prefix)) prefix slot s)
  unfolding enter_slot hash
  enter_slot-Ensures c cs prefix descend none s hs anchor (h, (_, hh)) kind e k =
      fail-Ensures Committed panic s hs
  enter_slot-Ensures c cs prefix descend (some none) s hs anchor (h, (_, hh)) kind e k =
      pure-Ensures Committed none s hs none-Committed
  enter_slot-Ensures c cs prefix descend (some (some c')) s hs anchor (h, (_, hh)) kind e k =
      k (prefix ++ nibble path (length prefix) ∷ []) c' s hs
        (omega (arith, length-append prefix (nibble path (length prefix) ∷ []))) (below anchor)
    where
      below : Anchored c (length prefix) → Anchored c' (suc (length prefix))
      below (inr found) = inr found
      below (inl (d, (t', ht', b, same), depth)) =
          let position = nibble-Position path (length prefix) octets in
          elim (subtree_hash-AtSlot prims.sha256 digest path cs c' (4 * length prefix) 4 0
            (nibble path (length prefix)) t' hh ht' e position (h ∙ b)) [
              | inr found ↦ inr found
              | inl (d', (t'', ht'', b', same'), depth') ↦ inl (
                d',
                (t'', ht'', b', same ∙ ap (λ n. lookup n t' path) (depth kind) ∙ same'),
                λ inner. omega (arith, depth' inner),
              )
            ]

  visit-Ensures :
      (c : Child) (prefix : List ℕ) (descend : List ℕ → Child → Read (Option Bytes)) (n : Node)
      (s : Session)
      → IsSession s
      → Anchored c (length prefix)
      → Loaded prims c.hash n
      → is_leaf n ≡ c.is_leaf
      → ((p : List ℕ) (c' : Child) (s' : Session)
          → IsSession s'
          → length p ≡ suc (length prefix)
          → Anchored c' (suc (length prefix))
          → Ensures Committed (descend p c' s'))
      → Ensures Committed (visit prims descend path prefix n s)
  unfolding visit is_leaf
  visit-Ensures c prefix descend (leaf l) s hs anchor loaded kind k =
      read_leaf-Ensures c (length prefix) l s hs anchor loaded
  visit-Ensures c prefix descend (internal cs) s hs anchor loaded kind k =
      enter_slot-Ensures c cs prefix descend (get_elem? cs (nibble path (length prefix))) s hs
        anchor loaded (sym kind) refl k

  visit_last-Ensures :
      (c : Child) (k : ℕ) (n : Node) (s : Session)
      → IsSession s
      → Anchored c k
      → Loaded prims c.hash n
      → Ensures Committed (visit_last prims path n s)
  unfolding visit_last
  visit_last-Ensures c k (leaf l) s hs anchor loaded = read_leaf-Ensures c k l s hs anchor loaded
  visit_last-Ensures c k (internal cs) s hs anchor loaded = fail-Ensures Committed panic s hs

  pub walk_from-Ensures :
      (left : ℕ) (c : Child) (prefix : List ℕ) (s : Session)
      → IsSession s
      → Anchored c (length prefix)
      → Ensures Committed (walk_from prims left path prefix c s)
  unfolding walk_from
  walk_from-Ensures zero c prefix s hs anchor =
      round-Ensures prims Committed c prefix (visit_last prims path) s hs
        λ n s' hs' loaded kind. visit_last-Ensures c (length prefix) n s' hs' anchor loaded
  walk_from-Ensures (suc left) c prefix s hs anchor =
      round-Ensures prims Committed c prefix (visit prims (walk_from prims left path) path prefix) s
        hs
        λ n s' hs' loaded kind.
          visit-Ensures c prefix (walk_from prims left path) n s' hs' anchor loaded kind
            λ p c' s'' hs'' size below. walk_from-Ensures left c' p s'' hs'' (rw size below)

module _ (prims : Primitives) (digest : IsDigest prims.sha256) where
  root_child-Anchored :
      (t : Tree) (path : Hash) (octets : All IsByte path) (sized : IsHash path) (version : ℕ)
      (s : Session)
      → IsTree t
      → IsSession s
      → Ensures
          (λ o. (c : Child) → o ≡ some c → Anchored prims digest t path octets sized c 0)
          (load_root_child prims (tree_hash prims.sha256 digest t) version s)
  unfolding load_root_child
  root_child-Anchored t path octets sized version s ht hs =
      by_decision (Bytes-discrete root (placeholder prims.sha256))
    where
      root : Hash
      root = tree_hash prims.sha256 digest t

      IsAnchored : Option Child → Type 0
      IsAnchored o = (c : Child) → o ≡ some c → Anchored prims digest t path octets sized c 0

      child : Node → Child
      child n = record { version = version; hash = root; is_leaf = is_leaf n }

      at_root : (n : Node) → IsAnchored (some (child n))
      at_root n c e =
          let c_eq : child n ≡ c = cc e in
          inl (0, (t, ht, ap (λ x. x.hash) (sym c_eq), refl), λ _. omega arith)

      by_decision :
          (d : Dec (root ≡ placeholder prims.sha256))
          → Ensures IsAnchored (
              ite d
                (pure none)
                (λ s. after (load_node prims (root_key version) root s) λ n. pure (some (child n)))
                s)
      by_decision (yes q) = pure-Ensures IsAnchored none s hs (λ c e. absurd (cc e))
      by_decision (no q) =
          after-Ensures _ _ (load_node prims (root_key version) root s) _
            (load_node-Ensures prims (root_key version) root s hs)
            λ n s1 h1 loaded. pure-Ensures IsAnchored (some (child n)) s1 h1 (at_root n)

  -- Where SHA-256 and HMAC give 32 bytes, whatever the host answers: if a store opens at the root of
  -- a tree whose entries have 32 bytes, and a later read of a key returns a value, then the tree
  -- holds the commitment to that value at the key's path, or else two different messages with one
  -- SHA-256 digest exist.
  pub get_key_authentic :
      (t : Tree) (version : ℕ) (key v : Bytes) (store : MerkleStore) (s s' : Session)
      → ((m : Bytes) → IsHash (prims.hmac m) × All IsByte (prims.hmac m))
      → IsTree t
      → IsSession s
      → IsSession s'
      → (open_at prims (tree_hash prims.sha256 digest t) version s).0 ≡ ok store
      → (get_key prims store key s').0 ≡ ok (some v)
      → (lookup 0 t (path_of prims key) ≡ present (vh_of prims (path_of prims key) v))
        ⊎ Collision prims.sha256
  unfolding open_at get_key walk path_of
  get_key_authentic t version key v store s s' mac ht hs hs' opened got =
      from_store (load_root_child prims (tree_hash prims.sha256 digest t) version s)
        (root_child-Anchored t path octets sized version s ht hs) opened
    where
      path : Hash
      path = prims.hmac (b'p' ∷ key)

      sized : IsHash path
      sized = (mac (b'p' ∷ key)).0

      octets : All IsByte path
      octets = (mac (b'p' ∷ key)).1

      Goal : Type 0
      Goal = (lookup 0 t path ≡ present (vh_of prims path v)) ⊎ Collision prims.sha256

      from_child :
          (o : Option Child)
          → ((c : Child) → o ≡ some c → Anchored prims digest t path octets sized c 0)
          → (walk prims o path s').0 ≡ ok (some v)
          → Goal
      from_child none h e = absurd (cc e)
      from_child (some c) h e =
          (walk_from-Ensures prims digest t path octets sized 64 c [] s' hs' (h c refl)).1 (some v)
            e v refl

      from_store :
          (r : Result MerkleError (Option Child) × Session)
          → Ensures
              (λ o. (c : Child) → o ≡ some c → Anchored prims digest t path octets sized c 0)
              r
          → (after r λ root_child. pure (record {
            root = tree_hash prims.sha256 digest t;
            version = version;
            root_child = root_child;
          })).0
            ≡ ok store
          → Goal
      from_store (err e, s1) h q = absurd (cc q)
      from_store (ok o, s1) (h1, h) q =
          let o_eq : o ≡ store.root_child = cc q in
          from_child store.root_child (λ c e. h o refl c (o_eq ∙ e)) got
