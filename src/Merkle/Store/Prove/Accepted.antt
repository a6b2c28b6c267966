-- ===== src/Merkle/Store/Prove/Accepted.antt =====
-- The proofs that `prove` of crates/enclave-os-merkle/src/tree.rs makes are accepted by `verify` of
-- proof.rs.
use privasys_enclave_os_mini.Common.{
  ℕ, zero, suc, ◌+◌, ◌*◌, ◌≤◌, ◌≡◌, refl, sym, ap, ◌∙◌, false, Option, none, some, List, [], ◌∷◌,
  ◌++◌, reverse, arith, ltb, length, All, length-append,
}
use mathlib.Core.List.{append_assoc, append-nil, reverse-append}
use mathlib.Core.Path.{subst}
use mathlib.Core.Logic.{ite, if_pos}
use privasys_enclave_os_mini.Common.Bytes.{Bytes, IsByte}
use privasys_enclave_os_mini.Common.Results.{Result, ok, err}
use privasys_enclave_os_mini.Merkle.Error.{MerkleError, corrupted, invalid, panic}
use privasys_enclave_os_mini.Merkle.Hash.{Hash, IsDigest, Bytes-discrete, placeholder}
use privasys_enclave_os_mini.Merkle.Proof.{
  Proof, Verified, bit, combine, recompute, statement, verify,
}
use privasys_enclave_os_mini.Merkle.Proof.Fold.{ascend, recompute-reverse}
use privasys_enclave_os_mini.Merkle.Proof.Sound.{base, statement-base}
use privasys_enclave_os_mini.Merkle.Node.{
  root_key, Child, LeafNode, Node, internal, leaf, is_leaf, nibble, hash,
}
use privasys_enclave_os_mini.Merkle.Node.Position.{nibble-Position}
use privasys_enclave_os_mini.Merkle.Session.{
  Session, Primitives, Read, after, pure, IsSession, Ensures, after-Ensures, pure-Ensures,
  fail-Ensures,
}
use privasys_enclave_os_mini.Merkle.Store.{
  MerkleStore, path_of, load_node, load_root_child, open_at,
}
use privasys_enclave_os_mini.Merkle.Store.Authentic.{Loaded, load_node-Ensures, round-Ensures}
use privasys_enclave_os_mini.Merkle.Store.Prove.{
  Range, empty_range, leaf_range, inner_range, Evidence, search_slot, leaf_only, follow,
  prove_visit, prove_last, prove_from, leaf_pair, prove_path, prove,
}
use privasys_enclave_os_mini.Merkle.Store.Prove.Verifies.{Collected, search_slot-Collected}

module _ (prims : Primitives) (digest : IsDigest prims.sha256) (path : Hash)
    (octets : All IsByte path) where
  ascend-append :
      (d : ℕ) (xs ys : List Hash) (acc : Hash)
      → ascend prims.sha256 path d (xs ++ ys) acc
        ≡ ascend prims.sha256 path d xs (ascend prims.sha256 path (d + length xs) ys acc)
  ascend-append d [] ys acc =
      ap (λ k. ascend prims.sha256 path k ys acc) {x = d} {y = d + 0} (omega arith)
  ascend-append d (x ∷ xs) ys acc = ap (combine prims.sha256 (bit path d) x) (
      ascend-append (suc d) xs ys acc
      ∙ ap (λ k. ascend prims.sha256 path (suc d) xs (ascend prims.sha256 path k ys acc))
          {x = suc d + length xs} {y = d + length (x ∷ xs)} (omega arith))

  -- The evidence, from the depth of the prefix on, recomputes to the hash `h`.
  abbrev Leads : Hash → (left k : ℕ) → List Hash → Evidence → Type 0
  Leads h left k siblings (l, out) =
      (more : List Hash) × (out ≡ siblings ++ more)
      × (ascend prims.sha256 path (4 * k) more (base prims.sha256 digest (leaf_pair l)) ≡ h)
      × (length more ≤ 4 * left)

  leaf-Leads :
      (l : LeafNode) (h : Hash) (left k : ℕ) (siblings : List Hash)
      → hash prims.sha256 (leaf l) ≡ h
      → Leads h left k siblings (some l, siblings)
  unfolding hash leaf_pair
  leaf-Leads l h left k siblings e = ([], sym (append-nil siblings), e, omega arith)

  leaf_only-Leads :
      (c : Child) (h : Hash) (left k : ℕ) (siblings more out : List Hash) (n : Node) (s : Session)
      → IsSession s
      → out ≡ siblings ++ more
      → ascend prims.sha256 path (4 * k) more c.hash ≡ h
      → length more ≤ 4 * left
      → Loaded prims c.hash n
      → Ensures (Leads h left k siblings) (leaf_only out n s)
  unfolding leaf_only hash leaf_pair
  leaf_only-Leads c h left k siblings more out (leaf l) s hs e same few (loaded, _) =
      pure-Ensures (Leads h left k siblings) (some l, out) s hs
        (more, e, ap (ascend prims.sha256 path (4 * k) more) loaded ∙ same, few)
  leaf_only-Leads c h left k siblings more out (internal cs) s hs e same few loaded =
      fail-Ensures (Leads h left k siblings) corrupted s hs

  follow-Leads :
      (h : Hash) (left : ℕ) (prefix : List ℕ) (slot : ℕ) (siblings : List Hash)
      (descend : List ℕ → Child → List Hash → Read Evidence) (range : Range) (out : List Hash)
      (s : Session)
      → IsSession s
      → Collected prims.sha256 path (4 * length prefix) 4 siblings h (range, out)
      → ((p : List ℕ) (c : Child) (sibs : List Hash) (s' : Session)
          → IsSession s'
          → length p ≡ suc (length prefix)
          → Ensures (Leads c.hash left (suc (length prefix)) sibs) (descend p c sibs s'))
      → Ensures
          (Leads h (suc left) (length prefix) siblings)
          (follow prims descend slot prefix (range, out) s)
  unfolding follow
  follow-Leads h left prefix slot siblings descend empty_range out s hs (more, e, same, few) k =
      pure-Ensures (Leads h (suc left) (length prefix) siblings) (none, out) s hs
        (more, e, unfold leaf_pair in same, omega arith)
  follow-Leads h left prefix slot siblings descend (leaf_range i c) out s hs (more, e, same, few)
        k =
      after-Ensures _ _
        (load_node prims (record { version = c.version; prefix = prefix ++ i ∷ [] }) c.hash s) _
        (load_node-Ensures prims (record { version = c.version; prefix = prefix ++ i ∷ [] }) c.hash
          s hs)
        λ n s1 h1 loaded.
          leaf_only-Leads c h (suc left) (length prefix) siblings more out n s1 h1 e same
            (omega arith) loaded
  follow-Leads h left prefix slot siblings descend (inner_range c) out s hs (more, e, same, four)
        k =
      let (hs', leads) =
        k (prefix ++ slot ∷ []) c out s hs (omega (arith, length-append prefix (slot ∷ []))) in
      (hs', λ a q. extend a (leads a q))
    where
      extend :
          (a : Evidence)
          → Leads c.hash left (suc (length prefix)) out a
          → Leads h (suc left) (length prefix) siblings a
      extend (l, found) (below, found_eq, below_eq, few) = (
        more ++ below,
        found_eq ∙ ap (λ x. x ++ below) e ∙ append_assoc siblings more below,
        ascend-append (4 * length prefix) more below (base prims.sha256 digest (leaf_pair l))
            ∙ ap
                (λ n.
                  ascend prims.sha256 path (4 * length prefix) more
                    (ascend prims.sha256 path n below (base prims.sha256 digest (leaf_pair l))))
                {x = 4 * length prefix + length more} {y = 4 * suc (length prefix)} (omega arith)
            ∙ ap (ascend prims.sha256 path (4 * length prefix) more) below_eq
            ∙ same,
        omega (arith, length-append more below),
      )

  prove_last-Leads :
      (c : Child) (k : ℕ) (siblings : List Hash) (n : Node) (s : Session)
      → IsSession s
      → Loaded prims c.hash n
      → Ensures (Leads c.hash 0 k siblings) (prove_last siblings n s)
  unfolding prove_last
  prove_last-Leads c k siblings (leaf l) s hs (loaded, _) =
      pure-Ensures (Leads c.hash 0 k siblings) (some l, siblings) s hs
        (leaf-Leads l c.hash 0 k siblings loaded)
  prove_last-Leads c k siblings (internal cs) s hs loaded =
      fail-Ensures (Leads c.hash 0 k siblings) panic s hs

  prove_visit-Leads :
      (c : Child) (left : ℕ) (prefix : List ℕ) (siblings : List Hash)
      (descend : List ℕ → Child → List Hash → Read Evidence) (n : Node) (s : Session)
      → IsSession s
      → Loaded prims c.hash n
      → ((p : List ℕ) (c' : Child) (sibs : List Hash) (s' : Session)
          → IsSession s'
          → length p ≡ suc (length prefix)
          → Ensures (Leads c'.hash left (suc (length prefix)) sibs) (descend p c' sibs s'))
      → Ensures
          (Leads c.hash (suc left) (length prefix) siblings)
          (prove_visit prims descend path prefix siblings n s)
  unfolding prove_visit hash
  prove_visit-Leads c left prefix siblings descend (leaf l) s hs (loaded, _) k =
      pure-Ensures (Leads c.hash (suc left) (length prefix) siblings) (some l, siblings) s hs
        (leaf-Leads l c.hash (suc left) (length prefix) siblings (unfold hash in loaded))
  prove_visit-Leads c left prefix siblings descend (internal cs) s hs (loaded, _) k =
      let slot : ℕ = nibble path (length prefix) in
      let found = search_slot prims.sha256 cs slot 0 4 siblings in
      let collected =
        search_slot-Collected prims.sha256 path cs (4 * length prefix) slot 0 4 siblings
          (nibble-Position path (length prefix) octets) in
      follow-Leads c.hash left prefix slot siblings descend found.0 found.1 s hs
        (rw loaded at collected) k

  prove_from-Leads :
      (left : ℕ) (c : Child) (prefix : List ℕ) (siblings : List Hash) (s : Session)
      → IsSession s
      → Ensures
          (Leads c.hash left (length prefix) siblings)
          (prove_from prims left path prefix c siblings s)
  unfolding prove_from
  prove_from-Leads zero c prefix siblings s hs =
      round-Ensures prims (Leads c.hash 0 (length prefix) siblings) c prefix (prove_last siblings) s
        hs λ n s' hs' loaded kind. prove_last-Leads c (length prefix) siblings n s' hs' loaded
  prove_from-Leads (suc left) c prefix siblings s hs =
      round-Ensures prims (Leads c.hash (suc left) (length prefix) siblings) c prefix
        (prove_visit prims (prove_from prims left path) path prefix siblings) s hs
        λ n s' hs' loaded kind.
          prove_visit-Leads c left prefix siblings (prove_from prims left path) n s' hs' loaded
            λ p c' sibs s'' hs'' size. rw (← size) (prove_from-Leads left c' p sibs s'' hs'')

  -- What a proof is worth against a root: it has at most 256 siblings and recomputes to the root.
  abbrev Proves : Hash → Proof → Type 0
  Proves root proof =
      (length proof.siblings ≤ 256)
      × (recompute prims.sha256 path (length proof.siblings) 0 proof.siblings
            (base prims.sha256 digest proof.leaf)
          ≡ root)

  length-reverse_hashes : (hs : List Hash) → length (reverse hs) ≡ length hs
  length-reverse_hashes [] = refl
  length-reverse_hashes (h ∷ hs) =
      ap length (reverse-append (h ∷ []) hs)
      ∙ length-append (reverse hs) (h ∷ [])
      ∙ omega (arith, length-reverse_hashes hs)

  -- The root's child has the root's hash; without one, the root is the empty tree's.
  abbrev RootHash : Hash → Option Child → Type 0
  RootHash root none = root ≡ placeholder prims.sha256
  RootHash root (some c) = c.hash ≡ root

  prove_path-Proves :
      (root : Hash) (o : Option Child) (s : Session)
      → IsSession s
      → RootHash root o
      → Ensures (Proves root) (prove_path prims o path s)
  unfolding prove_path recompute
  prove_path-Proves root none s hs e =
      pure-Ensures (Proves root) (record { leaf = none; siblings = [] }) s hs (omega arith, sym e)
  prove_path-Proves root (some c) s hs e =
      after-Ensures (Leads c.hash 64 0 []) (Proves root) (prove_from prims 64 path [] c [] s) _
        (prove_from-Leads 64 c [] [] s hs)
        λ (l, out) s1 h1 (more, out_eq, same, few).
          pure-Ensures (Proves root) (record { leaf = leaf_pair l; siblings = reverse out }) s1 h1
            (
              omega (arith, length-reverse_hashes out, ap length out_eq),
              recompute-reverse prims.sha256 path out (base prims.sha256 digest (leaf_pair l))
                  ∙ ap (λ x. ascend prims.sha256 path 0 x (base prims.sha256 digest (leaf_pair l)))
                      out_eq
                  ∙ same
                  ∙ e,
            )

  load_root_child-RootHash :
      (root : Hash) (version : ℕ) (s : Session)
      → IsSession s
      → Ensures (RootHash root) (load_root_child prims root version s)
  unfolding load_root_child
  load_root_child-RootHash root version s hs =
      by_decision (Bytes-discrete root (placeholder prims.sha256))
    where
      by_decision :
          (d : Dec (root ≡ placeholder prims.sha256))
          → Ensures (RootHash root) (
              ite d
                (pure none)
                (λ s.
                  after (load_node prims (root_key version) root s) λ n.
                    pure (some (record { version = version; hash = root; is_leaf = is_leaf n })))
                s)
      by_decision (yes q) = pure-Ensures (RootHash root) none s hs q
      by_decision (no q) =
          after-Ensures _ _ (load_node prims (root_key version) root s) _
            (load_node-Ensures prims (root_key version) root s hs)
            λ n s1 h1 loaded.
              pure-Ensures (RootHash root)
                (some (record { version = version; hash = root; is_leaf = is_leaf n })) s1 h1 refl

  verify-Proves :
      (root : Hash) (proof : Proof) (start : Hash × Verified)
      → Proves root proof
      → statement prims.sha256 path (length proof.siblings) proof.leaf ≡ ok start
      → verify prims.sha256 root path proof ≡ ok start.1
  unfolding verify
  verify-Proves root proof start (few, same) e =
      let n : ℕ = length proof.siblings in
      let shallow : ltb 256 n ≡ false = ground arith in
      let start_eq = (statement-base prims.sha256 digest path n proof.leaf start e).0 in
      let root_eq : recompute prims.sha256 path n 0 proof.siblings start.0 ≡ root =
        ap (recompute prims.sha256 path n 0 proof.siblings) start_eq ∙ same in
      rw (shallow, e) (if_pos (Bytes-discrete _ root) root_eq (ok start.1) (err invalid))

module _ (prims : Primitives) (digest : IsDigest prims.sha256) where
  -- Where SHA-256 gives 32 bytes and the key's path is a byte string, whatever the host answers: if a
  -- store opens at a root and `prove` then returns a proof for the key, the proof has at most 256
  -- siblings, and `verify` accepts it against that root with what its leaf states, if the leaf covers
  -- the path (it is the path's own, or shares as many bits with it as there are siblings).
  pub prove_accepted :
      (root : Hash) (version : ℕ) (key : Bytes) (store : MerkleStore) (proof : Proof)
      (start : Hash × Verified) (s s' : Session)
      → All IsByte (path_of prims key)
      → IsSession s
      → IsSession s'
      → (open_at prims root version s).0 ≡ ok store
      → (prove prims store key s').0 ≡ ok proof
      → statement prims.sha256 (path_of prims key) (length proof.siblings) proof.leaf ≡ ok start
      → (length proof.siblings ≤ 256)
        × (verify prims.sha256 root (path_of prims key) proof ≡ ok start.1)
  unfolding open_at prove
  prove_accepted root version key store proof start s s' octets hs hs' opened proved stated =
      let path : Hash = path_of prims key in
      let root_hash =
        from_store (load_root_child prims root version s)
          (load_root_child-RootHash prims digest path octets root version s hs) opened in
      let proves =
        (prove_path-Proves prims digest path octets root store.root_child s' hs' root_hash).1 proof
          proved in
      (proves.0, verify-Proves prims digest path octets root proof start proves stated)
    where
      from_store :
          (r : Result MerkleError (Option Child) × Session)
          → Ensures (RootHash prims digest (path_of prims key) octets root) r
          → (after r λ root_child.
              pure (record { root = root; version = version; root_child = root_child })).0
            ≡ ok store
          → RootHash prims digest (path_of prims key) octets root store.root_child
      from_store (err e, s1) h q = absurd (cc q)
      from_store (ok o, s1) (h1, h) q =
          let o_eq : o ≡ store.root_child = cc q in
          subst (RootHash prims digest (path_of prims key) octets root) o_eq (h o refl)
