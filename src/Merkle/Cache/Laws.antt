-- ===== src/Merkle/Cache/Laws.antt =====
-- The cache of crates/enclave-os-merkle/src/cache.rs keeps to its capacity, and hands out only what
-- was put in.
use privasys_enclave_os_mini.Common.{
  ℕ, suc, ◌+◌, ◌≤◌, ◌<◌, ◌≡◌, ◌≢◌, refl, sym, ap, ◌⊎◌, inl, inr, Bool, true, false, not, ◌&&◌, some,
  List, [], ◌∷◌, arith, ltb, leb, ◌==◌, if◌then◌else◌, length, Bool-cases,
}
use mathlib.Core.Logic.{if_pos, if_neg}
use privasys_enclave_os_mini.Common.Tests.{and-true}
use privasys_enclave_os_mini.Merkle.Node.{NodeKey, Node}
use privasys_enclave_os_mini.Merkle.Cache.{
  NodeKey-discrete, Entry, NodeCache, find, touch, insert, remove, min_by_tick, evict, is_some, get,
  put,
}

-- Every cached node has the property.
abbrev pub Cached : (Node → Type 0) → List Entry → Type 0
Cached P [] = Unit {0}
Cached P ((k, node, used) ∷ entries) = P node × Cached P entries

find-Cached :
    (P : Node → Type 0) (key : NodeKey) (n : Node) (es : List Entry)
    → Cached P es
    → find key es ≡ some n
    → P n
unfolding find
find-Cached P key n [] h e = absurd (cc e)
find-Cached P key n ((k, node, used) ∷ es) (h, hs) e = elim (NodeKey-discrete k key) [
  | yes q ↦ let same : node ≡ n = cc (rw (if_pos (NodeKey-discrete k key) q) at e) in rw (← same) h
  | no q ↦ find-Cached P key n es hs (rw (if_neg (NodeKey-discrete k key) q) at e)
]

touch-Cached :
    (P : Node → Type 0) (key : NodeKey) (tick : ℕ) (es : List Entry)
    → Cached P es
    → Cached P (touch key tick es)
unfolding touch
touch-Cached P key tick [] h = tt
touch-Cached P key tick ((k, node, used) ∷ es) (h, hs) = elim (NodeKey-discrete k key) [
  | yes q ↦ rw (if_pos (NodeKey-discrete k key) q) (h, hs)
  | no q ↦ rw (if_neg (NodeKey-discrete k key) q) (h, touch-Cached P key tick es hs)
]

insert-Cached :
    (P : Node → Type 0) (key : NodeKey) (n : Node) (tick : ℕ) (es : List Entry)
    → P n
    → Cached P es
    → Cached P (insert key n tick es)
unfolding insert
insert-Cached P key n tick [] p h = (p, tt)
insert-Cached P key n tick ((k, node, used) ∷ es) p (h, hs) = elim (NodeKey-discrete k key) [
  | yes q ↦ rw (if_pos (NodeKey-discrete k key) q) (p, hs)
  | no q ↦ rw (if_neg (NodeKey-discrete k key) q) (h, insert-Cached P key n tick es p hs)
]

remove-Cached :
    (P : Node → Type 0) (key : NodeKey) (es : List Entry) → Cached P es → Cached P (remove key es)
unfolding remove
remove-Cached P key [] h = tt
remove-Cached P key ((k, node, used) ∷ es) (h, hs) = elim (NodeKey-discrete k key) [
  | yes q ↦ rw (if_pos (NodeKey-discrete k key) q) hs
  | no q ↦ rw (if_neg (NodeKey-discrete k key) q) (h, remove-Cached P key es hs)
]

evict-Cached : (P : Node → Type 0) (es : List Entry) → Cached P es → Cached P (evict es)
unfolding evict
evict-Cached P [] h = h
evict-Cached P (e ∷ es) h = remove-Cached P (min_by_tick e es).0 (e ∷ es) h

pub get-Cached :
    (P : Node → Type 0) (c : NodeCache) (key : NodeKey)
    → Cached P c.entries
    → Cached P (get c key).1.entries × ((n : Node) → (get c key).0 ≡ some n → P n)
unfolding get
get-Cached P c key h =
    (touch-Cached P key (c.tick + 1) c.entries h, λ n e. find-Cached P key n c.entries h e)

pub put-Cached :
    (P : Node → Type 0) (c : NodeCache) (key : NodeKey) (n : Node)
    → P n
    → Cached P c.entries
    → Cached P (put c key n).entries
unfolding put
put-Cached P c key n p h = elim (Bool-cases (c.capacity == 0)) [
  | inl off ↦ rw off h
  | inr on ↦
      elim (Bool-cases (leb c.capacity (length c.entries) && not (is_some (find key c.entries)))) [
        | inl full ↦
            rw (on, full)
              (insert-Cached P key n (c.tick + 1) (evict c.entries) p (evict-Cached P c.entries h))
        | inr room ↦ rw (on, room) (insert-Cached P key n (c.tick + 1) c.entries p h)
      ]
]

-- The key is one of those in the list.
abbrev Holds : NodeKey → List Entry → Type 0
Holds key [] = ⊥
Holds key ((k, node, used) ∷ es) = (k ≡ key) ⊎ Holds key es

length-remove :
    (key : NodeKey) (es : List Entry) → Holds key es → suc (length (remove key es)) ≡ length es
unfolding remove
length-remove key [] h = absurd h
length-remove key ((k, node, used) ∷ es) h = elim (NodeKey-discrete k key) [
  | yes q ↦ rw (if_pos (NodeKey-discrete k key) q) refl
  | no q ↦ rw (if_neg (NodeKey-discrete k key) q) (ap suc (length-remove key es (behind q h)))
]
  where
    behind : k ≢ key → (k ≡ key) ⊎ Holds key es → Holds key es
    behind q (inl e) = absurd (q e)
    behind q (inr m) = m

min_by_tick-Holds :
    (best : Entry) (es : List Entry)
    → ((min_by_tick best es).0 ≡ best.0) ⊎ Holds (min_by_tick best es).0 es
unfolding min_by_tick
min_by_tick-Holds best [] = inl refl
min_by_tick-Holds best (e ∷ es) =
    either (ltb e.2 best.2) (min_by_tick-Holds e es) (min_by_tick-Holds best es)
  where
    either :
        (b : Bool)
        → ((min_by_tick e es).0 ≡ e.0) ⊎ Holds (min_by_tick e es).0 es
        → ((min_by_tick best es).0 ≡ best.0) ⊎ Holds (min_by_tick best es).0 es
        → let best' = min_by_tick (if b then e else best) es in
          (best'.0 ≡ best.0) ⊎ ((e.0 ≡ best'.0) ⊎ Holds best'.0 es)
    either true (inl q) other = inr (inl (sym q))
    either true (inr m) other = inr (inr m)
    either false other (inl q) = inl q
    either false other (inr m) = inr (inr m)

length-evict : (es : List Entry) → 0 < length es → suc (length (evict es)) ≡ length es
unfolding evict
length-evict [] h = absurd (omega arith)
length-evict (e ∷ es) h =
    length-remove (min_by_tick e es).0 (e ∷ es) (among (min_by_tick-Holds e es))
  where
    among :
        ((min_by_tick e es).0 ≡ e.0) ⊎ Holds (min_by_tick e es).0 es
        → Holds (min_by_tick e es).0 (e ∷ es)
    among (inl q) = inl (sym q)
    among (inr m) = inr m

-- A known key is overwritten, another one takes a place.
length-insert :
    (key : NodeKey) (n : Node) (tick : ℕ) (es : List Entry)
    → length (insert key n tick es) ≡ (if is_some (find key es) then length es else suc (length es))
unfolding insert find is_some
length-insert key n tick [] = refl
length-insert key n tick ((k, node, used) ∷ es) = ground (arith, length-insert key n tick es)

length-insert_le :
    (key : NodeKey) (n : Node) (tick : ℕ) (es : List Entry)
    → length (insert key n tick es) ≤ suc (length es)
length-insert_le key n tick es = ground (arith, length-insert key n tick es)

find-insert :
    (key : NodeKey) (n : Node) (tick : ℕ) (es : List Entry)
    → find key (insert key n tick es) ≡ some n
unfolding find insert
find-insert key n tick [] = ground arith
find-insert key n tick ((k, node, used) ∷ es) = ground (arith, find-insert key n tick es)

-- A cache of some capacity that is within it is within it after `put`, and the next `get` of the key
-- gives the node that was put.
pub put_lem :
    (c : NodeCache) (key : NodeKey) (n : Node)
    → length c.entries ≤ c.capacity
    → c.capacity ≢ 0
    → (length (put c key n).entries ≤ (put c key n).capacity) × ((get (put c key n) key).0 ≡ some n)
unfolding put get
put_lem c key n h ne =
    let on : (c.capacity == 0) ≡ false = ground arith in
    elim (Bool-cases (leb c.capacity (length c.entries) && not (is_some (find key c.entries)))) [
      | inl full ↦
          let es : List Entry = evict c.entries in
          let size = length-insert_le key n (c.tick + 1) es in
          let reached : leb c.capacity (length c.entries) ≡ true = (and-true _ _ full).0 in
          let shrunk = length-evict c.entries (ground arith) in
          rw (on, full) (omega arith, find-insert key n (c.tick + 1) es)
      | inr room ↦
          let size = length-insert key n (c.tick + 1) c.entries in
          rw (on, room) (ground arith, find-insert key n (c.tick + 1) c.entries)
    ]

find-touch :
    (key k' : NodeKey) (tick : ℕ) (es : List Entry) → find key (touch k' tick es) ≡ find key es
unfolding find touch
find-touch key k' tick [] = refl
find-touch key k' tick ((k, node, used) ∷ es) = ground (arith, find-touch key k' tick es)

-- A `get` answers what is held, and holds on to it.
pub get-find :
    (c : NodeCache) (key : NodeKey)
    → ((get c key).0 ≡ find key c.entries) × (find key (get c key).1.entries ≡ find key c.entries)
unfolding get
get-find c key = (refl, find-touch key key (c.tick + 1) c.entries)

-- After a `put` the node is held, unless the capacity is 0, where nothing changes.
pub put-find :
    (c : NodeCache) (key : NodeKey) (n : Node)
    → (find key (put c key n).entries ≡ some n) ⊎ (put c key n ≡ c)
unfolding put
put-find c key n = elim (Bool-cases (c.capacity == 0)) [
  | inl off ↦ inr (rw off refl)
  | inr on ↦ inl (rw on (find-insert key n (c.tick + 1) _))
]
