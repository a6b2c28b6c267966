-- ===== src/Merkle/Cache.antt =====
-- The LRU cache of nodes: crates/enclave-os-merkle/src/cache.rs. The lock around it is left out, and
-- the `HashMap` is an association list; no two entries share a tick, so the order of its iteration
-- does not show.
pub mod Laws
use privasys_enclave_os_mini.Common.{
  ℕ, zero, suc, ◌+◌, Bool, true, false, not, ◌&&◌, Option, none, some, List, [], ◌∷◌, ltb, leb,
  ◌==◌, if◌then◌else◌, length,
}
use mathlib.Core.Logic.{ite}
use native.Mathlib.Decide.{ℕ_discrete}
use privasys_enclave_os_mini.Merkle.Node.{NodeKey, Node}

unfoldable pub NodeKey-discrete : Discrete NodeKey
NodeKey-discrete = hlevel ℕ_discrete

-- A key, its node and the tick of its last use.
abbrev pub Entry : Type 0
Entry = NodeKey × Node × ℕ

pub record NodeCache : Type 0 where
  pub capacity : ℕ
  pub tick : ℕ
  pub entries : List Entry

unfoldable pub new : ℕ → NodeCache
new capacity = record { capacity = capacity; tick = 0; entries = [] }

unfoldable pub find : NodeKey → List Entry → Option Node
find key [] = none
find key ((k, node, used) ∷ entries) = ite (NodeKey-discrete k key) (some node) (find key entries)

unfoldable pub touch : NodeKey → (tick : ℕ) → List Entry → List Entry
touch key tick [] = []
touch key tick ((k, node, used) ∷ entries) =
    ite (NodeKey-discrete k key) ((k, node, tick) ∷ entries)
      ((k, node, used) ∷ touch key tick entries)

unfoldable pub insert : NodeKey → Node → (tick : ℕ) → List Entry → List Entry
insert key node tick [] = (key, node, tick) ∷ []
insert key node tick ((k, old, used) ∷ entries) =
    ite (NodeKey-discrete k key) ((k, node, tick) ∷ entries)
      ((k, old, used) ∷ insert key node tick entries)

unfoldable pub remove : NodeKey → List Entry → List Entry
remove key [] = []
remove key ((k, node, used) ∷ entries) =
    ite (NodeKey-discrete k key) entries ((k, node, used) ∷ remove key entries)

-- `min_by_key`: the first entry with the smallest tick, here from `best` on.
unfoldable pub min_by_tick : Entry → List Entry → Entry
min_by_tick best [] = best
min_by_tick best (e ∷ entries) = min_by_tick (if ltb e.2 best.2 then e else best) entries

unfoldable pub evict : List Entry → List Entry
evict [] = []
evict (e ∷ entries) = remove (min_by_tick e entries).0 (e ∷ entries)

unfoldable pub is_some : Option Node → Bool
is_some none = false
is_some (some n) = true

unfoldable pub get : NodeCache → NodeKey → Option Node × NodeCache
get c key =
    (find key c.entries, record c { tick = c.tick + 1; entries = touch key (c.tick + 1) c.entries })

unfoldable pub put : NodeCache → NodeKey → Node → NodeCache
put c key node =
    if c.capacity == 0
    then c
    else let full = leb c.capacity (length c.entries) && not (is_some (find key c.entries)) in
      let kept = if full then evict c.entries else c.entries in
      record c { tick = c.tick + 1; entries = insert key node (c.tick + 1) kept }

unfoldable pub clear : NodeCache → NodeCache
clear c = record c { entries = [] }

unfoldable pub set_capacity : NodeCache → ℕ → NodeCache
set_capacity c capacity = record c { capacity = capacity; entries = [] }
