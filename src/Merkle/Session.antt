-- ===== src/Merkle/Session.antt =====
-- What a read of crates/enclave-os-merkle/src/tree.rs works on: the node cache behind its lock, and
-- the host, which may answer each call as it likes.
use privasys_enclave_os_mini.Common.{ℕ, ◌+◌, ◌≡◌, refl, Option}
use privasys_enclave_os_mini.Common.Bytes.{Bytes}
use privasys_enclave_os_mini.Common.Results.{Result, ok, err}
use privasys_enclave_os_mini.Merkle.Error.{MerkleError}
use privasys_enclave_os_mini.Merkle.Hash.{Hash}
use privasys_enclave_os_mini.Merkle.Node.{NodeKey, Node}
use privasys_enclave_os_mini.Merkle.Node.Decoded.{HasHashes}
use privasys_enclave_os_mini.Merkle.Cache.{NodeCache, get, put}
use privasys_enclave_os_mini.Merkle.Cache.Laws.{Cached, get-Cached, put-Cached}

-- The primitives that the store calls: `backend_get` is `KvBackend::get`, given the number of the
-- call; `hmac` is HMAC-SHA256 under the commitment key, of the parts one after the other; `decrypt`
-- is the store's AEAD cipher on a ciphertext and the associated data.
pub record Primitives : Type 0 where
  pub sha256 : Bytes → Hash
  pub hmac : Bytes → Hash
  pub decrypt : Bytes → Bytes → Option Bytes
  pub backend_get : ℕ → Bytes → Result MerkleError (Option Bytes)

pub record Session : Type 0 where
  pub cache : NodeCache
  pub calls : ℕ

abbrev pub Read : Type 0 → Type 0
Read A = Session → Result MerkleError A × Session

abbrev pub after :
    {A B : Type 0} → Result MerkleError A × Session → (A → Read B) → Result MerkleError B × Session
after (ok a, s) f = f a s
after (err e, s) f = (err e, s)

infixl 5 ◌>>=◌ ◌>>◌
abbrev pub ◌>>=◌ : {A B : Type 0} → Read A → (A → Read B) → Read B
◌>>=◌ m f s = after (m s) f

abbrev pub ◌>>◌ : {B : Type 0} → Read (Unit {0}) → Read B → Read B
m >> k = m >>= λ _. k

abbrev pub pure : {A : Type 0} → A → Read A
pure a s = (ok a, s)

abbrev pub fail : {A : Type 0} → MerkleError → Read A
fail e s = (err e, s)

abbrev pub lift : {A : Type 0} → Result MerkleError A → Read A
lift r s = (r, s)

unfoldable pub cache_get : NodeKey → Read (Option Node)
cache_get nk s = let answer = get s.cache nk in (ok answer.0, record s { cache = answer.1 })

unfoldable pub cache_put : NodeKey → Node → Read (Unit {0})
cache_put nk node s = (ok tt, record s { cache = put s.cache nk node })

unfoldable pub fetch : Primitives → Bytes → Read (Option Bytes)
fetch prims key s = (prims.backend_get s.calls key, record s { calls = s.calls + 1 })

-- Every cached node has 32-byte hashes, as its type says.
abbrev pub IsSession : Session → Type 0
IsSession s = Cached HasHashes s.cache.entries

-- From a sound session: the session stays sound, and a result has the property.
abbrev pub Ensures : {A : Type 0} → (A → Type 0) → Result MerkleError A × Session → Type 0
Ensures {A} P (r, s) = IsSession s × ((a : A) → r ≡ ok a → P a)

pub after-Ensures :
    {A B : Type 0} (P : A → Type 0) (Q : B → Type 0) (r : Result MerkleError A × Session)
    (f : A → Read B)
    → Ensures P r
    → ((a : A) (s : Session) → IsSession s → P a → Ensures Q (f a s))
    → Ensures Q (after r f)
after-Ensures P Q (ok a, s) f (hs, h) k = k a s hs (h a refl)
after-Ensures P Q (err e, s) f (hs, h) k = (hs, λ b q. absurd (cc q))

pub pure-Ensures :
    {A : Type 0} (P : A → Type 0) (a : A) (s : Session) → IsSession s → P a → Ensures P (pure a s)
pure-Ensures P a s hs h = (hs, λ b q. let same : a ≡ b = cc q in rw (← same) h)

pub fail-Ensures :
    {A : Type 0} (P : A → Type 0) (e : MerkleError) (s : Session)
    → IsSession s
    → Ensures P (fail {A = A} e s)
fail-Ensures P e s hs = (hs, λ b q. absurd (cc q))

-- A pure result, with what it says of itself.
pub lift-Ensures :
    {A : Type 0} (r : Result MerkleError A) (s : Session)
    → IsSession s
    → Ensures (λ a. r ≡ ok a) (lift r s)
lift-Ensures r s hs = (hs, λ a q. q)

pub cache_get-Ensures :
    (nk : NodeKey) (s : Session)
    → IsSession s
    → Ensures (λ o. (n : Node) → o ≡ Option.some n → HasHashes n) (cache_get nk s)
unfolding cache_get
cache_get-Ensures nk s hs =
    let (kept, found) = get-Cached HasHashes s.cache nk hs in (kept, λ o q n e. found n (cc (q, e)))

pub cache_put-Ensures :
    (nk : NodeKey) (n : Node) (s : Session)
    → IsSession s
    → HasHashes n
    → Ensures (λ _. Unit {0}) (cache_put nk n s)
unfolding cache_put
cache_put-Ensures nk n s hs h = (put-Cached HasHashes s.cache nk n h hs, λ _ _. tt)

pub fetch-Ensures :
    (prims : Primitives) (key : Bytes) (s : Session)
    → IsSession s
    → Ensures (λ _. Unit {0}) (fetch prims key s)
unfolding fetch
fetch-Ensures prims key s hs = (hs, λ _ _. tt)
