-- ===== src/Merkle/Proof/Fold.antt =====
-- The verifier's loop of crates/enclave-os-merkle/src/proof.rs, from the top of the tree down.
use privasys_enclave_os_mini.Common.{
  ℕ, suc, ◌+◌, ◌-◌, ◌≡◌, refl, sym, ap, ◌∙◌, List, [], ◌∷◌, ◌++◌, reverse, length, arith,
  length-append,
}
use mathlib.Core.List.{reverse-append, reverse-reverse}
use privasys_enclave_os_mini.Common.Bytes.{Bytes}
use privasys_enclave_os_mini.Merkle.Hash.{Hash}
use privasys_enclave_os_mini.Merkle.Proof.{bit, combine, recompute}

module _ (sha256 : Bytes → Hash) (path : Hash) where
  -- The hash at depth `d`, from the siblings below it, the topmost first.
  abbrev pub ascend : (d : ℕ) → List Hash → Hash → Hash
  ascend d [] acc = acc
  ascend d (sibling ∷ below) acc = combine sha256 (bit path d) sibling (ascend (suc d) below acc)

  -- The loop without its counters: the depth is the number of siblings left.
  climb : (d : ℕ) → List Hash → Hash → Hash
  climb d [] acc = acc
  climb d (sibling ∷ siblings) acc =
      climb d siblings (combine sha256 (bit path (d + length siblings)) sibling acc)

  recompute-climb :
      (n i : ℕ) (siblings : List Hash) (acc : Hash)
      → i + length siblings ≡ n
      → recompute sha256 path n i siblings acc ≡ climb 0 siblings acc
  unfolding recompute climb
  recompute-climb n i [] acc e = refl
  recompute-climb n i (s ∷ ss) acc e =
      recompute-climb n (suc i) ss (combine sha256 (bit path (n - 1 - i)) s acc) (omega arith)
      ∙ ap (λ d. climb 0 ss (combine sha256 (bit path d) s acc)) {x = n - 1 - i} {y = 0 + length ss}
          (omega arith)

  climb-append :
      (d : ℕ) (siblings : List Hash) (top acc : Hash)
      → climb d (siblings ++ top ∷ []) acc
        ≡ combine sha256 (bit path d) top (climb (suc d) siblings acc)
  unfolding climb
  climb-append d [] top acc =
      ap (λ k. combine sha256 (bit path k) top acc) {x = d + 0} {y = d} (omega arith)
  climb-append d (s ∷ ss) top acc =
      climb-append d ss top (combine sha256 (bit path (d + length (ss ++ top ∷ []))) s acc)
      ∙ ap
          (λ k.
            combine sha256 (bit path d) top (climb (suc d) ss (combine sha256 (bit path k) s acc)))
          {x = d + length (ss ++ top ∷ [])} {y = suc d + length ss}
          (omega (arith, length-append ss (top ∷ [])))

  climb-reverse :
      (d : ℕ) (topdown : List Hash) (acc : Hash)
      → climb d (reverse topdown) acc ≡ ascend d topdown acc
  unfolding climb
  climb-reverse d [] acc = refl
  climb-reverse d (s ∷ ss) acc =
      ap (λ l. climb d l acc) (reverse-append (s ∷ []) ss)
      ∙ climb-append d (reverse ss) s acc
      ∙ ap (combine sha256 (bit path d) s) (climb-reverse (suc d) ss acc)

  -- The loop over siblings that were collected from the top down and then reversed.
  pub recompute-reverse :
      (topdown : List Hash) (acc : Hash)
      → recompute sha256 path (length (reverse topdown)) 0 (reverse topdown) acc
        ≡ ascend 0 topdown acc
  recompute-reverse topdown acc =
      recompute-climb (length (reverse topdown)) 0 (reverse topdown) acc (omega arith)
      ∙ climb-reverse 0 topdown acc

  pub recompute-ascend :
      (siblings : List Hash) (acc : Hash)
      → recompute sha256 path (length siblings) 0 siblings acc ≡ ascend 0 (reverse siblings) acc
  recompute-ascend siblings acc =
      recompute-climb (length siblings) 0 siblings acc (omega arith)
      ∙ ap (λ l. climb 0 l acc) (sym (reverse-reverse siblings))
      ∙ climb-reverse 0 (reverse siblings) acc
