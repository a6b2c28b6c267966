-- ===== src/Vault/Audit/Pages.antt =====
-- Reading the audit log of crates/enclave-os-vault/src/audit.rs page by page.
use privasys_enclave_os_mini.Common.{
  ℕ, zero, suc, ◌+◌, ◌-◌, ◌≤◌, ◌<◌, ◌⊎◌, ◌≡◌, refl, sym, ap, ◌∙◌, inl, inr, Bool, true, false,
  Option, none, some, List, [], ◌∷◌, ◌++◌, arith, ltb, length, length-append,
}
use mathlib.Core.List.{append-nil, append_assoc}
use privasys_enclave_os_mini.Common.Bytes.{Bytes}
use privasys_enclave_os_mini.Common.Results.{Result, ok, err}
use privasys_enclave_os_mini.Vault.Types.{String}
use privasys_enclave_os_mini.Vault.Records.{AuditEntry, VaultError}
use privasys_enclave_os_mini.Vault.Keys.{VaultKv, audit_key}
use privasys_enclave_os_mini.Vault.Audit.{Page, round, push_found, read_loop, read}

ok_page_inj : {a b : List AuditEntry × ℕ} → ◌≡◌ {A = Page} (ok a) (ok b) → a ≡ b
ok_page_inj e = cc e

abbrev page_at : ℕ → List AuditEntry → Page
page_at seq out = ok (out, seq)

-- The page with entries before it.
abbrev behind : List AuditEntry → List AuditEntry × ℕ → Page
behind pre p = ok (pre ++ p.0, p.1)

-- A round that came to a page did so behind the condition or after an answer of the store.
round-ok :
    (more : Bool) (got : Result VaultError (Option Bytes)) (go : Option Bytes → Page)
    (out : List AuditEntry) (seq : ℕ) (page : List AuditEntry × ℕ)
    → round more got go out seq ≡ ok page
    → ((more ≡ false) × (page ≡ (out, seq)))
      ⊎ ((found : Option Bytes) × (more ≡ true) × (got ≡ ok found) × (go found ≡ ok page))
unfolding round
round-ok false got go out seq page e = inl (refl, sym (ok_page_inj e))
round-ok true (err x) go out seq page e = absurd (cc e)
round-ok true (ok found) go out seq page e = inr (found, refl, refl, e)

module _ {Store : Type 0} (kv : VaultKv Store) where
  push_found-append :
      (pre out : List AuditEntry) (found : Option Bytes)
      → push_found kv (pre ++ out) found ≡ pre ++ push_found kv out found
  unfolding push_found
  push_found-append pre out none = refl
  push_found-append pre out (some bytes) = by_entry (kv.entry_from_slice bytes)
    where
      by_entry :
          (o : Option AuditEntry)
          → ◌≡◌ {A = List AuditEntry}
              (elim o [ none ↦ pre ++ out | some entry ↦ (pre ++ out) ++ entry ∷ [] ])
              (pre ++ elim o [ none ↦ out | some entry ↦ out ++ entry ∷ [] ])
      by_entry none = refl
      by_entry (some entry) = append_assoc pre out (entry ∷ [])

  length-push_found-le :
      (out : List AuditEntry) (found : Option Bytes)
      → length (push_found kv out found) ≤ suc (length out)
  unfolding push_found
  length-push_found-le out none = omega arith
  length-push_found-le out (some bytes) = by_entry (kv.entry_from_slice bytes)
    where
      by_entry :
          (o : Option AuditEntry)
          → length (elim o [ none ↦ out | some entry ↦ out ++ entry ∷ [] ]) ≤ suc (length out)
      by_entry none = omega arith
      by_entry (some entry) = omega (arith, length-append out (entry ∷ []))

  round-false :
      (got : Result VaultError (Option Bytes)) (go : Option Bytes → Page) (out : List AuditEntry)
      (seq : ℕ) (more : Bool)
      → more ≡ false
      → round more got go out seq ≡ ok (out, seq)
  unfolding round
  round-false got go out seq more m = rw m refl

  round-true :
      (found : Option Bytes) (go : Option Bytes → Page) (out : List AuditEntry) (seq : ℕ)
      (more : Bool) (got : Result VaultError (Option Bytes))
      → more ≡ true
      → got ≡ ok found
      → round more got go out seq ≡ go found
  unfolding round
  round-true found go out seq more got m g = rw (m, g) refl

  -- What is read does not depend on what was read before.
  read_loop-append :
      (s : Store) (handle : String) (left seq limit : ℕ) (pre out b : List AuditEntry) (next : ℕ)
      → read_loop kv s handle left seq limit out ≡ ok (b, next)
      → read_loop kv s handle left seq (length pre + limit) (pre ++ out) ≡ ok (pre ++ b, next)
  unfolding read_loop
  read_loop-append s handle zero seq limit pre out b next e = ap (behind pre) (ok_page_inj e)
  read_loop-append s handle (suc left) seq limit pre out b next e =
      elim (round-ok (ltb (length out) limit) (kv.get s (audit_key handle seq))
        (λ found. read_loop kv s handle left (suc seq) limit (push_found kv out found)) out seq
        (b, next) e) [
          | inl (full, page) ↦
              let full' : ltb (length (pre ++ out)) (length pre + limit) ≡ false =
                ground (arith, length-append pre out, full) in
              round-false (kv.get s (audit_key handle seq)) _ (pre ++ out) seq _ full'
              ∙ ap (behind pre) (sym page)
          | inr (found, more, got, rest) ↦
              let more' : ltb (length (pre ++ out)) (length pre + limit) ≡ true =
                ground (arith, length-append pre out, more) in
              round-true found _ (pre ++ out) seq _ _ more' got
              ∙ ap (read_loop kv s handle left (suc seq) (length pre + limit))
                  (push_found-append pre out found)
              ∙ read_loop-append s handle left (suc seq) limit pre (push_found kv out found) b next
                  rest
        ]

  read_loop-pages :
      (s : Store) (handle : String) (next_seq left seq first more : ℕ) (out a b : List AuditEntry)
      (mid next : ℕ)
      → next_seq - seq ≡ left
      → length out ≤ first
      → read_loop kv s handle left seq first out ≡ ok (a, mid)
      → read_loop kv s handle (next_seq - mid) mid more [] ≡ ok (b, next)
      → read_loop kv s handle left seq (first + more) out ≡ ok (a ++ b, next)
  unfolding read_loop
  read_loop-pages s handle next_seq zero seq first more out a b mid next n few e e2 =
      let page : (out, seq) ≡ (a, mid) = ok_page_inj e in
      let ended : next_seq - mid ≡ zero =
        ap (λ (p : List AuditEntry × ℕ). next_seq - p.1) (sym page) ∙ n in
      let page2 : ([], mid) ≡ (b, next) =
        ok_page_inj (sym (ap (λ l. read_loop kv s handle l mid more []) ended) ∙ e2) in
      ap (page_at seq) (sym (append-nil out))
      ∙ ap (λ (p : List AuditEntry × ℕ). behind p.0 ([], p.1)) page
      ∙ ap (behind a) page2
  read_loop-pages s handle next_seq (suc left) seq first more out a b mid next n few e e2 =
      elim (round-ok (ltb (length out) first) (kv.get s (audit_key handle seq))
        (λ found. read_loop kv s handle left (suc seq) first (push_found kv out found)) out seq
        (a, mid) e) [
          | inl (full, page) ↦
              let a_eq : a ≡ out = ap (λ (p : List AuditEntry × ℕ). p.0) page in
              let mid_eq : mid ≡ seq = ap (λ (p : List AuditEntry × ℕ). p.1) page in
              let first_eq : length out ≡ first = ground (arith, few, full) in
              let rest : read_loop kv s handle (suc left) seq more [] ≡ ok (b, next) =
                ap (λ l. read_loop kv s handle l seq more []) (sym n)
                ∙ ap (λ m. read_loop kv s handle (next_seq - m) m more []) (sym mid_eq)
                ∙ e2 in
              ap (λ f. read_loop kv s handle (suc left) seq (f + more) out) (sym first_eq)
              ∙ ap (read_loop kv s handle (suc left) seq (length out + more)) (sym (append-nil out))
              ∙ read_loop-append s handle (suc left) seq more out [] b next rest
              ∙ ap (λ l. page_at next (l ++ b)) (sym a_eq)
          | inr (found, room, got, rest) ↦
              let room' : ltb (length out) (first + more) ≡ true = ground (arith, room) in
              let less : length out < first = ground (arith, room) in
              round-true found _ out seq _ _ room' got
              ∙ read_loop-pages s handle next_seq left (suc seq) first more
                  (push_found kv out found) a b mid next (omega (arith, n))
                  (omega (arith, less, length-push_found-le out found)) rest e2
        ]

  -- Where a page of at most `first` entries is read, and from the sequence number that it answers a page
  -- of at most `more` entries, both without an error of the store, one reading of at most
  -- `first + more` entries gives the entries of both and the second page's sequence number.
  pub read-pages :
      (s : Store) (handle : String) (next_seq since_seq first more : ℕ) (a b : List AuditEntry)
      (mid next : ℕ)
      → read kv s handle next_seq since_seq first ≡ ok (a, mid)
      → read kv s handle next_seq mid more ≡ ok (b, next)
      → read kv s handle next_seq since_seq (first + more) ≡ ok (a ++ b, next)
  unfolding read
  read-pages s handle next_seq since_seq first more a b mid next e e2 =
      read_loop-pages s handle next_seq (next_seq - since_seq) since_seq first more [] a b mid next
        refl (omega arith) e e2
