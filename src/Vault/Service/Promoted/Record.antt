-- ===== src/Vault/Service/Promoted/Record.antt =====
-- The record that a promotion in crates/enclave-os-vault/src/lib.rs stores, and the OIDs that it requires.
use privasys_enclave_os_mini.Common.{
  ℕ, ◌+◌, ◌-◌, ◌^◌, min, ◌≡◌, refl, sym, ap, ◌∙◌, inl, inr, Bool, true, false, not, ◌&&◌, ◌||◌,
  Option, none, some, List, [], ◌∷◌, ◌++◌, ◌==◌, ==_iff, all, All, Bool-cases,
}
use privasys_enclave_os_mini.Common.Tests.{and-true, or-true, true≢false}
use privasys_enclave_os_mini.Vault.Types.{
  String, AttestationProfile, OidRequirement, Principal, oidc, fido2, tee,
}
use privasys_enclave_os_mini.Vault.Texts.{str_eq, is_empty}
use privasys_enclave_os_mini.Vault.Texts.Equality.{str_eq-true, true-str_eq}
use privasys_enclave_os_mini.Vault.Update.{tee_oids, requires_oid, key_required_oids}
use privasys_enclave_os_mini.Vault.Update.Kept.{among, every_tee_requires, key_required_oids_lem}
use privasys_enclave_os_mini.Vault.Records.{PendingProfile, KeyRecord}
use privasys_enclave_os_mini.Vault.Handlers.{find_id, remove_id, missing_oid}

pub missing_oid-none :
    (required : List OidRequirement) (oids : List String)
    → missing_oid required oids ≡ none
    → all (requires_oid required) oids ≡ true
unfolding missing_oid
missing_oid-none required [] e = refl
missing_oid-none required (oid ∷ oids) e = elim (Bool-cases (requires_oid required oid)) [
  | inl here ↦ rw here (missing_oid-none required oids (rw here at e))
  | inr gone ↦ absurd (cc (rw gone at e))
]

all-among :
    (p : String → Bool) (oid : String) (oids : List String)
    → all p oids ≡ true
    → among oid oids ≡ true
    → p oid ≡ true
all-among p oid [] h m = absurd (cc m)
all-among p oid (o ∷ os) h m =
    let (now, later) = and-true (p o) (all p os) h in
    elim (or-true (str_eq o oid) (among oid os) m) [
      | inl same ↦ ap p (sym (str_eq-true o oid same)) ∙ now
      | inr rest ↦ all-among p oid os later rest
    ]

-- A test that holds of each text among the texts.
among-all :
    (p : String → Bool) (oids : List String)
    → ((oid : String) → among oid oids ≡ true → p oid ≡ true)
    → all p oids ≡ true
among-all p [] k = refl
among-all p (o ∷ os) k =
    let now : p o ≡ true = k o (ap (λ b. b || among o os) (true-str_eq o o refl)) in
    rw now (among-all p os λ oid m. k oid (or_right (str_eq o oid) m))
  where
    or_right : (a : Bool) {b : Bool} → b ≡ true → (a || b) ≡ true
    or_right true e = refl
    or_right false e = e

tee_oids-append :
    (ps : List Principal) (profile : AttestationProfile)
    → tee_oids (ps ++ tee profile ∷ []) ≡ tee_oids ps ++ profile.required_oids ∷ []
tee_oids-append [] profile = refl
tee_oids-append (tee t ∷ ps) profile = ap (λ l. t.required_oids ∷ l) (tee_oids-append ps profile)
tee_oids-append (oidc _ _ _ ∷ ps) profile = tee_oids-append ps profile
tee_oids-append (fido2 _ _ ∷ ps) profile = tee_oids-append ps profile

every-append :
    (p : List OidRequirement → Bool) (reqs : List (List OidRequirement)) (one : List OidRequirement)
    → (not (is_empty reqs) && all p reqs) ≡ true
    → p one ≡ true
    → (not (is_empty (reqs ++ one ∷ [])) && all p (reqs ++ one ∷ [])) ≡ true
every-append p [] one h here = absurd (cc h)
every-append p (r ∷ rs) one h here =
    let (now, later) = and-true (p r) (all p rs) h in rw now (ends rs later)
  where
    ends : (xs : List (List OidRequirement)) → all p xs ≡ true → all p (xs ++ one ∷ []) ≡ true
    ends [] e = rw here refl
    ends (x ∷ xs) e = let (a, b) = and-true (p x) (all p xs) e in rw a (ends xs b)

-- The record that a promotion stores, of a key whose pending profiles stand before and behind the
-- promoted one.
abbrev pub promoted_record :
    KeyRecord → PendingProfile → (pre post : List PendingProfile) → KeyRecord
promoted_record key p pre post =
    let policy = key.policy in
    let principals = policy.principals in
    record key {
      policy = record policy {
        principals = record principals { tees = principals.tees ++ tee p.profile ∷ [] };
      };
      policy_version = min (key.policy_version + 1) (2 ^ 32 - 1);
      pending_profiles = pre ++ post;
      audit_next_seq = min (key.audit_next_seq + 1) (2 ^ 64 - 1);
    }

-- An OID that the key required is still required once the profile has joined.
pub promoted_record-keeps :
    (key : KeyRecord) (p : PendingProfile) (pre post : List PendingProfile) (oid : String)
    → all (requires_oid p.profile.required_oids) (key_required_oids key.policy) ≡ true
    → every_tee_requires key.policy oid ≡ true
    → every_tee_requires (promoted_record key p pre post).policy oid ≡ true
promoted_record-keeps key p pre post oid complete before =
    let reqs = tee_oids key.policy.principals.tees in
    let here : requires_oid p.profile.required_oids oid ≡ true =
      all-among (requires_oid p.profile.required_oids) oid (key_required_oids key.policy) complete
        (key_required_oids_lem key.policy oid ∙ before) in
    ap (λ l. not (is_empty l) && all (λ r. requires_oid r oid) l)
      (tee_oids-append key.policy.principals.tees p.profile)
    ∙ every-append (λ r. requires_oid r oid) reqs p.profile.required_oids before here

pub implied : (a b : Bool) → (a ≡ true → b ≡ true) → (not a || b) ≡ true
implied true b f = f refl
implied false b f = refl

-- The found entry is the first one with the id, and the one that the removal takes out.
pub find_id-split :
    (id : ℕ) (ps : List PendingProfile) (p : PendingProfile)
    → find_id id ps ≡ some p
    → (pre : List PendingProfile) × (post : List PendingProfile) × (ps ≡ pre ++ p ∷ post)
      × (p.id ≡ id)
      × All (λ (x : PendingProfile). ¬ (x.id ≡ id)) pre
      × (remove_id id ps ≡ pre ++ post)
unfolding find_id remove_id
find_id-split id [] p e = absurd (cc e)
find_id-split id (x ∷ ps) p e = elim (Bool-cases (x.id == id)) [
  | inl here ↦
      let same : x ≡ p = some_inj (rw here at e) in
      (
        [],
        ps,
        ap (λ y. y ∷ ps) same,
        ap (λ y. y.id) (sym same) ∙ (==_iff x.id id).0 here,
        tt,
        rw here,
      )
  | inr gone ↦
      let (pre, post, split, named, others, removed) = find_id-split id ps p (rw gone at e) in
      (
        x ∷ pre,
        post,
        ap (λ l. x ∷ l) split,
        named,
        ((λ q. true≢false (sym ((==_iff x.id id).1 q) ∙ gone)), others),
        rw gone (ap (λ l. x ∷ l) removed),
      )
]
  where
    some_inj : {a b : PendingProfile} → ◌≡◌ {A = Option PendingProfile} (some a) (some b) → a ≡ b
    some_inj q = cc q
