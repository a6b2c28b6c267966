-- ===== src/Vault/Caller/Matches.antt =====
-- What a match of a principal proves of the caller (`oidc_matches` and `tee_matches` of
-- crates/enclave-os-vault/src/policy.rs).
use privasys_enclave_os_mini.Common.{
  true, false, not, ◌||◌, Option, none, some, List, [], ◌∷◌, map, ◌≡◌, refl, ◌⊎◌, inl, inr, any,
  all, All, Option-cases, Bool-cases, ℕ, ap, ◌∙◌, ◌&&◌, get_elem?,
}
use privasys_enclave_os_mini.Common.Bytes.{Bytes}
use privasys_enclave_os_mini.Vault.Types.{
  String, AttestationProfile, AttestationServer, Principal, oidc, fido2, tee, OidcClaims,
  QuoteIdentity, Measurement, mrenclave, tdx, OidRequirement, TeeType, sgx_tee, tdx_tee,
}
use mathlib.Core.Path.{ap₂}
use privasys_enclave_os_mini.Vault.Texts.{str_eq, eq_ignore_ascii_case, is_empty}
use privasys_enclave_os_mini.Vault.Texts.Equality.{
  and-true, str_eq-true, str_eq-false, all-All, or-false, or-true, any-found,
}
use privasys_enclave_os_mini.Vault.Platform.{Platform, PeerCert}
use privasys_enclave_os_mini.Vault.Caller.{
  has_required_roles, oidc_matches, tee_matches, quote_matches, oids_present, measurement_matches,
  tcb_status_acceptable, revoked, up_to_date, sw_hardening_needed, register_eq, measurement_eq,
}

-- The claims carry every role, up to the case of its letters.
abbrev pub HasRoles : OidcClaims → List String → Type 0
HasRoles claims roles = All (λ r. any (λ c. eq_ignore_ascii_case c r) claims.roles ≡ true) roles

has_required_roles-HasRoles :
    (claims : OidcClaims) (roles : List String)
    → has_required_roles claims roles ≡ true
    → HasRoles claims roles
unfolding has_required_roles
has_required_roles-HasRoles claims [] h = tt
has_required_roles-HasRoles claims (r ∷ rs) h =
    all-All (λ r. any (λ c. eq_ignore_ascii_case c r) claims.roles) (λ r e. e) (r ∷ rs) h

-- A principal that matches a bearer token is an OIDC principal; the token carries all of its roles
-- and either its very subject, or the principal names no subject but at least one role.
pub oidc_matches_lem :
    (p : Principal) (claims : OidcClaims)
    → oidc_matches p claims ≡ true
    → (issuer : String) × (sub : String) × (roles : List String) × (p ≡ oidc issuer sub roles)
      × HasRoles claims roles
      × ((sub ≡ claims.sub) ⊎ ((sub ≡ []) × ¬ (roles ≡ [])))
unfolding oidc_matches
oidc_matches_lem (oidc issuer [] roles) claims h =
    let (named, has) = and-true _ _ h in
    (
      issuer,
      [],
      roles,
      refl,
      has_required_roles-HasRoles claims roles has,
      inr (refl, nonempty roles named),
    )
  where
    nonempty : (roles : List String) → not (is_empty roles) ≡ true → ¬ (roles ≡ [])
    nonempty [] e q = cc e
    nonempty (r ∷ rs) e q = cc q
oidc_matches_lem (oidc issuer (c ∷ cs) roles) claims h =
    let (same, has) = and-true _ _ h in
    (
      issuer,
      c ∷ cs,
      roles,
      refl,
      has_required_roles-HasRoles claims roles has,
      inl (str_eq-true (c ∷ cs) claims.sub same),
    )
oidc_matches_lem (fido2 _ _) claims h = absurd (cc h)
oidc_matches_lem (tee _) claims h = absurd (cc h)

-- A status that is neither missing nor revoked, and is the current one, the one that needs a change of
-- software only, or one of those that the profile accepts.
abbrev pub AcceptedStatus : List String → String → Type 0
AcceptedStatus acceptable s =
    ¬ (s ≡ [])
    × ¬ (s ≡ revoked)
    × ((s ≡ up_to_date)
        ⊎ ((s ≡ sw_hardening_needed) ⊎ ((i : ℕ) × (get_elem? acceptable i ≡ some s))))

-- Every verdict names an accepted status.
abbrev pub Accepted : AttestationProfile → List String → Type 0
Accepted profile statuses = All (AcceptedStatus profile.acceptable_tcb_statuses) statuses

tcb_status-named :
    (s : String) (acceptable : List String)
    → tcb_status_acceptable s acceptable ≡ true
    → AcceptedStatus acceptable s
unfolding tcb_status_acceptable
tcb_status-named s acceptable h = elim (Bool-cases (is_empty s || str_eq s revoked)) [
  | inl bad ↦ absurd (cc (rw bad at h))
  | inr fine ↦
      let (named, current) = or-false _ _ fine in
      (is_empty-false s named, str_eq-false s revoked current, one_of (rw fine at h))
]
  where
    one_of :
        (str_eq s up_to_date
            || (str_eq s sw_hardening_needed || any (λ candidate. str_eq candidate s) acceptable))
          ≡ true
        → (s ≡ up_to_date)
          ⊎ ((s ≡ sw_hardening_needed) ⊎ ((i : ℕ) × (get_elem? acceptable i ≡ some s)))
    one_of e = elim (or-true (str_eq s up_to_date) _ e) [
      | inl now ↦ inl (str_eq-true s up_to_date now)
      | inr e2 ↦ elim (or-true (str_eq s sw_hardening_needed) _ e2) [
        | inl soft ↦ inr (inl (str_eq-true s sw_hardening_needed soft))
        | inr listed ↦
            let (i, c, at_i, same) =
              any-found (λ candidate. str_eq candidate s) acceptable listed in
            inr (inr (i, at_i ∙ ap some (str_eq-true c s same)))
      ]
    ]

    is_empty-false : (s : String) → is_empty s ≡ false → ¬ (s ≡ [])
    is_empty-false [] h e = cc h
    is_empty-false (c ∷ s) h e = cc e

-- The certificate carries every required OID with the very value that the profile gives it.
abbrev pub Carries : PeerCert → List OidRequirement → Type 0
Carries cert required =
    All (λ req. (i : ℕ) × (get_elem? cert.oid_claims i ≡ some (req.oid, req.value))) required

oids_present-Carries :
    (platform : Platform) (cert : PeerCert) (required : List OidRequirement)
    → oids_present platform cert required ≡ true
    → Carries cert required
oids_present-Carries platform cert required h =
    all-All
      (λ req. any (λ claim. str_eq claim.0 req.oid && str_eq claim.1 req.value) cert.oid_claims)
      (λ req found.
        let (i, claim, at_i, same) =
          any-found (λ claim. str_eq claim.0 req.oid && str_eq claim.1 req.value) cert.oid_claims
            found in
        let (oid, value) = and-true _ _ same in
        (
          i,
          at_i
              ∙ ap₂ (λ a b. some (a, b)) (str_eq-true claim.0 req.oid oid)
                  (str_eq-true claim.1 req.value value),
        ))
      required h

module _ (platform : Platform) where
  -- A register of the quote is the policy's, up to the case of its letters.
  abbrev pub Register : String → Option String → Type 0
  Register wanted found =
      (v : String) × (found ≡ some v) × (platform.to_lowercase wanted ≡ platform.to_lowercase v)

  -- The quote is of the measurement's kind of TEE and agrees with it in every register.
  abbrev pub Measures : QuoteIdentity → Measurement → Type 0
  Measures identity (mrenclave s) =
      (identity.tee_type ≡ sgx_tee)
      × (platform.to_lowercase s ≡ platform.to_lowercase identity.measurement)
  Measures identity (tdx mrtd rtmr1 rtmr2) =
      (identity.tee_type ≡ tdx_tee)
      × (platform.to_lowercase mrtd ≡ platform.to_lowercase identity.measurement)
      × Register rtmr1 identity.rtmr1
      × Register rtmr2 identity.rtmr2

  register_eq-Register :
      (wanted : String) (found : Option String)
      → register_eq platform wanted found ≡ true
      → Register wanted found
  register_eq-Register wanted none h = absurd (cc h)
  register_eq-Register wanted (some v) h = (v, refl, str_eq-true _ _ h)

  measurement_eq-Measures :
      (identity : QuoteIdentity) (t : TeeType) (m : Measurement)
      → identity.tee_type ≡ t
      → measurement_eq platform identity t m ≡ true
      → Measures identity m
  measurement_eq-Measures identity sgx_tee (mrenclave s) e h = (e, str_eq-true _ _ h)
  measurement_eq-Measures identity tdx_tee (tdx mrtd rtmr1 rtmr2) e h =
      let (base, registers) = and-true _ _ h in
      let (first, second) = and-true _ _ registers in
      (
        e,
        str_eq-true _ _ base,
        register_eq-Register rtmr1 identity.rtmr1 first,
        register_eq-Register rtmr2 identity.rtmr2 second,
      )
  measurement_eq-Measures identity sgx_tee (tdx _ _ _) e h = absurd (cc h)
  measurement_eq-Measures identity tdx_tee (mrenclave _) e h = absurd (cc h)

  -- The quote has one of the measurements.
  abbrev pub Measured : QuoteIdentity → List Measurement → Type 0
  Measured identity ms =
      (i : ℕ) × (m : Measurement) × (get_elem? ms i ≡ some m) × Measures identity m

  measurement_matches-Measured :
      (identity : QuoteIdentity) (ms : List Measurement)
      → measurement_matches platform identity ms ≡ true
      → Measured identity ms
  unfolding measurement_matches
  measurement_matches-Measured identity ms h =
      let (i, m, at_i, same) =
        any-found (measurement_eq platform identity identity.tee_type) ms h in
      (i, m, at_i, measurement_eq-Measures identity identity.tee_type m refl same)

module _ (platform : Platform) (profile : AttestationProfile) where
  quote_matches-parts :
      (cert : PeerCert) (verdicts : Option (List String)) (parsed : Option QuoteIdentity)
      → quote_matches platform profile cert verdicts parsed ≡ true
      → (statuses : List String) × (identity : QuoteIdentity) × (verdicts ≡ some statuses)
        × (parsed ≡ some identity)
        × Accepted profile statuses
        × Measured platform identity profile.measurements
        × Carries cert profile.required_oids
  quote_matches-parts cert none parsed h = absurd (cc h)
  quote_matches-parts cert (some statuses) none h =
      elim (Bool-cases
        (all (λ s. tcb_status_acceptable s profile.acceptable_tcb_statuses) statuses)) [
          | inl a ↦ absurd (cc (rw a at h))
          | inr a ↦ absurd (cc (rw a at h))
        ]
  quote_matches-parts cert (some statuses) (some identity) h =
      elim (Bool-cases
        (all (λ s. tcb_status_acceptable s profile.acceptable_tcb_statuses) statuses)) [
          | inr a ↦ absurd (cc (rw a at h))
          | inl a ↦ elim (Bool-cases (measurement_matches platform identity profile.measurements)) [
            | inr m ↦ absurd (cc (rw (a, m) at h))
            | inl m ↦ (
              statuses,
              identity,
              refl,
              refl,
              all-All (λ s. tcb_status_acceptable s profile.acceptable_tcb_statuses)
                  (λ s e. tcb_status-named s profile.acceptable_tcb_statuses e) statuses a,
              measurement_matches-Measured platform identity profile.measurements m,
              oids_present-Carries platform cert profile.required_oids (rw (a, m) at h),
            )
          ]
        ]

  -- A peer matches an attestation profile only if it presented evidence that goes with its
  -- certificate, the profile names an attestation server, the servers' verdicts on the quote are all
  -- accepted and none of them is missing or revoked, the quote parses to an identity that has one of the
  -- profile's measurements in every register, up to the case of letters, and the certificate carries
  -- every required OID with its value.
  pub tee_matches_lem :
      (peer_der : Bytes) (presented : Option Bytes)
      → tee_matches platform profile peer_der presented ≡ true
      → (quote : Bytes) × (cert : PeerCert) × (statuses : List String) × (identity : QuoteIdentity)
        × (presented ≡ some quote)
        × (platform.dissect_peer_cert peer_der quote ≡ some cert)
        × (is_empty profile.attestation_servers ≡ false)
        × (platform.verify_quote_statuses cert.evidence
              (map (λ s. s.url) profile.attestation_servers)
            ≡ some statuses)
        × (platform.parse_quote cert.evidence ≡ some identity)
        × Accepted profile statuses
        × Measured platform identity profile.measurements
        × Carries cert profile.required_oids
  unfolding tee_matches
  tee_matches_lem peer_der none h = absurd (cc h)
  tee_matches_lem peer_der (some quote) h =
      elim (Option-cases (platform.dissect_peer_cert peer_der quote)) [
        | inl e ↦ absurd (cc (rw e at h))
        | inr (cert, e) ↦
            elim (Bool-cases (is_empty (map (λ s. s.url) profile.attestation_servers))) [
              | inl u ↦ absurd (cc (rw (e, u) at h))
              | inr u ↦
                  let (statuses, identity, v, q, accepted, m, o) =
                    quote_matches-parts cert _ _ (rw (e, u) at h) in
                  (
                    quote,
                    cert,
                    statuses,
                    identity,
                    refl,
                    e,
                    listed profile.attestation_servers u,
                    v,
                    q,
                    accepted,
                    m,
                    o,
                  )
            ]
      ]
    where
      listed :
          (servers : List AttestationServer)
          → is_empty (map (λ s. s.url) servers) ≡ false
          → is_empty servers ≡ false
      listed [] u = u
      listed (s ∷ servers) u = refl
