-- ===== src/Vault/Caller.antt =====
-- Who a caller is: `resolve_caller` of crates/enclave-os-vault/src/policy.rs and what it calls.
pub mod Matches
mod Examples
use privasys_enclave_os_mini.Common.{
  ℕ, suc, ◌%◌, ◌^◌, Bool, true, false, not, ◌&&◌, ◌||◌, Option, none, some, List, [], ◌∷◌, map, any,
  all, if◌then◌else◌,
}
use privasys_enclave_os_mini.Common.Bytes.{Bytes}
use privasys_enclave_os_mini.Vault.Types.{
  String, Measurement, mrenclave, tdx, OidRequirement, AttestationProfile, Principal, oidc, fido2,
  tee, PrincipalRef, owner_ref, manager_ref, auditor_ref, tee_ref, PrincipalSet, KeyPolicy,
  CallerRole, owner_role, manager_role, auditor_role, tee_role, OidcClaims, RequestContext, TeeType,
  sgx_tee, tdx_tee, QuoteIdentity,
}
use privasys_enclave_os_mini.Vault.Texts.{str_eq, eq_ignore_ascii_case, is_empty}
use privasys_enclave_os_mini.Vault.Platform.{Platform, PeerCert}

unfoldable pub has_required_roles : OidcClaims → List String → Bool
has_required_roles claims required_roles =
    if is_empty required_roles
    then true
    else all (λ r. any (λ c. eq_ignore_ascii_case c r) claims.roles) required_roles

unfoldable pub oidc_matches : Principal → OidcClaims → Bool
oidc_matches (oidc issuer sub required_roles) claims =
    if is_empty sub
    then not (is_empty required_roles) && has_required_roles claims required_roles
    else str_eq sub claims.sub && has_required_roles claims required_roles
oidc_matches (fido2 rp_id credential_id_b64) claims = false
oidc_matches (tee profile) claims = false

-- `tcb_status_acceptable` of crates/enclave-os-egress/src/attestation.rs, with its three texts
abbrev pub revoked : String
revoked = 82 ∷ 101 ∷ 118 ∷ 111 ∷ 107 ∷ 101 ∷ 100 ∷ []

abbrev pub up_to_date : String
up_to_date = 85 ∷ 112 ∷ 84 ∷ 111 ∷ 68 ∷ 97 ∷ 116 ∷ 101 ∷ []

abbrev pub sw_hardening_needed : String
sw_hardening_needed =
    83 ∷ 87 ∷ 72 ∷ 97 ∷ 114 ∷ 100 ∷ 101 ∷ 110 ∷ 105 ∷ 110 ∷ 103 ∷ 78 ∷ 101 ∷ 101 ∷ 100 ∷ 101 ∷ 100
    ∷ []

unfoldable pub tcb_status_acceptable : String → List String → Bool
tcb_status_acceptable status acceptable =
    if is_empty status || str_eq status revoked
    then false
    else str_eq status up_to_date
      || (str_eq status sw_hardening_needed
          || any (λ candidate. str_eq candidate status) acceptable)

module _ (platform : Platform) where
  -- A register of the quote against the policy's, in lower case; a missing one matches nothing.
  abbrev pub register_eq : String → Option String → Bool
  register_eq wanted none = false
  register_eq wanted (some v) = str_eq (platform.to_lowercase wanted) (platform.to_lowercase v)

  abbrev pub measurement_eq : QuoteIdentity → TeeType → Measurement → Bool
  measurement_eq identity sgx_tee (mrenclave s) =
      str_eq (platform.to_lowercase s) (platform.to_lowercase identity.measurement)
  measurement_eq identity tdx_tee (tdx mrtd rtmr1 rtmr2) =
      str_eq (platform.to_lowercase mrtd) (platform.to_lowercase identity.measurement)
      && (register_eq rtmr1 identity.rtmr1 && register_eq rtmr2 identity.rtmr2)
  measurement_eq identity _ _ = false

  unfoldable pub measurement_matches : QuoteIdentity → List Measurement → Bool
  measurement_matches identity allowed = any (measurement_eq identity identity.tee_type) allowed

  abbrev pub oids_present : PeerCert → List OidRequirement → Bool
  oids_present cert required =
      all (λ req. any (λ claim. str_eq claim.0 req.oid && str_eq claim.1 req.value) cert.oid_claims)
        required

  abbrev pub quote_matches :
      AttestationProfile → PeerCert → Option (List String) → Option QuoteIdentity → Bool
  quote_matches profile cert none parsed = false
  quote_matches profile cert (some statuses) parsed =
      if not (all (λ s. tcb_status_acceptable s profile.acceptable_tcb_statuses) statuses)
      then false
      else elim parsed [
        | none ↦ false
        | some identity ↦
            if not (measurement_matches identity profile.measurements)
            then false
            else oids_present cert profile.required_oids
      ]

  abbrev pub cert_matches : AttestationProfile → Option PeerCert → Bool
  cert_matches profile none = false
  cert_matches profile (some cert) =
      let urls = map (λ s. s.url) profile.attestation_servers in
      if is_empty urls
      then false
      else quote_matches profile cert (platform.verify_quote_statuses cert.evidence urls)
          (platform.parse_quote cert.evidence)

  unfoldable pub tee_matches : AttestationProfile → Bytes → Option Bytes → Bool
  tee_matches profile peer_der none = false
  tee_matches profile peer_der (some quote) =
      cert_matches profile (platform.dissect_peer_cert peer_der quote)

  abbrev pub tee_principal_matches : RequestContext → Bytes → Principal → Bool
  tee_principal_matches ctx peer_der (tee profile) = tee_matches profile peer_der ctx.peer_evidence
  tee_principal_matches ctx peer_der _ = false

-- The place of the first element that passes, counted from `i`.
abbrev pub position {ℓ} : {A : Type ℓ} → (A → Bool) → ℕ → List A → Option ℕ
position p i [] = none
position p i (x ∷ xs) = if p x then some i else position p (suc i) xs

abbrev pub or_else {ℓ} : {A : Type ℓ} → Option A → Option A → Option A
or_else none o = o
or_else (some a) o = some a

-- A place as the reference and the role it stands for.
abbrev pub as_caller :
    (ℕ → PrincipalRef) → CallerRole → Option ℕ → Option (PrincipalRef × CallerRole)
as_caller ref role none = none
as_caller ref role (some i) = some (ref i, role)

unfoldable pub resolve_oidc : PrincipalSet → Option OidcClaims → Option (PrincipalRef × CallerRole)
resolve_oidc principals none = none
resolve_oidc principals (some claims) =
    if oidc_matches principals.owner claims
    then some (owner_ref, owner_role)
    else or_else
        (as_caller (λ i. manager_ref (i % 2 ^ 32)) manager_role
          (position (λ p. oidc_matches p claims) 0 principals.managers))
        (as_caller (λ i. auditor_ref (i % 2 ^ 32)) auditor_role
          (position (λ p. oidc_matches p claims) 0 principals.auditors))

unfoldable pub resolve_tee :
    Platform → PrincipalSet → RequestContext → Option Bytes → Option (PrincipalRef × CallerRole)
resolve_tee platform principals ctx none = none
resolve_tee platform principals ctx (some peer_der) =
    as_caller (λ i. tee_ref (i % 2 ^ 32)) tee_role
      (position (tee_principal_matches platform ctx peer_der) 0 principals.tees)

unfoldable pub resolve_caller :
    Platform → KeyPolicy → RequestContext → Option (PrincipalRef × CallerRole)
resolve_caller platform policy ctx =
    or_else (resolve_oidc policy.principals ctx.oidc_claims)
      (resolve_tee platform policy.principals ctx ctx.peer_cert_der)
