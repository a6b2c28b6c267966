-- ===== src/Vault/Caller/Examples.antt =====
-- The theorems on principals at a concrete token, certificate and platform.
use privasys_enclave_os_mini.Common.{◌≡◌, refl, ◌⊎◌, true, false, none, some, List, [], ◌∷◌, map}
use privasys_enclave_os_mini.Common.Bytes.{Bytes}
use privasys_enclave_os_mini.Vault.Types.{
  String, String-discrete, AttestationProfile, Principal, oidc, OidcClaims, QuoteIdentity,
  mrenclave, sgx_tee,
}
use privasys_enclave_os_mini.Vault.Texts.{str_eq, eq_ignore_ascii_case, is_empty}
use privasys_enclave_os_mini.Vault.Platform.{Platform, PeerCert}
use privasys_enclave_os_mini.Vault.Caller.{
  has_required_roles, oidc_matches, tee_matches, measurement_matches, tcb_status_acceptable,
  up_to_date,
}
use privasys_enclave_os_mini.Vault.Caller.Matches.{
  HasRoles, Accepted, Measured, Carries, oidc_matches_lem, tee_matches_lem,
}
use native.Mathlib.Decide.{ℕ_discrete}

-- The role "Ap" of a token against the role "aP" of a policy.
abbrev claims : OidcClaims
claims = record {
  sub = 66 ∷ [];
  roles = (65 ∷ 112 ∷ []) ∷ [];
  amr = [];
  iat = 1;
  exp = 100;
  is_manager = false;
  vault_op = none;
  nonce = none;
}

abbrev approvers : Principal
approvers = oidc [] [] ((97 ∷ 80 ∷ []) ∷ [])

matched : oidc_matches approvers claims ≡ true
unfolding oidc_matches has_required_roles eq_ignore_ascii_case str_eq String-discrete ℕ_discrete
matched = refl

oidc_matches_lem_example :
    (issuer : String) × (sub : String) × (roles : List String) × (approvers ≡ oidc issuer sub roles)
    × HasRoles claims roles
    × ((sub ≡ claims.sub) ⊎ ((sub ≡ []) × ¬ (roles ≡ [])))
oidc_matches_lem_example = oidc_matches_lem approvers claims matched

abbrev cert : PeerCert
cert = record { evidence = 5 ∷ []; oid_claims = (3 ∷ [], 1 ∷ []) ∷ [] }

abbrev identity : QuoteIdentity
identity = record { tee_type = sgx_tee; measurement = 9 ∷ []; rtmr1 = none; rtmr2 = none }

abbrev profile : AttestationProfile
profile = record {
  name = [];
  measurements = mrenclave (9 ∷ []) ∷ [];
  attestation_servers = record { url = 8 ∷ []; pinned_spki_sha256_hex = none } ∷ [];
  required_oids = record { oid = 3 ∷ []; value = 1 ∷ [] } ∷ [];
  acceptable_tcb_statuses = [];
}

-- A platform that knows one certificate and finds every quote up to date.
abbrev platform : Platform
platform = record {
  dissect_peer_cert = λ der quote. some cert;
  verify_quote_statuses = λ quote urls. some (up_to_date ∷ []);
  parse_quote = λ quote. some identity;
  to_lowercase = λ s. s;
  verify_and_decode = λ jwt. none;
  vault_op_binding = λ handle digest version nonce exp. [];
  get_current_time = none;
}

attested : tee_matches platform profile (1 ∷ []) (some (2 ∷ [])) ≡ true
unfolding tee_matches tcb_status_acceptable measurement_matches str_eq String-discrete ℕ_discrete
attested = refl

tee_matches_lem_example :
    (quote : Bytes) × (c : PeerCert) × (statuses : List String) × (q : QuoteIdentity) × (some
        (2 ∷ [])
      ≡ some quote)
    × (platform.dissect_peer_cert (1 ∷ []) quote ≡ some c)
    × (is_empty profile.attestation_servers ≡ false)
    × (platform.verify_quote_statuses c.evidence (map (λ s. s.url) profile.attestation_servers)
        ≡ some statuses)
    × (platform.parse_quote c.evidence ≡ some q)
    × Accepted profile statuses
    × Measured platform q profile.measurements
    × Carries c profile.required_oids
tee_matches_lem_example = tee_matches_lem platform profile (1 ∷ []) (some (2 ∷ [])) attested
