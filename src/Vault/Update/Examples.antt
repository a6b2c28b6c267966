-- ===== src/Vault/Update/Examples.antt =====
-- The theorem on the runtime-only delta at two concrete profiles.
use privasys_enclave_os_mini.Common.{◌≡◌, refl, true, none, [], ◌∷◌}
use privasys_enclave_os_mini.Vault.Types.{
  String, String-discrete, AttestationProfile, AttestationServer, AttestationServer-discrete,
  OidRequirement, OidRequirement-discrete, Measurement-discrete, mrenclave,
}
use privasys_enclave_os_mini.Vault.Texts.{contains}
use privasys_enclave_os_mini.Vault.Update.{runtime_only_delta}
use privasys_enclave_os_mini.Vault.Update.Delta.{OneFamily, runtime_only_delta_lem}
use native.Mathlib.Decide.{ℕ_discrete}

abbrev active : AttestationProfile
active = record {
  name = [];
  measurements = mrenclave (9 ∷ []) ∷ [];
  attestation_servers = record { url = 8 ∷ []; pinned_spki_sha256_hex = none } ∷ [];
  required_oids =
      record { oid = 3 ∷ []; value = 1 ∷ [] } ∷ record { oid = 4 ∷ []; value = 1 ∷ [] } ∷ [];
  acceptable_tcb_statuses = [];
}

abbrev staged : AttestationProfile
staged = record active {
  measurements = mrenclave (7 ∷ []) ∷ [];
  required_oids =
      record { oid = 4 ∷ []; value = 1 ∷ [] } ∷ record { oid = 3 ∷ []; value = 1 ∷ [] } ∷ [];
}

rolled : runtime_only_delta staged active ≡ true
unfolding runtime_only_delta String-discrete AttestationServer-discrete OidRequirement-discrete
    Measurement-discrete ℕ_discrete
rolled = refl

runtime_only_delta_lem_example :
    ((req : OidRequirement)
      → contains OidRequirement-discrete req staged.required_oids
        ≡ contains OidRequirement-discrete req active.required_oids)
    × ((server : AttestationServer)
        → contains AttestationServer-discrete server staged.attestation_servers
          ≡ contains AttestationServer-discrete server active.attestation_servers)
    × ((status : String)
        → contains String-discrete status staged.acceptable_tcb_statuses
          ≡ contains String-discrete status active.acceptable_tcb_statuses)
    × OneFamily staged.measurements active.measurements
    × ¬ (staged.measurements ≡ active.measurements)
runtime_only_delta_lem_example = runtime_only_delta_lem staged active rolled
