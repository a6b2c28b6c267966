-- ===== src/Vault/Service/Examples.antt =====
-- The theorems on the handlers of crates/enclave-os-vault/src/lib.rs at a concrete store of one key.
use privasys_enclave_os_mini.Common.{
  ℕ, List, ◌+◌, ◌-◌, ◌^◌, ◌++◌, min, All, not, ◌||◌, ◌≤◌, ◌≡◌, refl, sym, ap, ◌∙◌, ◌⊎◌, inl, inr,
  true, false, Option, none, some, [], ◌∷◌, arith, length,
}
use mathlib.Core.Path.{subst}
use native.Mathlib.Decide.{ℕ_discrete}
use privasys_enclave_os_mini.Common.Bytes.{Bytes}
use privasys_enclave_os_mini.Common.Results.{Result, ok, err}
use privasys_enclave_os_mini.Vault.Types.{
  AttestationProfile-discrete, OperationRule-discrete, Lifecycle-discrete, Mutability-discrete,
  String, String-discrete, Operation-discrete, PrincipalRef-discrete, Principal-discrete, KeyPolicy,
  oidc, tee, owner_ref, AttestationProfile, RequestContext, export_key, promote_profile,
}
use privasys_enclave_os_mini.Vault.Texts.{str_eq}
use privasys_enclave_os_mini.Vault.Platform.{Platform}
use privasys_enclave_os_mini.Vault.Caller.{
  resolve_caller, resolve_oidc, oidc_matches, has_required_roles,
}
use privasys_enclave_os_mini.Vault.Conditions.{evaluate_conditions}
use privasys_enclave_os_mini.Vault.Access.{evaluate_op, first_granting, rule_grants_to, ref_grants}
use privasys_enclave_os_mini.Vault.Update.{key_required_oids}
use privasys_enclave_os_mini.Vault.Update.Kept.{every_tee_requires}
use privasys_enclave_os_mini.Vault.Records.{
  KeyRecord, KeyType-discrete, VaultError, key_not_found, PendingProfile, raw_share, platform_build,
  key_material, pending_profile_promoted,
}
use privasys_enclave_os_mini.Vault.Keys.{
  VaultKv, load_record, read_record, expired, now_secs, record_key, saturating_add, or_deny, append,
  save, audit_and_save,
}
use privasys_enclave_os_mini.Vault.Handlers.{
  profile_binding_digest, find_id, remove_id, missing_oid, add_tee,
}
use privasys_enclave_os_mini.Vault.Service.{
  export_request, promoted, promote_complete, promote_found, handle_export, handle_promote_pending,
  serve,
}
use privasys_enclave_os_mini.Vault.Service.Exported.{handle_export-authorised}
use privasys_enclave_os_mini.Vault.Service.Promoted.{handle_promote-keeps_oids}
use privasys_enclave_os_mini.Vault.Service.Promoted.Record.{promoted_record}
use privasys_enclave_os_mini.Vault.Service.Bounded.{
  IsVaultKv, IsVault, load_record-some, load_record-none, record_key-inj,
}
use privasys_enclave_os_mini.Vault.Service.Sound.{serve-IsVault}

abbrev alice : String
alice = 65 ∷ []

abbrev handle : String
handle = 104 ∷ []

abbrev app_id : String
app_id = 51 ∷ 46 ∷ 54 ∷ []

abbrev profile : AttestationProfile
profile = record {
  name = [];
  measurements = [];
  attestation_servers = [];
  required_oids = record { oid = app_id; value = 1 ∷ [] } ∷ [];
  acceptable_tcb_statuses = [];
}

abbrev next_profile : AttestationProfile
next_profile = record profile { name = 78 ∷ [] }

abbrev policy : KeyPolicy
policy = record {
  version = 1;
  principals = record {
    owner = oidc [] alice [];
    managers = [];
    auditors = [];
    tees = tee profile ∷ [];
  };
  operations =
      record { ops = export_key ∷ promote_profile ∷ []; principals = owner_ref ∷ []; requires = [] }
      ∷ [];
  mutability = record { owner_can = []; manager_can = []; immutable = [] };
  lifecycle = record { ttl_seconds = 60; auto_migrate_to_next_attestation_profile = false };
}

abbrev staged : PendingProfile
staged = record {
  id = 3;
  profile = next_profile;
  source = platform_build;
  staged_at = 10;
  staged_by_sub = alice;
  staged_by_platform = false;
}

abbrev stored : KeyRecord
stored = record {
  handle = handle;
  key_type = raw_share;
  exportable = true;
  material = 7 ∷ 8 ∷ [];
  public_key = none;
  policy = policy;
  policy_version = 1;
  created_at = 10;
  expires_at = 70;
  pending_profiles = staged ∷ [];
  audit_next_seq = 0;
  next_pending_id = 4;
}

-- A platform at time 20.
abbrev platform : Platform
platform = record {
  dissect_peer_cert = λ der quote. none;
  verify_quote_statuses = λ quote urls. none;
  parse_quote = λ quote. none;
  to_lowercase = λ s. s;
  verify_and_decode = λ jwt. none;
  vault_op_binding = λ handle digest version nonce exp. [];
  get_current_time = some 20;
}

abbrev hex : Bytes → String
hex bytes = bytes

abbrev request : RequestContext
request = record {
  oidc_claims = some (record {
    sub = alice;
    roles = [];
    amr = [];
    iat = 1;
    exp = 100;
    is_manager = false;
    vault_op = none;
    nonce = none;
  });
  peer_cert_der = none;
  peer_evidence = none;
}

-- A store that holds the key's record under every name and drops what is written.
abbrev one_key : VaultKv (Unit {0})
one_key = record {
  get = λ s key. ok (some []);
  put = λ s key value. (ok tt, s);
  delete = λ s key. (ok tt, s);
  record_to_vec = λ key. some [];
  record_from_slice = λ bytes. some stored;
  entry_to_vec = λ entry. some [];
  entry_from_slice = λ bytes. none;
  handles_to_vec = λ handles. some [];
  handles_from_slice = λ bytes. none;
}

exported :
    (handle_export platform hex one_key handle [] request tt).0 ≡ ok (key_material (7 ∷ 8 ∷ []) 70)
unfolding handle_export expired now_secs load_record read_record or_deny evaluate_op resolve_caller
    resolve_oidc oidc_matches str_eq String-discrete ℕ_discrete has_required_roles first_granting
    Operation-discrete rule_grants_to ref_grants PrincipalRef-discrete evaluate_conditions
exported = refl

handle_export-authorised_example :
    (key : KeyRecord) × (load_record platform one_key handle tt ≡ ok key)
    × (key.material ≡ 7 ∷ 8 ∷ [])
    × (now_secs platform ≤ key.expires_at)
    × (key.exportable ≡ true)
    × (evaluate_op platform (record {
      policy = key.policy;
      op = export_key;
      handle = handle;
      approvals = [];
      ctx = request;
      op_binding =
          some (record { measurement_digest_hex = []; policy_version = key.policy_version });
    })
        ≡ ok tt)
handle_export-authorised_example =
    handle_export-authorised platform hex one_key handle [] request tt (7 ∷ 8 ∷ []) 70 exported

promotion :
    (handle_promote_pending platform hex one_key handle 3 [] request tt).0
    ≡ ok (pending_profile_promoted 2)
unfolding handle_promote_pending promote_found promote_complete promoted find_id remove_id
    missing_oid add_tee key_required_oids append save audit_and_save saturating_add load_record
    read_record or_deny evaluate_op resolve_caller resolve_oidc oidc_matches str_eq String-discrete
    ℕ_discrete has_required_roles first_granting Operation-discrete rule_grants_to ref_grants
    PrincipalRef-discrete evaluate_conditions
promotion = refl

handle_promote-keeps_oids_example :
    (key : KeyRecord) × (p : PendingProfile) × (pre : List PendingProfile) × (post : List
      PendingProfile)
    × (written : Unit {0}) × (bytes : Bytes) × (load_record platform one_key handle tt ≡ ok key)
    × (key.pending_profiles ≡ pre ++ p ∷ post)
    × (p.id ≡ 3)
    × All (λ (x : PendingProfile). ¬ (x.id ≡ 3)) pre
    × (evaluate_op platform (record {
      policy = key.policy;
      op = promote_profile;
      handle = handle;
      approvals = [];
      ctx = request;
      op_binding = some (record {
        measurement_digest_hex = profile_binding_digest platform hex p.profile;
        policy_version = key.policy_version;
      });
    })
        ≡ ok tt)
    × (2 ≡ min (key.policy_version + 1) (2 ^ 32 - 1))
    × (one_key.record_to_vec (promoted_record key p pre post) ≡ some bytes)
    × ((one_key.put written (record_key key.handle) bytes).0 ≡ ok tt)
    × ((one_key.put written (record_key key.handle) bytes).1
        ≡ (handle_promote_pending platform hex one_key handle 3 [] request tt).1)
    × ((not (every_tee_requires key.policy app_id)
          || every_tee_requires (promoted_record key p pre post).policy app_id)
        ≡ true)
handle_promote-keeps_oids_example =
    handle_promote-keeps_oids platform hex one_key handle 3 [] request tt 2 app_id promotion

-- A store that keeps what is written, and the codec of the records that differ from the key's only in
-- how many audit entries they have.
abbrev pick : {P A : Type 0} → Dec P → A → A → A
pick (yes p) a b = a
pick (no np) a b = b

pick-cases : {P A : Type 0} (d : Dec P) (a b : A) → (pick d a b ≡ b) ⊎ (P × (pick d a b ≡ a))
pick-cases (yes p) a b = inr (p, refl)
pick-cases (no np) a b = inl refl

abbrev audited : ℕ → KeyRecord
audited n = record stored { audit_next_seq = n }

unfoldable KeyRecord-discrete : Discrete KeyRecord
KeyRecord-discrete = hlevel (
  ℕ_discrete, KeyType-discrete, AttestationProfile-discrete, Principal-discrete,
  OperationRule-discrete, Lifecycle-discrete, Mutability-discrete,
)

abbrev decoded : Bytes → Option KeyRecord
decoded [] = none
decoded (n ∷ rest) = some (audited n)

abbrev Records : Type 0
Records = Bytes → Option Bytes

abbrev written : Records → Bytes → Option Bytes → Records
written s key value other = pick (String-discrete other key) value (s other)

abbrev keeping : VaultKv Records
keeping = record {
  get = λ s key. ok (s key);
  put = λ s key value. (ok tt, written s key (some value));
  delete = λ s key. (ok tt, written s key none);
  record_to_vec = λ key.
      pick (KeyRecord-discrete key (audited key.audit_next_seq)) (some (key.audit_next_seq ∷ []))
        none;
  record_from_slice = decoded;
  entry_to_vec = λ entry. some [];
  entry_from_slice = λ bytes. none;
  handles_to_vec = λ handles. some [];
  handles_from_slice = λ bytes. none;
}

keeping-IsVaultKv : IsVaultKv keeping
keeping-IsVaultKv = record {
  get-put = λ s key value other.
      elim (pick-cases (String-discrete other key) (some value) (s other)) [
        | inl kept ↦ inl (ap ok kept)
        | inr (same, now) ↦ inr (same, ap ok now)
      ];
  get-delete = λ s key other. elim (pick-cases (String-discrete other key) none (s other)) [
    | inl kept ↦ inl (ap ok kept)
    | inr (same, now) ↦ inr (ap ok now)
  ];
  from_slice-to_vec = λ key bytes e.
      elim (pick-cases (KeyRecord-discrete key (audited key.audit_next_seq))
        (some (key.audit_next_seq ∷ [])) none) [
          | inl not_coded ↦ absurd (cc (not_coded, e))
          | inr (same, coded) ↦
              let bytes_eq : key.audit_next_seq ∷ [] ≡ bytes = cc (coded, e) in
              ap decoded (sym bytes_eq) ∙ ap some (sym same)
        ];
}

abbrev first : Bytes
first = 0 ∷ []

abbrev with_stored : Records
with_stored = written (λ key. none) (record_key handle) (some first)

ok_inj : {a b : KeyRecord} → ◌≡◌ {A = Result VaultError KeyRecord} (ok a) (ok b) → a ≡ b
ok_inj e = cc e

with_stored-IsVault : IsVault platform keeping with_stored
with_stored-IsVault h key e =
    elim (pick-cases (String-discrete (record_key h) (record_key handle)) (some first) none) [
      | inl missing ↦
          let gone : load_record platform keeping h with_stored ≡ err key_not_found =
            load_record-none platform keeping h with_stored (ap ok missing) in
          let clash : ◌≡◌ {A = Result VaultError KeyRecord} (err key_not_found) (ok key) =
            sym gone ∙ e in
          absurd (cc clash)
      | inr (same, found) ↦
          let key_eq : stored ≡ key = ok_inj (
            sym (load_record-some platform keeping h with_stored first stored (ap ok found) refl)
            ∙ e) in
          let named = record_key-inj platform keeping keeping-IsVaultKv h handle same in
          subst (λ k. (k.handle ≡ h) × (length k.pending_profiles ≤ 16)) key_eq
            (sym named, omega arith)
    ]

serve-IsVault_example :
    IsVault platform keeping
      (serve platform hex keeping (export_request handle []) request with_stored).1
serve-IsVault_example =
    serve-IsVault platform hex keeping keeping-IsVaultKv (export_request handle []) request
      with_stored with_stored-IsVault
