-- ===== src/Vault/Service/Exported.antt =====
-- What an export of crates/enclave-os-vault/src/lib.rs rests on.
use privasys_enclave_os_mini.Common.{
  ℕ, ◌≤◌, ◌≡◌, refl, Bool, true, false, not, some, List, [], ltb-false→le,
}
use privasys_enclave_os_mini.Common.Tests.{not-false}
use privasys_enclave_os_mini.Common.Bytes.{Bytes}
use privasys_enclave_os_mini.Common.Results.{Result, ok, err, refuse_if}
use privasys_enclave_os_mini.Vault.Types.{
  String, RequestContext, ApprovalToken, OpBinding, export_key,
}
use privasys_enclave_os_mini.Vault.Platform.{Platform}
use privasys_enclave_os_mini.Vault.Access.{evaluate_op}
use privasys_enclave_os_mini.Vault.Approval.{PolicyError}
use privasys_enclave_os_mini.Vault.Records.{
  AuditOp, KeyRecord, VaultError, key_material, key_expired, not_exportable, for_operation,
}
use privasys_enclave_os_mini.Vault.Keys.{
  VaultKv, Handle, after, now_secs, expired, load_record, deny, or_deny,
}
use privasys_enclave_os_mini.Vault.Handlers.{as_policy, permitted}
use privasys_enclave_os_mini.Vault.Service.{handle_export}

pub after-ok :
    {Store A B : Type 0} (r : Result VaultError A × Store) (f : A → Handle Store B) (b : B)
    → (after r f).0 ≡ ok b
    → (a : A) × (r.0 ≡ ok a) × ((f a r.1).0 ≡ ok b)
after-ok (ok a, s) f b e = (a, refl, e)
after-ok (err x, s) f b e = absurd (cc e)

refuse_if-ok : (b : Bool) (e : VaultError) → refuse_if b e ≡ ok tt → b ≡ false
refuse_if-ok true e h = absurd (cc h)
refuse_if-ok false e h = refl

pub as_policy-ok : {A : Type 0} (r : Result PolicyError A) (a : A) → as_policy r ≡ ok a → r ≡ ok a
as_policy-ok (ok x) a e = cc e
as_policy-ok (err x) a e = absurd (cc e)

module _ {Store : Type 0} (platform : Platform) (sha256_hex : Bytes → String)
    (kv : VaultKv Store) where
  pub or_deny-ok :
      {A : Type 0} (key : KeyRecord) (op : AuditOp) (ctx : RequestContext) (r : Result VaultError A)
      (s : Store) (a : A)
      → (or_deny platform kv key op ctx r s).0 ≡ ok a
      → r ≡ ok a
  unfolding or_deny deny
  or_deny-ok key op ctx (ok x) s a e = cc e
  or_deny-ok key op ctx (err x) s a e = absurd (cc e)

  -- An export answers key material only from the stored record of the handle, not expired and
  -- exportable, and only where the record's policy allows the caller the export under an operation
  -- binding to the record's policy version.
  pub handle_export-authorised :
      (handle : String) (approvals : List ApprovalToken) (ctx : RequestContext) (s : Store)
      (material : Bytes) (expires_at : ℕ)
      → (handle_export platform sha256_hex kv handle approvals ctx s).0
        ≡ ok (key_material material expires_at)
      → (key : KeyRecord) × (load_record platform kv handle s ≡ ok key)
        × (key.material ≡ material)
        × (now_secs platform ≤ key.expires_at)
        × (key.exportable ≡ true)
        × (evaluate_op platform (record {
          policy = key.policy;
          op = export_key;
          handle = handle;
          approvals = approvals;
          ctx = ctx;
          op_binding =
              some (record { measurement_digest_hex = []; policy_version = key.policy_version });
        })
            ≡ ok tt)
  unfolding handle_export expired
  handle_export-authorised handle approvals ctx s material expires_at e =
      let (key, loaded, e1) = after-ok (load_record platform kv handle s, s) _ _ e in
      let (u1, fresh, e2) = after-ok (refuse_if (expired platform key) key_expired, s) _ _ e1 in
      let (u2, exportable, e3) =
        after-ok (refuse_if (not key.exportable) not_exportable, s) _ _ e2 in
      let op_binding : OpBinding = record {
        measurement_digest_hex = [];
        policy_version = key.policy_version;
      } in
      let granted = permitted platform key export_key handle approvals ctx (some op_binding) in
      let (u3, allowed_, e4) =
        after-ok (or_deny platform kv key (for_operation export_key) ctx granted s) _ _ e3 in
      (
        key,
        loaded,
        cc e4,
        ltb-false→le _ _ (refuse_if-ok _ key_expired fresh),
        not-false _ (refuse_if-ok _ not_exportable exportable),
        as_policy-ok _ tt (or_deny-ok key (for_operation export_key) ctx granted s tt allowed_),
      )
