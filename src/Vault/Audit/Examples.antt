-- ===== src/Vault/Audit/Examples.antt =====
-- The reading of the audit log of crates/enclave-os-vault/src/audit.rs at a concrete log.
use privasys_enclave_os_mini.Common.{◌≡◌, refl, none, some, [], ◌∷◌, ◌++◌, ◌+◌}
use privasys_enclave_os_mini.Common.Results.{ok}
use privasys_enclave_os_mini.Vault.Types.{String}
use privasys_enclave_os_mini.Vault.Records.{
  AuditEntry, anonymous, allowed, no_reason, stage_pending,
}
use privasys_enclave_os_mini.Vault.Keys.{VaultKv}
use privasys_enclave_os_mini.Vault.Audit.{round, push_found, read_loop, read}
use privasys_enclave_os_mini.Vault.Audit.Pages.{read-pages}

abbrev handle : String
handle = 104 ∷ []

abbrev entry : AuditEntry
entry = record {
  seq = 0;
  ts = 20;
  op = stage_pending;
  caller = anonymous;
  decision = allowed;
  reason = no_reason;
}

-- A store with the same entry under every number.
abbrev log : VaultKv (Unit {0})
log = record {
  get = λ s key. ok (some []);
  put = λ s key value. (ok tt, s);
  delete = λ s key. (ok tt, s);
  record_to_vec = λ key. none;
  record_from_slice = λ bytes. none;
  entry_to_vec = λ e. some [];
  entry_from_slice = λ bytes. some entry;
  handles_to_vec = λ handles. none;
  handles_from_slice = λ bytes. none;
}

first_page : read log tt handle 5 1 2 ≡ ok (entry ∷ entry ∷ [], 3)
unfolding read read_loop round push_found
first_page = refl

second_page : read log tt handle 5 3 9 ≡ ok (entry ∷ entry ∷ [], 5)
unfolding read read_loop round push_found
second_page = refl

read-pages_example :
    read log tt handle 5 1 (2 + 9) ≡ ok ((entry ∷ entry ∷ []) ++ entry ∷ entry ∷ [], 5)
read-pages_example =
    read-pages log tt handle 5 1 2 9 (entry ∷ entry ∷ []) (entry ∷ entry ∷ []) 3 5 first_page
      second_page
