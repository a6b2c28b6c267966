-- ===== src/Roles/Examples.antt =====
-- The theorems on crates/enclave-os-app-auth/src/roles.rs at a concrete store: a list of entries, the
-- last write first, and a codec that writes each text behind its length.
use privasys_enclave_os_mini.Common.{
  ℕ, zero, suc, ◌≤◌, ◌≡◌, ◌≢◌, refl, sym, ap, ◌∙◌, true, false, Option, none, some, List, [], ◌∷◌,
  ◌++◌, if◌then◌else◌, length, take, drop, take-append_left, drop-append_left, length-append, arith,
}
use privasys_enclave_os_mini.Common.Bytes.{Bytes}
use privasys_enclave_os_mini.Common.Results.{ok}
use privasys_enclave_os_mini.Vault.Types.{String, String-discrete}
use privasys_enclave_os_mini.Vault.Texts.{holds, contains}
use privasys_enclave_os_mini.Vault.Texts.Equality.{true-holds, false-holds}
use privasys_enclave_os_mini.Roles.{
  SealedKv, IsSealedKv, manifest_key, manifest_name, user_key, write_list, read_list, ensure_known,
  save_manifest, admin_roles, get_user_roles, set_user_roles, load_manifest,
  get_user_roles_with_bootstrap, is_first_user,
}
use privasys_enclave_os_mini.Roles.Bootstrap.{set_user_roles_lem, bootstrap-once}
use native.Mathlib.Decide.{ℕ_discrete}
use mathlib.Core.Path.{ap₂}

abbrev Entries : Type 0
Entries = List (Bytes × Bytes)

abbrev find : Entries → Bytes → Option Bytes
find [] key = none
find ((k, value) ∷ s) key = if holds (String-discrete k key) then some value else find s key

abbrev encode : List String → Bytes
encode [] = []
encode (x ∷ xs) = length x ∷ (x ++ encode xs)

abbrev decode : ℕ → Bytes → List String
decode zero bytes = []
decode (suc n) [] = []
decode (suc n) (l ∷ rest) = take l rest ∷ decode n (drop l rest)

decode-encode : (n : ℕ) (xs : List String) → length (encode xs) ≤ n → decode n (encode xs) ≡ xs
decode-encode zero [] h = refl
decode-encode (suc n) [] h = refl
decode-encode zero (x ∷ xs) h = absurd (omega arith)
decode-encode (suc n) (x ∷ xs) h =
    ap₂ (λ a b. a ∷ b) (take-append_left x (encode xs))
      (ap (decode n) (drop-append_left x (encode xs))
        ∙ decode-encode n xs (omega (arith, length-append x (encode xs))))

abbrev kv : SealedKv Entries
kv = record {
  get = λ s key. ok (find s key);
  put = λ s key value. (ok tt, (key, value) ∷ s);
  to_vec = λ roles. ok (encode roles);
  from_slice = λ bytes. ok (decode (length bytes) bytes);
}

laws : IsSealedKv kv
laws = record {
  get-put = λ s s' key value e.
      ap (λ t. ok (find t key)) (sym (ap (λ p. p.1) e))
      ∙ ap (λ b. ok (if b then some value else find s key))
          (true-holds (String-discrete key key) refl);
  get-put_other = λ s s' key value other ne e.
      ap (λ t. ok (find t other)) (sym (ap (λ p. p.1) e))
      ∙ ap (λ b. ok (if b then some value else find s other))
          (false-holds (String-discrete key other) (λ same. ne (sym same)));
  from_slice-to_vec = λ roles bytes e.
      ap (λ b. ok (decode (length b) b)) (sym (cc e))
      ∙ ap ok (decode-encode (length (encode roles)) roles (omega arith));
}

abbrev ada : String
ada = 97 ∷ []

abbrev bob : String
bob = 98 ∷ []

abbrev stored : Entries
stored = (manifest_key, encode (ada ∷ [])) ∷ (user_key ada, encode admin_roles) ∷ []

ada≢manifest : ada ≢ manifest_name
ada≢manifest e = cc e

wrote : set_user_roles kv ada admin_roles [] ≡ (ok tt, stored)
unfolding set_user_roles write_list ensure_known load_manifest save_manifest read_list
    String-discrete ℕ_discrete
wrote = refl

booted : get_user_roles_with_bootstrap kv ada [] ≡ (ok admin_roles, stored)
unfolding get_user_roles_with_bootstrap set_user_roles write_list ensure_known load_manifest
    save_manifest read_list String-discrete ℕ_discrete
booted = refl

set_user_roles_lem_example :
    (get_user_roles kv ada stored ≡ ok admin_roles)
    × ((m : List String) × (load_manifest kv stored ≡ ok m)
        × (contains String-discrete ada m ≡ true))
    × ((other : String)
        → other ≢ ada
        → other ≢ manifest_name
        → get_user_roles kv other stored ≡ get_user_roles kv other [])
set_user_roles_lem_example = set_user_roles_lem kv laws ada admin_roles [] stored ada≢manifest wrote

bootstrap-once_example :
    (get_user_roles_with_bootstrap kv ada stored ≡ (ok admin_roles, stored))
    × (is_first_user kv stored ≡ ok false)
bootstrap-once_example = bootstrap-once kv laws ada admin_roles [] stored ada≢manifest booted

-- A user whose handle is the manifest's name gets the admin role, and the list of that user's roles
-- is written over the manifest.
overwritten :
    (set_user_roles kv manifest_name admin_roles stored).1
    ≡ (manifest_key, encode (admin_roles ++ manifest_name ∷ []))
      ∷ (manifest_key, encode admin_roles)
      ∷ stored
unfolding set_user_roles write_list ensure_known load_manifest save_manifest read_list
    String-discrete ℕ_discrete
overwritten = refl
