-- ===== src/Roles.antt =====
-- crates/enclave-os-app-auth/src/roles.rs: the roles of an app's users in its sealed store. The
-- store and the JSON codec are parameters; a failed write leaves the store that it returns.
pub mod Bootstrap
mod Examples
use privasys_enclave_os_mini.Common.{
  ℕ, ◌≡◌, ◌≢◌, Bool, Option, none, some, List, [], ◌∷◌, ◌++◌, if◌then◌else◌,
}
use privasys_enclave_os_mini.Common.Bytes.{Bytes}
use privasys_enclave_os_mini.Common.Results.{Result, ok, err}
use privasys_enclave_os_mini.Vault.Types.{String, String-discrete}
use privasys_enclave_os_mini.Vault.Texts.{contains, is_empty}

pub data RolesError : Type 0 where
  store_failed roles_malformed : RolesError

-- `SealedKvStore::get` and `put`, `serde_json::to_vec` and `from_slice` at lists of texts.
pub record SealedKv (Store : Type 0) : Type 0 where
  pub get : Store → Bytes → Result RolesError (Option Bytes)
  pub put : Store → Bytes → Bytes → Result RolesError (Unit {0}) × Store
  pub to_vec : List String → Result RolesError Bytes
  pub from_slice : Bytes → Result RolesError (List String)

-- A successful write is read back under its key and leaves the other keys alone, and what was
-- serialised is read back.
pub record IsSealedKv {Store : Type 0} (kv : SealedKv Store) : Type 0 where
  pub get-put :
      (s s' : Store) (key value : Bytes)
      → kv.put s key value ≡ (ok tt, s')
      → kv.get s' key ≡ ok (some value)
  pub get-put_other :
      (s s' : Store) (key value other : Bytes)
      → other ≢ key
      → kv.put s key value ≡ (ok tt, s')
      → kv.get s' other ≡ kv.get s other
  pub from_slice-to_vec :
      (roles : List String) (bytes : Bytes)
      → kv.to_vec roles ≡ ok bytes
      → kv.from_slice bytes ≡ ok roles

-- "roles:"
abbrev pub roles_prefix : String
roles_prefix = 114 ∷ 111 ∷ 108 ∷ 101 ∷ 115 ∷ 58 ∷ []

-- "__manifest__"
abbrev pub manifest_name : String
manifest_name = 95 ∷ 95 ∷ 109 ∷ 97 ∷ 110 ∷ 105 ∷ 102 ∷ 101 ∷ 115 ∷ 116 ∷ 95 ∷ 95 ∷ []

-- "__default__"
abbrev pub default_name : String
default_name = 95 ∷ 95 ∷ 100 ∷ 101 ∷ 102 ∷ 97 ∷ 117 ∷ 108 ∷ 116 ∷ 95 ∷ 95 ∷ []

abbrev pub manifest_key : Bytes
manifest_key = roles_prefix ++ manifest_name

abbrev pub default_key : Bytes
default_key = roles_prefix ++ default_name

abbrev pub user_key : String → Bytes
user_key user_handle = roles_prefix ++ user_handle

-- "admin"
abbrev pub admin_roles : List String
admin_roles = (97 ∷ 100 ∷ 109 ∷ 105 ∷ 110 ∷ []) ∷ []

-- The rest of a chain, after a step that came out so; a failure keeps the store that it left.
abbrev pub after {ℓ κ} :
    {Store : Type 0} {A : Type ℓ} {B : Type κ}
    → Result RolesError A × Store
    → (A → Store → Result RolesError B × Store)
    → Result RolesError B × Store
after (ok a, s) f = f a s
after (err e, s) f = (err e, s)

infixl 5 ◌>>=◌
abbrev pub ◌>>=◌ {ℓ κ} :
    {Store : Type 0} {A : Type ℓ} {B : Type κ}
    → (Store → Result RolesError A × Store)
    → (A → Store → Result RolesError B × Store)
    → Store
    → Result RolesError B × Store
m >>= f = λ s. after (m s) f

abbrev pub is_none_known : Result RolesError (List String) → Result RolesError Bool
is_none_known (ok manifest) = ok (is_empty manifest)
is_none_known (err e) = err e

module _ {Store : Type 0} (kv : SealedKv Store) where
  abbrev parsed : Result RolesError (Option Bytes) → Result RolesError (List String)
  parsed (ok (some bytes)) = kv.from_slice bytes
  parsed (ok none) = ok []
  parsed (err e) = err e

  unfoldable pub read_list : Bytes → Store → Result RolesError (List String)
  read_list key s = parsed (kv.get s key)

  abbrev pub written :
      Bytes → Store → Result RolesError Bytes → Result RolesError (Unit {0}) × Store
  written key s (ok value) = kv.put s key value
  written key s (err e) = (err e, s)

  unfoldable pub write_list : Bytes → List String → Store → Result RolesError (Unit {0}) × Store
  write_list key list s = written key s (kv.to_vec list)

  unfoldable pub get_user_roles : String → Store → Result RolesError (List String)
  get_user_roles user_handle s = read_list (user_key user_handle) s

  unfoldable pub get_default_roles : Store → Result RolesError (List String)
  get_default_roles s = read_list default_key s

  unfoldable pub set_default_roles : List String → Store → Result RolesError (Unit {0}) × Store
  set_default_roles roles s = write_list default_key roles s

  unfoldable pub load_manifest : Store → Result RolesError (List String)
  load_manifest s = read_list manifest_key s

  unfoldable pub save_manifest : List String → Store → Result RolesError (Unit {0}) × Store
  save_manifest manifest s = write_list manifest_key manifest s

  -- A read as a step.
  abbrev pub reading {ℓ} :
      {A : Type ℓ} → (Store → Result RolesError A) → Store → Result RolesError A × Store
  reading f s = (f s, s)

  abbrev pub return {ℓ} : {A : Type ℓ} → A → Store → Result RolesError A × Store
  return a s = (ok a, s)

  -- "Ensure user is in manifest", the end of `set_user_roles` and of `remove_user_roles`
  unfoldable pub ensure_known : String → Store → Result RolesError (Unit {0}) × Store
  ensure_known user_handle = reading load_manifest >>= λ manifest.
      if contains String-discrete user_handle manifest
      then return tt
      else save_manifest (manifest ++ user_handle ∷ [])

  unfoldable pub set_user_roles :
      String → List String → Store → Result RolesError (Unit {0}) × Store
  set_user_roles user_handle roles =
      write_list (user_key user_handle) roles >>= λ _. ensure_known user_handle

  -- `b"[]"`
  unfoldable pub remove_user_roles : String → Store → Result RolesError (Unit {0}) × Store
  remove_user_roles user_handle =
      (λ s. kv.put s (user_key user_handle) (91 ∷ 93 ∷ [])) >>= λ _. ensure_known user_handle

  unfoldable pub get_user_roles_with_bootstrap :
      String → Store → Result RolesError (List String) × Store
  get_user_roles_with_bootstrap user_handle = reading load_manifest >>= λ manifest.
      if contains String-discrete user_handle manifest
      then reading (get_user_roles user_handle)
      else if is_empty manifest
      then set_user_roles user_handle admin_roles >>= (λ _. return admin_roles)
      else reading get_default_roles >>= λ defaults.
          set_user_roles user_handle defaults >>= (λ _. return defaults)

  unfoldable pub list_users : Store → Result RolesError (List (String × List String))
  list_users s = elim (load_manifest s) [ err e ↦ err e | ok manifest ↦ roles_of manifest s ]
    where
      roles_of : List String → Store → Result RolesError (List (String × List String))
      roles_of [] s = ok []
      roles_of (h ∷ hs) s = elim (get_user_roles h s) [
        | err e ↦ err e
        | ok roles ↦ elim (roles_of hs s) [ err e ↦ err e | ok rest ↦ ok ((h, roles) ∷ rest) ]
      ]

  unfoldable pub is_first_user : Store → Result RolesError Bool
  is_first_user s = is_none_known (load_manifest s)
