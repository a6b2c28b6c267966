-- ===== src/Roles/Bootstrap.antt =====
-- The bootstrap of crates/enclave-os-app-auth/src/roles.rs makes at most the first user an admin.
use privasys_enclave_os_mini.Common.{
  ◌≡◌, ◌≢◌, refl, sym, ap, ◌∙◌, Bool, true, false, ◌||◌, List, [], ◌∷◌, ◌++◌, inl, inr,
  if◌then◌else◌, Bool-cases,
}
use mathlib.Core.Path.{subst}
use privasys_enclave_os_mini.Common.Bytes.{Bytes}
use privasys_enclave_os_mini.Common.Results.{Result, ok, err, Result-outcome}
use privasys_enclave_os_mini.Vault.Types.{String, String-discrete}
use privasys_enclave_os_mini.Vault.Texts.{holds, contains, is_empty}
use privasys_enclave_os_mini.Vault.Texts.Equality.{true-holds}
use privasys_enclave_os_mini.Roles.{
  after, ◌>>=◌, return, RolesError, SealedKv, IsSealedKv, manifest_name, manifest_key, user_key,
  admin_roles, read_list, write_list, get_user_roles, load_manifest, save_manifest, ensure_known,
  set_user_roles, get_user_roles_with_bootstrap, get_default_roles, is_first_user,
}

contains_self : (h : String) (hs : List String) → contains String-discrete h (hs ++ h ∷ []) ≡ true
contains_self h [] = ap (λ b. b || false) (true-holds (String-discrete h h) refl)
contains_self h (x ∷ hs) = or_true (holds (String-discrete h x)) (contains_self h hs)
  where
    or_true : (a : Bool) {b : Bool} → b ≡ true → (a || b) ≡ true
    or_true true e = refl
    or_true false e = e

contains-is_empty :
    (h : String) (hs : List String) → contains String-discrete h hs ≡ true → is_empty hs ≡ false
contains-is_empty h [] e = absurd (cc e)
contains-is_empty h (x ∷ hs) e = refl

module _ {Store : Type 0} (kv : SealedKv Store) (laws : IsSealedKv kv) where
  read_list-write_list :
      (key : Bytes) (list : List String) (s s' : Store)
      → write_list kv key list s ≡ (ok tt, s')
      → read_list kv key s' ≡ ok list
  unfolding write_list read_list
  read_list-write_list key list s s' h = elim (Result-outcome (kv.to_vec list)) [
    | inr (e, q) ↦ absurd (cc (rw q at h))
    | inl (value, q) ↦
        rw (laws.get-put s s' key value (rw q at h)) (laws.from_slice-to_vec list value q)
  ]

  read_list-write_list_other :
      (key other : Bytes) (list : List String) (s s' : Store)
      → other ≢ key
      → write_list kv key list s ≡ (ok tt, s')
      → read_list kv other s' ≡ read_list kv other s
  unfolding write_list read_list
  read_list-write_list_other key other list s s' ne h = elim (Result-outcome (kv.to_vec list)) [
    | inr (e, q) ↦ absurd (cc (rw q at h))
    | inl (value, q) ↦ rw (laws.get-put_other s s' key value other ne (rw q at h))
  ]

  -- The user is in the manifest.
  Known : String → Store → Type 0
  Known h s =
      (m : List String) × (load_manifest kv s ≡ ok m) × (contains String-discrete h m ≡ true)

  then-ok :
      {A B : Type 0} (r : Result RolesError A × Store) (f : A → Store → Result RolesError B × Store)
      (b : B) (s' : Store)
      → after r f ≡ (ok b, s')
      → (a : A) × (r ≡ (ok a, r.1)) × (f a r.1 ≡ (ok b, s'))
  then-ok (ok a, s1) f b s' h = (a, refl, h)
  then-ok (err e, s1) f b s' h = absurd (cc h)

  ensure_known-Known :
      (h : String) (s s' : Store)
      → ensure_known kv h s ≡ (ok tt, s')
      → Known h s' × ((key : Bytes) → key ≢ manifest_key → read_list kv key s' ≡ read_list kv key s)
  unfolding ensure_known Known load_manifest save_manifest
  ensure_known-Known h s s' e =
      let (m, q, rest) =
        then-ok (load_manifest kv s, s)
          (λ m.
            if contains String-discrete h m then return kv tt else save_manifest kv (m ++ h ∷ []))
          tt s' e in
      elim (Bool-cases (contains String-discrete h m)) [
        | inl c ↦
            let same : s ≡ s' = cc (rw c at rest) in
            (
              (m, ap (read_list kv manifest_key) (sym same) ∙ ap (λ p. p.0) q, c),
              λ key ne. ap (read_list kv key) (sym same),
            )
        | inr c ↦
            let w : write_list kv manifest_key (m ++ h ∷ []) s ≡ (ok tt, s') = rw c at rest in
            (
              (
                m ++ h ∷ [],
                read_list-write_list manifest_key (m ++ h ∷ []) s s' w,
                contains_self h m,
              ),
              λ key ne. read_list-write_list_other manifest_key key (m ++ h ∷ []) s s' ne w,
            )
      ]

  user_key-ne : (h : String) → h ≢ manifest_name → user_key h ≢ manifest_key
  user_key-ne h ne e = ne (cc e)

  set_user_roles-Known :
      (h : String) (roles : List String) (s s' : Store)
      → h ≢ manifest_name
      → set_user_roles kv h roles s ≡ (ok tt, s')
      → Known h s' × (get_user_roles kv h s' ≡ ok roles)
  unfolding set_user_roles get_user_roles
  set_user_roles-Known h roles s s' ne e =
      let (u, w, rest) =
        then-ok (write_list kv (user_key h) roles s) (λ _. ensure_known kv h) tt s' e in
      let s1 : Store = (write_list kv (user_key h) roles s).1 in
      let (known, others) = ensure_known-Known h s1 s' rest in
      (
        known,
        others (user_key h) (user_key-ne h ne) ∙ read_list-write_list (user_key h) roles s s1 w,
      )

  -- Given a store and a codec that read back what was written, and a handle other than the
  -- manifest's name: after a successful write of a user's roles they are read back, the user is in
  -- the manifest, and the roles of every other user than one named as the manifest are as before.
  pub set_user_roles_lem :
      (h : String) (roles : List String) (s s' : Store)
      → h ≢ manifest_name
      → set_user_roles kv h roles s ≡ (ok tt, s')
      → (get_user_roles kv h s' ≡ ok roles)
        × ((m : List String) × (load_manifest kv s' ≡ ok m) × (contains String-discrete h m ≡ true))
        × ((other : String)
            → other ≢ h
            → other ≢ manifest_name
            → get_user_roles kv other s' ≡ get_user_roles kv other s)
  unfolding set_user_roles get_user_roles Known
  set_user_roles_lem h roles s s' ne e =
      let (u, w, rest) =
        then-ok (write_list kv (user_key h) roles s) (λ _. ensure_known kv h) tt s' e in
      let s1 : Store = (write_list kv (user_key h) roles s).1 in
      let (known, others) = ensure_known-Known h s1 s' rest in
      (
        (set_user_roles-Known h roles s s' ne e).1,
        known,
        λ other ne_h ne_m.
            others (user_key other) (user_key-ne other ne_m)
            ∙ read_list-write_list_other (user_key h) (user_key other) roles s s1
                (λ same. ne_h (cc same)) w,
      )

  given_roles-Known :
      (h : String) (given roles : List String) (s s' : Store)
      → h ≢ manifest_name
      → (set_user_roles kv h given >>= (λ _. return kv given)) s ≡ (ok roles, s')
      → Known h s' × (get_user_roles kv h s' ≡ ok roles)
  given_roles-Known h given roles s s' ne e =
      let (u, w, rest) = then-ok (set_user_roles kv h given s) (λ _. return kv given) roles s' e in
      let s1 : Store = (set_user_roles kv h given s).1 in
      let same : s1 ≡ s' = ap (λ p. p.1) rest in
      let (known, r) = set_user_roles-Known h given s s1 ne w in
      (subst (Known h) same known, ap (get_user_roles kv h) (sym same) ∙ r ∙ ap (λ p. p.0) rest)

  bootstrap-Known :
      (h : String) (roles : List String) (s s' : Store)
      → h ≢ manifest_name
      → get_user_roles_with_bootstrap kv h s ≡ (ok roles, s')
      → Known h s' × (get_user_roles kv h s' ≡ ok roles)
  unfolding get_user_roles_with_bootstrap Known
  bootstrap-Known h roles s s' ne e =
      let (m, q, rest) = then-ok (load_manifest kv s, s) _ roles s' e in
      elim (Bool-cases (contains String-discrete h m)) [
        | inl c ↦
            let p : ◌≡◌ {A = Result RolesError (List String) × Store} (get_user_roles kv h s, s)
                (ok roles, s') =
              rw c at rest in
            (
              subst (Known h) (ap (λ x. x.1) p) (m, ap (λ x. x.0) q, c),
              ap (get_user_roles kv h) (sym (ap (λ x. x.1) p)) ∙ ap (λ x. x.0) p,
            )
        | inr c ↦ elim (Bool-cases (is_empty m)) [
          | inl none_known ↦
              given_roles-Known h admin_roles roles s s' ne (rw (c, none_known) at rest)
          | inr some_known ↦
              let (d, q', rest') =
                then-ok (get_default_roles kv s, s)
                  (λ d. set_user_roles kv h d >>= (λ _. return kv d)) roles s'
                  (rw (c, some_known) at rest) in
              given_roles-Known h d roles s s' ne rest'
        ]
      ]

  -- Given a store and a codec that read back what was written, and a handle other than the
  -- manifest's name: once the roles of a user have been looked up with success, looking them up
  -- again gives the same roles and changes nothing, and no later user is the first one.
  pub bootstrap-once :
      (h : String) (roles : List String) (s s' : Store)
      → h ≢ manifest_name
      → get_user_roles_with_bootstrap kv h s ≡ (ok roles, s')
      → (get_user_roles_with_bootstrap kv h s' ≡ (ok roles, s')) × (is_first_user kv s' ≡ ok false)
  unfolding get_user_roles_with_bootstrap is_first_user Known
  bootstrap-once h roles s s' ne e =
      let ((m, q, c), r) = bootstrap-Known h roles s s' ne e in
      (rw (q, c) (ap (λ x. (x, s')) r), rw (q, contains-is_empty h m c))
