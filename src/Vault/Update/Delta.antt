-- ===== src/Vault/Update/Delta.antt =====
-- What `runtime_only_delta` of crates/enclave-os-vault/src/policy.rs lets through.
use privasys_enclave_os_mini.Common.{
  Bool, true, false, not, ◌&&◌, Option, none, some, List, [], ◌∷◌, ◌≡◌, refl, sym, ap, ◌∙◌, inl,
  inr, all, if◌then◌else◌, ◌⊎◌, All, Bool-cases,
}
use privasys_enclave_os_mini.Vault.Types.{
  String, String-discrete, Measurement, mrenclave, tdx, Measurement-discrete, AttestationServer,
  AttestationServer-discrete, OidRequirement, OidRequirement-discrete, AttestationProfile,
}
use privasys_enclave_os_mini.Vault.Texts.{contains, holds, same_elements}
use privasys_enclave_os_mini.Vault.Texts.Equality.{
  and-true, or-true, holds-true, true-holds, all-All,
}
use privasys_enclave_os_mini.Vault.Update.{
  bool_eq, is_mrenclave, family, same_family, list_eq, runtime_only_delta,
}

module _ {ℓ} {A : Type ℓ} (eq : Discrete A) where
  contains-all :
      (x : A) (a b : List A)
      → all (λ y. contains eq y b) a ≡ true
      → contains eq x a ≡ true
      → contains eq x b ≡ true
  contains-all x [] b h c = absurd (cc c)
  contains-all x (y ∷ a) b h c =
      let (here, there) = and-true _ _ h in
      elim (or-true (holds (eq x y)) (contains eq x a) c) [
        | inl same ↦ ap (λ z. contains eq z b) (holds-true (eq x y) same) ∙ here
        | inr later ↦ contains-all x a b there later
      ]

  same_elements-contains :
      (a b : List A) → same_elements eq a b ≡ true → (x : A) → contains eq x a ≡ contains eq x b
  same_elements-contains a b h x =
      let (ab, ba) = and-true _ _ h in
      both (contains eq x a) (contains eq x b) (contains-all x a b ab) (contains-all x b a ba)
    where
      both : (p q : Bool) → (p ≡ true → q ≡ true) → (q ≡ true → p ≡ true) → p ≡ q
      both true q f g = sym (f refl)
      both false true f g = g refl
      both false false f g = refl

  list_eq_self : (xs : List A) → list_eq eq xs xs ≡ true
  list_eq_self [] = refl
  list_eq_self (x ∷ xs) =
      ap (λ b. b && list_eq eq xs xs) (true-holds (eq x x) refl) ∙ list_eq_self xs

unless-true : (a rest : Bool) → (if not a then false else rest) ≡ true → (a ≡ true) × (rest ≡ true)
unless-true true rest h = (refl, h)
unless-true false rest h = absurd (cc h)

bool_eq-true : (a b : Bool) → bool_eq a b ≡ true → a ≡ b
bool_eq-true true true h = refl
bool_eq-true false false h = refl
bool_eq-true true false h = absurd (cc h)
bool_eq-true false true h = absurd (cc h)

same_family-some :
    (f g : Option Bool) → same_family f g ≡ true → (sgx : Bool) × (f ≡ some sgx) × (g ≡ some sgx)
same_family-some (some a) (some b) h = (a, refl, ap some (sym (bool_eq-true a b h)))
same_family-some (some a) none h = absurd (cc h)
same_family-some none _ h = absurd (cc h)

abbrev pub IsSgx : Measurement → Type 0
IsSgx m = (s : String) × (m ≡ mrenclave s)

abbrev pub IsTdx : Measurement → Type 0
IsTdx m = (mrtd : String) × (rtmr1 : String) × (rtmr2 : String) × (m ≡ tdx mrtd rtmr1 rtmr2)

-- There are measurements, and all are of SGX enclaves, or all of TDX machines.
abbrev pub OneFamily : List Measurement → List Measurement → Type 0
OneFamily a b =
    ¬ (a ≡ []) × ¬ (b ≡ []) × ((All IsSgx a × All IsSgx b) ⊎ (All IsTdx a × All IsTdx b))

abbrev Kind : Bool → Measurement → Type 0
Kind true m = IsSgx m
Kind false m = IsTdx m

is_mrenclave-Kind : (m : Measurement) (sgx : Bool) → is_mrenclave m ≡ sgx → Kind sgx m
is_mrenclave-Kind (mrenclave s) true e = (s, refl)
is_mrenclave-Kind (mrenclave s) false e = absurd (cc e)
is_mrenclave-Kind (tdx a b c) true e = absurd (cc e)
is_mrenclave-Kind (tdx a b c) false e = (a, b, c, refl)

family-Kind :
    (ms : List Measurement) (sgx : Bool) → family ms ≡ some sgx → ¬ (ms ≡ []) × All (Kind sgx) ms
family-Kind [] sgx e = absurd (cc e)
family-Kind (m ∷ ms) sgx e =
    elim (Bool-cases (all (λ x. bool_eq (is_mrenclave x) (is_mrenclave m)) ms)) [
      | inr mixed ↦ absurd (cc (rw mixed at e))
      | inl same ↦
          let first : is_mrenclave m ≡ sgx = some_inj (rw same at e) in
          (
            λ q. cc q,
            (
              is_mrenclave-Kind m sgx first,
              all-All (λ x. bool_eq (is_mrenclave x) (is_mrenclave m))
                  (λ x h. is_mrenclave-Kind x sgx (bool_eq-true _ _ h ∙ first)) ms same,
            ),
          )
    ]
  where
    some_inj : {a b : Bool} → ◌≡◌ {A = Option Bool} (some a) (some b) → a ≡ b
    some_inj q = cc q

family-OneFamily :
    (a b : List Measurement) (sgx : Bool)
    → family a ≡ some sgx
    → family b ≡ some sgx
    → OneFamily a b
family-OneFamily a b true ea eb =
    let (na, ka) = family-Kind a true ea in
    let (nb, kb) = family-Kind b true eb in (na, nb, inl (ka, kb))
family-OneFamily a b false ea eb =
    let (na, ka) = family-Kind a false ea in
    let (nb, kb) = family-Kind b false eb in (na, nb, inr (ka, kb))

-- A staged profile that differs from the active one in the runtime only requires the same OIDs with
-- the same values, names the same attestation servers and accepts the same statuses; both
-- have measurements, those of both together are all of SGX or all of TDX, and they are not the same
-- list.
pub runtime_only_delta_lem :
    (staged active : AttestationProfile)
    → runtime_only_delta staged active ≡ true
    → ((req : OidRequirement)
        → contains OidRequirement-discrete req staged.required_oids
          ≡ contains OidRequirement-discrete req active.required_oids)
      × ((server : AttestationServer)
          → contains AttestationServer-discrete server staged.attestation_servers
            ≡ contains AttestationServer-discrete server active.attestation_servers)
      × ((status : String)
          → contains String-discrete status staged.acceptable_tcb_statuses
            ≡ contains String-discrete status active.acceptable_tcb_statuses)
      × OneFamily staged.measurements active.measurements
      × ¬ (staged.measurements ≡ active.measurements)
unfolding runtime_only_delta
runtime_only_delta_lem staged active h =
    let (oids, h1) = unless-true _ _ h in
    let (servers, h2) = unless-true _ _ h1 in
    let (statuses, h3) = unless-true _ _ h2 in
    let (families, h4) = unless-true _ _ h3 in
    let (sgx, of_staged, of_active) =
      same_family-some (family staged.measurements) (family active.measurements) families in
    let one_family =
      family-OneFamily staged.measurements active.measurements sgx of_staged of_active in
    (
      same_elements-contains OidRequirement-discrete staged.required_oids active.required_oids oids,
      same_elements-contains AttestationServer-discrete staged.attestation_servers
          active.attestation_servers servers,
      same_elements-contains String-discrete staged.acceptable_tcb_statuses
          active.acceptable_tcb_statuses statuses,
      one_family,
      differ h4,
    )
  where
    differ :
        not (list_eq Measurement-discrete staged.measurements active.measurements) ≡ true
        → ¬ (staged.measurements ≡ active.measurements)
    differ d same =
        let e : list_eq Measurement-discrete staged.measurements active.measurements ≡ true =
          ap (λ ms. list_eq Measurement-discrete staged.measurements ms) (sym same)
          ∙ list_eq_self Measurement-discrete staged.measurements in
        cc (e, d)
