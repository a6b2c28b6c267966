-- ===== src/CorePhase/Progress.antt =====
-- The phases of common/src/core_phase.rs only move forward, and a shutdown request ends.
use privasys_enclave_os_mini.Common.{
  ℕ, zero, suc, ◌<◌, ◌≡◌, refl, ap, ◌∙◌, ◌⊎◌, Bool-cases, ==_iff, sym, inl, inr, Bool, true, false,
  some, List, [], ◌∷◌, ◌++◌, arith, ◌==◌,
}
use privasys_enclave_os_mini.Common.Results.{ok, err}
use privasys_enclave_os_mini.CorePhase.{
  CorePhase, initialising, running, failed, shutting_down, stopped, to_raw, from_raw, load,
  transition, publish_running, publish_failed, publish_stopped, may_shut_down, Access, run_core,
  fail_core, stop_core, shut, access, accesses, request_shutdown,
}

-- The phases that may follow a phase, itself included: only initialisation leads to running or
-- failed, shutting down leads to stopped only, and failed and stopped are final.
abbrev pub leads_to : CorePhase → CorePhase → Bool
leads_to initialising _ = true
leads_to running running = true
leads_to running shutting_down = true
leads_to running stopped = true
leads_to failed failed = true
leads_to shutting_down shutting_down = true
leads_to shutting_down stopped = true
leads_to stopped stopped = true
leads_to _ _ = false

pub load-to_raw : (p : CorePhase) → load (to_raw p) ≡ p
unfolding load to_raw from_raw
load-to_raw initialising = refl
load-to_raw _ = refl

-- The phase after one access.
abbrev pub next : Access → CorePhase → CorePhase
next run_core initialising = running
next fail_core initialising = failed
next stop_core shutting_down = stopped
next (shut initialising) initialising = shutting_down
next (shut running) running = shutting_down
next _ p = p

access-next : (a : Access) (p : CorePhase) → access a (to_raw p) ≡ to_raw (next a p)
unfolding access publish_running publish_failed publish_stopped transition to_raw may_shut_down
access-next run_core initialising = refl
access-next (shut initialising) initialising = refl
access-next (shut initialising) running = refl
access-next (shut initialising) _ = refl
access-next (shut running) running = refl
access-next (shut running) initialising = refl
access-next (shut running) _ = refl
access-next (shut failed) p = refl
access-next (shut shutting_down) p = refl
access-next (shut stopped) p = refl
access-next run_core _ = refl
access-next fail_core initialising = refl
access-next fail_core _ = refl
access-next stop_core shutting_down = refl
access-next stop_core _ = refl

leads_to-stop : (q : CorePhase) → leads_to stopped q ≡ true → leads_to shutting_down q ≡ true
leads_to-stop stopped h = refl
leads_to-stop shutting_down h = refl
leads_to-stop initialising h = h
leads_to-stop running h = h
leads_to-stop failed h = h

leads_to-shut : (q : CorePhase) → leads_to shutting_down q ≡ true → leads_to running q ≡ true
leads_to-shut stopped h = refl
leads_to-shut shutting_down h = refl
leads_to-shut running h = refl
leads_to-shut initialising h = h
leads_to-shut failed h = h

next-leads_to : (a : Access) (p q : CorePhase) → leads_to (next a p) q ≡ true → leads_to p q ≡ true
next-leads_to stop_core shutting_down q h = leads_to-stop q h
next-leads_to (shut running) running q h = leads_to-shut q h
next-leads_to run_core initialising q h = refl
next-leads_to fail_core initialising q h = refl
next-leads_to (shut initialising) initialising q h = refl
next-leads_to _ _ q h = h

leads_to_self : (p : CorePhase) → leads_to p p ≡ true
leads_to_self initialising = refl
leads_to_self _ = refl

-- Whatever accesses follow one another from a cell that holds a phase, the cell then holds a phase
-- that the first one may lead to.
pub accesses-leads_to :
    (steps : List Access) (p : CorePhase)
    → (q : CorePhase) × (accesses steps (to_raw p) ≡ to_raw q) × (leads_to p q ≡ true)
unfolding accesses
accesses-leads_to [] p = (p, refl, leads_to_self p)
accesses-leads_to (a ∷ steps) p =
    let (q, e, l) = accesses-leads_to steps (next a p) in
    (q, ap (accesses steps) (access-next a p) ∙ e, next-leads_to a p q l)

-- How many changes a shutdown request can still be held up by.
abbrev weight : CorePhase → ℕ
weight initialising = 2
weight running = 1
weight _ = 0

leads_to-weight :
    (p q : CorePhase)
    → leads_to p q ≡ true
    → (to_raw q == to_raw p) ≡ false
    → may_shut_down p ≡ true
    → weight q < weight p
unfolding to_raw may_shut_down
leads_to-weight initialising initialising l e m = ground arith
leads_to-weight initialising _ l e m = omega arith
leads_to-weight running initialising l e m = ground arith
leads_to-weight running running l e m = ground arith
leads_to-weight running failed l e m = ground arith
leads_to-weight running _ l e m = omega arith
leads_to-weight failed q l e m = ground arith
leads_to-weight shutting_down q l e m = ground arith
leads_to-weight stopped q l e m = ground arith

-- The phases from which a shutdown is still to be requested, and the others.
abbrev pub IsOpen : CorePhase → Type 0
IsOpen p = (p ≡ initialising) ⊎ (p ≡ running)

abbrev pub IsClosed : CorePhase → Type 0
IsClosed p = (p ≡ failed) ⊎ ((p ≡ shutting_down) ⊎ (p ≡ stopped))

may_shut_down-IsOpen : (p : CorePhase) → may_shut_down p ≡ true → IsOpen p
unfolding may_shut_down
may_shut_down-IsOpen initialising h = inl refl
may_shut_down-IsOpen running h = inr refl
may_shut_down-IsOpen failed h = absurd (cc h)
may_shut_down-IsOpen shutting_down h = absurd (cc h)
may_shut_down-IsOpen stopped h = absurd (cc h)

may_shut_down-IsClosed : (p : CorePhase) → may_shut_down p ≡ false → IsClosed p
unfolding may_shut_down
may_shut_down-IsClosed initialising h = absurd (cc h)
may_shut_down-IsClosed running h = absurd (cc h)
may_shut_down-IsClosed failed h = inl refl
may_shut_down-IsClosed shutting_down h = inr (inl refl)
may_shut_down-IsClosed stopped h = inr (inr refl)

-- What the other threads do before the load of iteration `k` of `n`, and between its load and its
-- exchange.
abbrev pub earlier : (n : ℕ) → (ℕ → List Access) → (k : ℕ) → List Access
earlier zero others k = []
earlier (suc n) others zero = []
earlier (suc n) others (suc k) = others n ++ earlier n others k

abbrev pub during : (n : ℕ) → (ℕ → List Access) → (k : ℕ) → List Access
during zero others k = []
during (suc n) others zero = others n
during (suc n) others (suc k) = during n others k

accesses-append :
    (a b : List Access) (cell : ℕ) → accesses (a ++ b) cell ≡ accesses b (accesses a cell)
unfolding accesses
accesses-append [] b cell = refl
accesses-append (x ∷ a) b cell = accesses-append a b (access x cell)

-- The last iteration, where the phase `r` is loaded: either `r` is closed, is the answer, and the
-- cell is as the other threads left it; or `r` is open, the other threads left it in the cell, and
-- the cell and the answer are the shutdown.
abbrev pub Decides : List Access → (r c q : CorePhase) → Type 0
Decides meanwhile r c q =
    (IsClosed r × (q ≡ r) × (accesses meanwhile (to_raw r) ≡ to_raw c))
    ⊎ (IsOpen r
        × (accesses meanwhile (to_raw r) ≡ to_raw r)
        × (q ≡ shutting_down)
        × (c ≡ shutting_down))

Ends : ℕ → (ℕ → List Access) → CorePhase → Type 0
Ends n others p =
    (k : ℕ) × (r : CorePhase) × (c : CorePhase) × (q : CorePhase) × (k < n)
    × (accesses (earlier n others k) (to_raw p) ≡ to_raw r)
    × (request_shutdown n others (to_raw p) ≡ some (to_raw c, q))
    × Decides (during n others k) r c q

request_shutdown-Ends :
    (n : ℕ) (others : ℕ → List Access) (p : CorePhase) → weight p < n → Ends n others p
unfolding request_shutdown Ends accesses
request_shutdown-Ends zero others p h = absurd (omega arith)
request_shutdown-Ends (suc n) others p h =
    let (q, e, l) = accesses-leads_to (others n) p in
    elim (Bool-cases (may_shut_down p)) [
      | inr m ↦ (
        0,
        p,
        q,
        p,
        omega arith,
        refl,
        rw (load-to_raw p, m) (ap (λ c. some (c, p)) e),
        inl (may_shut_down-IsClosed p m, refl, e),
      )
      | inl m ↦ elim (Bool-cases (to_raw q == to_raw p)) [
        | inl same ↦ (
          0,
          p,
          shutting_down,
          shutting_down,
          omega arith,
          refl,
          rw (load-to_raw p, m, e, same),
          inr (may_shut_down-IsOpen p m, e ∙ (==_iff (to_raw q) (to_raw p)).0 same, refl, refl),
        )
        | inr diff ↦
            let (k, r, c, a, less, loaded, ends, decides) =
              request_shutdown-Ends n others q (omega (arith, leads_to-weight p q l diff m)) in
            (
              suc k,
              r,
              c,
              a,
              omega (arith, less),
              accesses-append (others n) (earlier n others k) (to_raw p)
                  ∙ ap (accesses (earlier n others k)) e
                  ∙ loaded,
              rw (load-to_raw p, m, e, diff) ends,
              decides,
            )
      ]
    ]

-- From a cell that holds a phase, a shutdown request ends within three iterations, whatever
-- accesses the other threads make between its loads and exchanges. In the last one it has loaded the
-- phase that their accesses so far lead to. If that is failed, shutting down or stopped, it answers
-- this phase and leaves the cell as the other threads do. Otherwise it is initialising or running and
-- still in the cell at the exchange, and the cell then holds, and the request answers, shutting down.
pub request_shutdown-ends :
    (others : ℕ → List Access) (p : CorePhase)
    → (k : ℕ) × (r : CorePhase) × (c : CorePhase) × (q : CorePhase) × (k < 3)
      × (accesses (earlier 3 others k) (to_raw p) ≡ to_raw r)
      × (request_shutdown 3 others (to_raw p) ≡ some (to_raw c, q))
      × Decides (during 3 others k) r c q
unfolding Ends
request_shutdown-ends others p = request_shutdown-Ends 3 others p (weight-lt p)
  where
    weight-lt : (p : CorePhase) → weight p < 3
    weight-lt initialising = omega arith
    weight-lt _ = omega arith

-- From a cell that holds a phase, a publication succeeds exactly when that is the phase it names,
-- which it then replaces; otherwise it leaves the cell and answers the phase it found.
pub transition_lem :
    (from to p : CorePhase)
    → ((p ≡ from) × (transition from to (to_raw p) ≡ (to_raw to, ok tt)))
      ⊎ ((to_raw p == to_raw from ≡ false) × (transition from to (to_raw p) ≡ (to_raw p, err p)))
unfolding transition load
transition_lem from to p = elim (Bool-cases (to_raw p == to_raw from)) [
  | inl e ↦ inl (
    sym (load-to_raw p) ∙ ap load ((==_iff (to_raw p) (to_raw from)).0 e) ∙ load-to_raw from,
    rw e,
  )
  | inr e ↦ inr (e, rw e (ap (λ q. (to_raw p, err q)) (load-to_raw p)))
]
