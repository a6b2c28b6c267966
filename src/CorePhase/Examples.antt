-- ===== src/CorePhase/Examples.antt =====
-- The theorems on common/src/core_phase.rs at concrete phases and accesses.
use privasys_enclave_os_mini.Common.{ℕ, ◌<◌, ◌≡◌, true, some, List, [], ◌∷◌}
use privasys_enclave_os_mini.CorePhase.{
  CorePhase, initialising, running, to_raw, Access, run_core, fail_core, stop_core, shut, accesses,
  request_shutdown,
}
use privasys_enclave_os_mini.CorePhase.Progress.{
  earlier, during, Decides, leads_to, accesses-leads_to, request_shutdown-ends,
}

abbrev others : ℕ → List Access
others n = run_core ∷ shut running ∷ stop_core ∷ []

accesses-leads_to_example :
    (q : CorePhase) × (accesses (run_core ∷ fail_core ∷ shut running ∷ []) (to_raw initialising)
      ≡ to_raw q)
    × (leads_to initialising q ≡ true)
accesses-leads_to_example =
    accesses-leads_to (run_core ∷ fail_core ∷ shut running ∷ []) initialising

request_shutdown-ends_example :
    (k : ℕ) × (r : CorePhase) × (c : CorePhase) × (q : CorePhase) × (k < 3)
    × (accesses (earlier 3 others k) (to_raw initialising) ≡ to_raw r)
    × (request_shutdown 3 others (to_raw initialising) ≡ some (to_raw c, q))
    × Decides (during 3 others k) r c q
request_shutdown-ends_example = request_shutdown-ends others initialising
