-- ===== src/Tests/Wake.antt =====
-- The theorems on the passive mDNS browses at concrete runs.
use maps_main.Shared.{◌≡◌, true, [], ◌∷◌}
use maps_main.Discovery.Wake.{Run, browse_all, failing, recovered, start, dispatch_restart_mdns}
use maps_main.Discovery.Wake.Alerts.{browse_all-alerts}
use maps_main.Discovery.Wake.Runs.{
  no_runs, fresh, next, started, Reach-IsSingle, dispatch_restart_mdns_silent,
}

abbrev short : Run
short = record { service = 0; ran = 0 }

abbrev long : Run
long = record { service = 1; ran = 9 }

-- Four failures and a healthy run, then one failure.
browse_all-alerts_example :
    (browse_all (short ∷ long ∷ short ∷ short ∷ short ∷ short ∷ [])).notices
    ≡ recovered ∷ failing ∷ []
browse_all-alerts_example = browse_all-alerts (short ∷ long ∷ short ∷ short ∷ short ∷ short ∷ [])

dispatch_restart_mdns_silent_example :
    (dispatch_restart_mdns true true 7 (start true true 1 no_runs)).live ≡ []
dispatch_restart_mdns_silent_example =
    dispatch_restart_mdns_silent true true 7 (start true true 1 no_runs)
      (Reach-IsSingle (next fresh (started true true 1)))
