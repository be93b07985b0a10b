-- ===== src/Tests/Counts.antt =====
-- src/services/stratum-v1.service.ts and src/models/StratumV1ClientStatistics.ts at concrete inputs.
use lido.Base.{ℕ, ◌≡◌, refl, true, false, none, List, [], ◌∷◌, arith}
use lido.Statistics.{new_statistics}
use lido.Statistics.Books.{
  Arrival, accept, reject, arrivals, flushed, sum_accepted, sum_rejected, accepts, rejects,
}
use lido.Statistics.Ledger.{rows_add_up}
use lido.Listeners.{StratumService, Limits, Load, monitor, any_paused, is_overloaded, is_healthy}
use lido.Listeners.Recovery.{IsCalm, opened, resumes_after, stays_closed}
use lido.Tests.Mining.{whole_numbers}

abbrev limits : Limits
limits = record {
  event_loop_p95_ms = 2000;
  rss_mb = 2500;
  resume_event_loop_p95_ms = 250;
  resume_rss_mb = 2000;
  healthy_checks = 3;
}

abbrev closed_service : StratumService
closed_service = record {
  listeners = record { port = 3333; server = false; paused = true } ∷ [];
  healthy_backpressure_checks = 1;
}

abbrev calm : Load
calm = record { event_loop = 100; rss = 900 }

calm-IsCalm : IsCalm limits calm
unfolding is_overloaded is_healthy
calm-IsCalm = (refl, refl)

resumes_after_example :
    monitor limits (calm ∷ calm ∷ []) closed_service
    ≡ record { listeners = opened closed_service.listeners; healthy_backpressure_checks = 0 }
resumes_after_example =
    resumes_after limits (calm ∷ calm ∷ []) closed_service paused (refl, tt)
      (calm-IsCalm, (calm-IsCalm, tt)) (omega arith) (omega arith)
  where
    paused : any_paused closed_service.listeners ≡ true
    paused = unfold any_paused in refl

stays_closed_example :
    (monitor limits (calm ∷ []) closed_service).listeners ≡ closed_service.listeners
stays_closed_example = stays_closed limits (calm ∷ []) closed_service paused (omega arith)
  where
    paused : any_paused closed_service.listeners ≡ true
    paused = unfold any_paused in refl

abbrev shares : List (Arrival ℕ)
shares =
    record { date = 600000; later = 600001; share = accept 8 }
    ∷ record { date = 700000; later = 700001; share = accept 8 }
    ∷ record { date = 1300000; later = 1300001; share = reject none }
    ∷ []

rows_add_up_example :
    let b =
      arrivals ⦃numbers = whole_numbers⦄ shares
        (record { rows = []; statistics = new_statistics ⦃numbers = whole_numbers⦄ 5 }) in
    (sum_accepted (flushed ⦃numbers = whole_numbers⦄ b b.statistics.current_time_slot)
      ≡ accepts shares)
    × (sum_rejected (flushed ⦃numbers = whole_numbers⦄ b b.statistics.current_time_slot)
        ≡ rejects shares)
rows_add_up_example =
    rows_add_up ⦃numbers = whole_numbers⦄ shares 5 (omega arith, (omega arith, (omega arith, tt)))
