-- ===== src/Examples/Queue.antt =====
-- The queue of relationship jobs at work.
use ig_anonymous_monitor.Base.{refl, true, false, none, [], ◌∷◌}
use ig_anonymous_monitor.Store.{Database, JobReason}
use ig_anonymous_monitor.Jobs.{enqueue_relationship_job}
use ig_anonymous_monitor.Jobs.OneOpen.{HasOneOpen}
use ig_anonymous_monitor.Jobs.Traces.{Reach-HasOneOpen, queues, claims, holds, here, next}
use ig_anonymous_monitor.Collector.{place_collector_risk_hold}
use ig_anonymous_monitor.Work.{claim_next}
use ig_anonymous_monitor.Examples.{empty, limits}

abbrev queued : Database
queued = (enqueue_relationship_job 5 1 false true JobReason.baseline 5 empty).1

abbrev leased : Database
leased = (claim_next limits 6 none queued).1

Reach-HasOneOpen_example :
    HasOneOpen
      (enqueue_relationship_job 9 1 true false JobReason.count_change 9
        (place_collector_risk_hold 7 (99 ∷ []) leased)).1.jobs
Reach-HasOneOpen_example = Reach-HasOneOpen {s = empty} refl (
    next
      (next
        (next (next here (queues 5 1 false true JobReason.baseline 5 empty))
          (claims limits 6 none queued))
        (holds 7 (99 ∷ []) leased))
      (queues 9 1 true false JobReason.count_change 9
        (place_collector_risk_hold 7 (99 ∷ []) leased)))
