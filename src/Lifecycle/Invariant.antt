-- ===== src/Lifecycle/Invariant.antt =====
-- The collector's state over sequences of operations.
use ig_anonymous_monitor.Base.{ℕ, sym, subst}
use ig_anonymous_monitor.Store.{Database}
use ig_anonymous_monitor.Admin.{EnrichmentConfig}
use ig_anonymous_monitor.Lifecycle.{
  Earned, IsEarned, Step, asks_status, logs_in, approves, recovers, works, elsewhere, Reach, here,
  next,
}
use ig_anonymous_monitor.Lifecycle.Steps.{
  Earned-later, status-IsEarned, login-IsEarned, recovery-IsEarned, approve-IsEarned,
}
use ig_anonymous_monitor.Lifecycle.Works.{run_once-IsEarned}

Step-IsEarned :
    (config : EnrichmentConfig) (t now : ℕ) (db db' : Database)
    → Step config t db now db'
    → IsEarned config t db
    → IsEarned config now db'
Step-IsEarned config _ _ _ _ (asks_status t now clock health db later) h =
    status-IsEarned config now clock health db
      (Earned-later config t now db.collector db.collector.state later h)
Step-IsEarned config _ _ _ _ (logs_in t now clock answer db later) h =
    login-IsEarned config now clock answer db
      (Earned-later config t now db.collector db.collector.state later h)
Step-IsEarned config _ _ _ _ (approves t now clock account_id db later) h =
    approve-IsEarned config now clock account_id db
      (Earned-later config t now db.collector db.collector.state later h)
Step-IsEarned config _ _ _ _ (recovers t now clock health db later) h =
    recovery-IsEarned config now clock health db
      (Earned-later config t now db.collector db.collector.state later h)
Step-IsEarned config _ _ _ _ (works t now clock fold coordinator jitter source db db' o later e) h =
    run_once-IsEarned fold config coordinator clock now jitter source db db' o e
      (Earned-later config t now db.collector db.collector.state later h)
Step-IsEarned config _ _ _ _ (elsewhere t now db db' later same) h =
    subst (λ x. Earned config now x x.state) (sym same)
      (Earned-later config t now db.collector db.collector.state later h)

-- From a database whose collector's state is earned (such as an unconfigured one), every sequence
-- of status queries, logins, approvals, recoveries and worker runs, at times that do not run
-- backwards, leads to a database in which it is earned: an active collector has been observed for
-- the configured hours, then approved, then a canary for the configured days.
pub Reach-IsEarned :
    (config : EnrichmentConfig) (t : ℕ) (db : Database) (now : ℕ) (db' : Database)
    → IsEarned config t db
    → Reach config t db now db'
    → IsEarned config now db'
Reach-IsEarned config t db now db' h here = h
Reach-IsEarned config t db now db' h (next {u = u} {db = middle} path step) =
    Step-IsEarned config u now middle db' step (Reach-IsEarned config t db u middle h path)
