-- ===== src/Store/Tests.antt =====
-- The tests that WHERE clauses make on the columns with a fixed set of values.
use ig_anonymous_monitor.Base.{Bool, true, false, ◌||◌}
use ig_anonymous_monitor.Store.Accounts.{PrivacyState, Direction}
use ig_anonymous_monitor.Store.Queue.{
  JobStatus, JobReason, WorkKind, WorkRunStatus, CollectorStateKind,
}
use ig_anonymous_monitor.Store.Members.{EnrichmentStatus}

abbrev pub is_public : PrivacyState → Bool
is_public PrivacyState.public = true
is_public _ = false

abbrev pub is_pending : JobStatus → Bool
is_pending JobStatus.pending = true
is_pending _ = false

abbrev pub is_leased : JobStatus → Bool
is_leased JobStatus.leased = true
is_leased _ = false

-- `status IN ('pending','leased')`
abbrev pub is_open : JobStatus → Bool
is_open JobStatus.pending = true
is_open JobStatus.leased = true
is_open _ = false

abbrev pub is_relationship : WorkKind → Bool
is_relationship WorkKind.relationship = true
is_relationship _ = false

abbrev pub is_running : WorkRunStatus → Bool
is_running WorkRunStatus.running = true
is_running _ = false

abbrev pub same_direction : Direction → Direction → Bool
same_direction Direction.followers_direction Direction.followers_direction = true
same_direction Direction.following_direction Direction.following_direction = true
same_direction _ _ = false

abbrev pub same_reason : JobReason → JobReason → Bool
same_reason JobReason.reopened JobReason.reopened = true
same_reason JobReason.count_change JobReason.count_change = true
same_reason JobReason.canary JobReason.canary = true
same_reason JobReason.canary_final JobReason.canary_final = true
same_reason JobReason.baseline JobReason.baseline = true
same_reason JobReason.reconciliation JobReason.reconciliation = true
same_reason JobReason.avatar_source_refresh JobReason.avatar_source_refresh = true
same_reason _ _ = false

abbrev pub same_state : CollectorStateKind → CollectorStateKind → Bool
same_state CollectorStateKind.unconfigured CollectorStateKind.unconfigured = true
same_state CollectorStateKind.observing CollectorStateKind.observing = true
same_state CollectorStateKind.awaiting_approval CollectorStateKind.awaiting_approval = true
same_state CollectorStateKind.canary CollectorStateKind.canary = true
same_state CollectorStateKind.active CollectorStateKind.active = true
same_state CollectorStateKind.risk_hold CollectorStateKind.risk_hold = true
same_state _ _ = false

abbrev pub is_pending_enrichment : EnrichmentStatus → Bool
is_pending_enrichment EnrichmentStatus.pending = true
is_pending_enrichment _ = false

abbrev pub is_leased_enrichment : EnrichmentStatus → Bool
is_leased_enrichment EnrichmentStatus.leased = true
is_leased_enrichment _ = false

-- `status IN ('pending','leased')`
abbrev pub is_open_enrichment : EnrichmentStatus → Bool
is_open_enrichment s = is_pending_enrichment s || is_leased_enrichment s
