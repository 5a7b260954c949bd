-- ===== src/Scheduler.antt =====
-- ig_monitor/scheduler.py: `run_split_scheduler`, inspections and downloads in one loop.
pub mod Spacing
use ig_anonymous_monitor.Base.{
  ℕ, ◌+◌, ◌-◌, Bool, true, false, ◌&&◌, not, List, [], ◌∷◌, ◌++◌, leb, if◌then◌else◌, min,
}

-- The two due times.
pub record Due : Type 0 where
  pub inspection_due : ℕ
  pub download_due : ℕ

-- What a turn of the loop reads: the clock before and after each callback and before the wait, and
-- whether `stop` is set at each test. A callback's status or exception is only logged.
pub record Turn : Type 0 where
  pub stopped_before : Bool
  pub download_asked_at : ℕ
  pub download_ended_at : ℕ
  pub stopped_between : Bool
  pub inspection_asked_at : ℕ
  pub inspection_ended_at : ℕ
  pub stopped_after : Bool
  pub wait_asked_at : ℕ

-- A callback with the times at which it was asked for and ended, or a wait with its timeout.
pub data Act : Type 0 where
  downloads inspects : ℕ → ℕ → Act
  waits : ℕ → Act

unfoldable pub download_turn : ℕ → Turn → Due → List Act × Due
download_turn download_interval t due =
    if leb due.download_due t.download_asked_at
    then (
      downloads t.download_asked_at t.download_ended_at ∷ [],
      record due { download_due = t.download_ended_at + download_interval },
    )
    else ([], due)

unfoldable pub inspection_turn : ℕ → Turn → Due → List Act × Due
inspection_turn interval_seconds t due =
    if not t.stopped_between && leb due.inspection_due t.inspection_asked_at
    then (
      inspects t.inspection_asked_at t.inspection_ended_at ∷ [],
      record due { inspection_due = t.inspection_ended_at + interval_seconds },
    )
    else ([], due)

-- `max(0, min(inspection_due, download_due) - loop.time())`: on natural numbers, what is left.
unfoldable pub wait_turn : Turn → Due → List Act
wait_turn t due = waits (min due.inspection_due due.download_due - t.wait_asked_at) ∷ []

-- The loop, over the turns that it comes to; it ends when `stop` is set.
unfoldable pub run_turns : ℕ → ℕ → List Turn → Due → List Act
unfolding download_turn inspection_turn wait_turn
run_turns interval_seconds download_interval [] due = []
run_turns interval_seconds download_interval (t ∷ ts) due =
    let (first, downloaded) = download_turn download_interval t due in
    let (second, inspected) = inspection_turn interval_seconds t downloaded in
    let rest = run_turns interval_seconds download_interval ts inspected in
    if t.stopped_before
    then []
    else first ++ (second ++ (if t.stopped_after then [] else wait_turn t inspected ++ rest))

-- Both are due at once at the start.
unfoldable pub run_split_scheduler : ℕ → ℕ → ℕ → List Turn → List Act
unfolding run_turns
run_split_scheduler interval_seconds download_interval started ts =
    run_turns interval_seconds download_interval ts
      (record { inspection_due = started; download_due = started })
