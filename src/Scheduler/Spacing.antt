-- ===== src/Scheduler/Spacing.antt =====
-- How the callbacks of the scheduler follow each other.
use ig_anonymous_monitor.Base.{
  ℕ, ◌+◌, ◌≤◌, ◌&&◌, not, List, [], ◌∷◌, ◌++◌, arith, leb, leb→le, if◌then◌else◌, Bool-cases, inl,
  inr,
}
use ig_anonymous_monitor.Scheduler.{
  Due, Turn, Act, downloads, inspects, waits, download_turn, inspection_turn, wait_turn, run_turns,
  run_split_scheduler,
}

-- From `due` on: no callback is asked for before it is due, and after it has ended it is due again
-- when its interval has passed.
unfoldable pub IsSpacedFrom : ℕ → ℕ → Due → List Act → Type 0
IsSpacedFrom inspection_gap download_gap due [] = Unit
IsSpacedFrom inspection_gap download_gap due (downloads asked ended ∷ acts) =
    (due.download_due ≤ asked)
    × IsSpacedFrom inspection_gap download_gap (record due { download_due = ended + download_gap })
        acts
IsSpacedFrom inspection_gap download_gap due (inspects asked ended ∷ acts) =
    (due.inspection_due ≤ asked)
    × IsSpacedFrom inspection_gap download_gap
        (record due { inspection_due = ended + inspection_gap }) acts
IsSpacedFrom inspection_gap download_gap due (waits timeout ∷ acts) =
    IsSpacedFrom inspection_gap download_gap due acts

-- What follows a turn's wait, or nothing.
tail-IsSpacedFrom :
    (i d : ℕ) (t : Turn) (due : Due) (rest : List Act)
    → IsSpacedFrom i d due rest
    → IsSpacedFrom i d due (if t.stopped_after then [] else wait_turn t due ++ rest)
unfolding IsSpacedFrom wait_turn
tail-IsSpacedFrom i d t due rest h = elim (Bool-cases t.stopped_after) [
  | inl e ↦ rw e tt
  | inr e ↦ rw e h
]

inspection-IsSpacedFrom :
    (i d : ℕ) (t : Turn) (due : Due) (rest : List Act)
    → IsSpacedFrom i d (inspection_turn i t due).1 rest
    → IsSpacedFrom i d due ((inspection_turn i t due).0 ++ rest)
unfolding IsSpacedFrom inspection_turn
inspection-IsSpacedFrom i d t due rest h =
    elim (Bool-cases (not t.stopped_between && leb due.inspection_due t.inspection_asked_at)) [
      | inl e ↦ rw e (leb→le _ _ (ground arith), rw e at h)
      | inr e ↦ rw e (rw e at h)
    ]

download-IsSpacedFrom :
    (i d : ℕ) (t : Turn) (due : Due) (rest : List Act)
    → IsSpacedFrom i d (download_turn d t due).1 rest
    → IsSpacedFrom i d due ((download_turn d t due).0 ++ rest)
unfolding IsSpacedFrom download_turn
download-IsSpacedFrom i d t due rest h =
    elim (Bool-cases (leb due.download_due t.download_asked_at)) [
      | inl e ↦ rw e (leb→le _ _ e, rw e at h)
      | inr e ↦ rw e (rw e at h)
    ]

run_turns-IsSpacedFrom :
    (i d : ℕ) (ts : List Turn) (due : Due) → IsSpacedFrom i d due (run_turns i d ts due)
unfolding run_turns IsSpacedFrom
run_turns-IsSpacedFrom i d [] due = tt
run_turns-IsSpacedFrom i d (t ∷ ts) due =
    let downloaded = (download_turn d t due).1 in
    let inspected = (inspection_turn i t downloaded).1 in
    let rest = run_turns i d ts inspected in
    let after = if t.stopped_after then [] else wait_turn t inspected ++ rest in
    let later = tail-IsSpacedFrom i d t inspected rest (run_turns-IsSpacedFrom i d ts inspected) in
    let both =
      download-IsSpacedFrom i d t due ((inspection_turn i t downloaded).0 ++ after)
        (inspection-IsSpacedFrom i d t downloaded after later) in
    elim (Bool-cases t.stopped_before) [ inl e ↦ rw e tt | inr e ↦ rw e both ]

-- However long the callbacks take and whenever the loop is stopped: a callback is asked for only
-- when it is due, which both are at the start, and an inspection (a download) is asked for again
-- only when the interval has passed since the last one ended.
pub run_split_scheduler-IsSpacedFrom :
    (interval_seconds download_interval started : ℕ) (ts : List Turn)
    → IsSpacedFrom interval_seconds download_interval
        (record { inspection_due = started; download_due = started })
        (run_split_scheduler interval_seconds download_interval started ts)
unfolding run_split_scheduler
run_split_scheduler-IsSpacedFrom i d started ts = run_turns-IsSpacedFrom i d ts _
