-- ===== src/Examples/Life.antt =====
-- The collector and its worker at work.
use ig_anonymous_monitor.Base.{true, some, [], arith}
use ig_anonymous_monitor.Store.{Database}
use ig_anonymous_monitor.Reasons.{codes}
use ig_anonymous_monitor.Admin.{returned, raised, collector_fatal, login, status}
use ig_anonymous_monitor.Worker.{Source}
use ig_anonymous_monitor.Worker.Run.{run_claim}
use ig_anonymous_monitor.Worker.Closing.{Closes, run_claim-Closes}
use ig_anonymous_monitor.Worker.Gate.{Turns, IsFinalCanary, run_claim-Turns}
use ig_anonymous_monitor.Lifecycle.{IsEarned, here, next, logs_in, asks_status}
use ig_anonymous_monitor.Lifecycle.Invariant.{Reach-IsEarned}
use ig_anonymous_monitor.Examples.{busy, limits, settings, claim}

-- The account is public; its lists end with a challenge.
abbrev challenged : Source
challenged = record {
  resolve_public_user = returned (record { profile_id = 700; is_public = true });
  iter_members =
      λ id d. record { pages = []; ending = raised (collector_fatal (codes "ChallengeRequired")) };
}

run_claim-Closes_example :
    Closes 2000 claim busy (
      run_claim
        (λ a b. true)
        settings
        limits
        2000
        2000
        (λ a. 0)
        challenged
        true
        (some 1)
        claim
        busy)
run_claim-Closes_example =
    run_claim-Closes (λ a b. true) settings limits 2000 2000 (λ a. 0) challenged true (some 1) claim
      busy

run_claim-Turns_example :
    Turns (IsFinalCanary settings true (some 1) claim busy) busy.collector (
      run_claim
        (λ a b. true)
        settings
        limits
        2000
        2000
        (λ a. 0)
        challenged
        true
        (some 1)
        claim
        busy)
run_claim-Turns_example =
    run_claim-Turns (λ a b. true) settings limits 2000 2000 (λ a. 0) challenged true (some 1) claim
      busy

abbrev logged_in : Database
logged_in = (login 10 10 (returned true) busy).1

Reach-IsEarned_example :
    IsEarned settings 200000 (status settings 200000 200000 (returned tt) logged_in).1
Reach-IsEarned_example =
    Reach-IsEarned settings 0 busy 200000 (status settings 200000 200000 (returned tt) logged_in).1
      tt
      (next (next here (logs_in 0 10 10 (returned true) busy (omega arith)))
        (asks_status 10 200000 200000 (returned tt) logged_in (omega arith)))
