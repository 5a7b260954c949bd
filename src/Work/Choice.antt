-- ===== src/Work/Choice.antt =====
-- The job that `claim_next` takes.
use ig_anonymous_monitor.Base.{
  ℕ, ◌+◌, ◌≡◌, inl, inr, true, false, ◌&&◌, Option, none, some, List, [], ◌∷◌, arith, ◌==◌, All, In,
  update_where, Bool-cases, Option-cases, subst,
}
use ig_anonymous_monitor.Store.{Account, Database, Job, is_pending}
use ig_anonymous_monitor.Work.{
  Coordinator, Claim, ClaimOutcome, precedes, first_in_order, is_eligible, lease,
}

pub first_in_order-none : (P : Job → Type 0) (js : List Job) → first_in_order js ≡ none → All P js
unfolding first_in_order
first_in_order-none P [] h = tt
first_in_order-none P (j ∷ js) h = elim (Option-cases (first_in_order js)) [
  | inl e ↦ absurd (ground (arith))
  | inr (k, e) ↦ absurd (ground (arith))
]

pub first_in_order-In : (js : List Job) (row : Job) → first_in_order js ≡ some row → In row js
unfolding first_in_order
first_in_order-In [] row h = cc
first_in_order-In (j ∷ js) row h = elim (Option-cases (first_in_order js)) [
  | inl e ↦ inl (ground arith)
  | inr (k, e) ↦ elim (Bool-cases (precedes k j)) [
    | inl before ↦
        let same : k ≡ row = ground arith in
        inr (subst (λ z. In z js) same (first_in_order-In js k e))
    | inr after ↦ inl (ground arith)
  ]
]

-- What it is to have claimed `row`: it was in the queue and eligible, no eligible job of the queue
-- comes before it, and it alone is leased.
pub record Takes (c : Coordinator) (now : ℕ) (canary : Option ℕ) (accounts : List Account)
    (queue : List Job) (claim : Claim) (jobs : List Job) : Type 0 where
  pub row : Job
  pub queued : In row queue
  pub eligible : is_eligible now canary accounts row ≡ true
  pub least : All (λ j. is_eligible now canary accounts j ≡ true → precedes j row ≡ false) queue
  pub claims_row : claim.work_ref_id ≡ row.id
  pub leased :
      jobs
      ≡ update_where
          (λ j. (j.id == row.id) && is_pending j.status)
          (lease now (now + c.lease_duration))
          queue

abbrev ClaimTakes : Coordinator → ℕ → Option ℕ → Database → ClaimOutcome × Database → Type 0
ClaimTakes c now canary db out =
    (claim : Claim)
    → out.0.claim ≡ some claim
    → Takes c now canary db.accounts db.jobs claim out.1.jobs
