-- ===== src/Trigger/Queued.antt =====
-- What an observation queues.
use ig_anonymous_monitor.Base.{
  ℕ, ◌≡◌, refl, subst, inl, inr, Bool, true, ◌&&◌, ◌||◌, Option, some, [], ◌∷◌, ◌++◌, arith, ◌==◌,
  ==→eq, Bool-cases, Option-cases, All, In, All-imp, All-append_one, All-find_by, find_by,
  exists_by, update_where, next_id, le-max_of, find_by-holds, find_by-In, exists_by-In,
  exists_by-find_by, In-update_where, In-append_one, All-updated, eq_self,
}
use ig_anonymous_monitor.Store.{
  Database, Account, Direction, ProfileSnapshot, Job, JobReason, is_public,
}
use ig_anonymous_monitor.Jobs.{
  has_id, is_open_of, widen, new_job, insert_job, get_account_by_id, enqueue_relationship_job,
  get_relationship_job,
}
use ig_anonymous_monitor.Admin.{EnrichmentConfig}
use ig_anonymous_monitor.Worker.{add_if}
use ig_anonymous_monitor.Trigger.{
  queued, answer_of, TriggerOutcome, TriggerResult, observed, is_needed, observe_public,
  queue_directions, observe_profile,
}

-- The job asks for the direction.
unfoldable pub asks : Direction → Job → Bool
asks Direction.followers_direction j = j.need_followers
asks Direction.following_direction j = j.need_following

abbrev wanted : Direction → Bool → Bool → Bool
wanted Direction.followers_direction f g = f
wanted Direction.following_direction f g = g

-- The jobs of that id ask for the direction.
abbrev IsAsked : Direction → ℕ → Job → Type 0
IsAsked d id j = (j.id == id) ≡ true → asks d j ≡ true

-- What queueing has done: an open job of the account asks for the direction, and so do all jobs
-- of the id that is returned, of which there is one.
record Asked (d : Direction) (account_id : ℕ) (out : ℕ × Database) : Type 0 where
  open_job : exists_by (λ j. is_open_of account_id j && asks d j) out.1.jobs ≡ true
  all_asked : All (IsAsked d out.0) out.1.jobs
  present : exists_by (λ j. j.id == out.0) out.1.jobs ≡ true

new_job-asks :
    (d : Direction) (now id a : ℕ) (f g : Bool) (reason : JobReason) (at : ℕ)
    → wanted d f g ≡ true
    → asks d (new_job now id a f g reason at) ≡ true
unfolding asks
new_job-asks Direction.followers_direction now id a f g reason at w = w
new_job-asks Direction.following_direction now id a f g reason at w = w

widen-asks :
    (d : Direction) (now : ℕ) (f g : Bool) (reason : JobReason) (row j : Job)
    → wanted d f g ≡ true
    → asks d (widen now (row.need_followers || f) (row.need_following || g) reason j) ≡ true
unfolding asks
widen-asks Direction.followers_direction now f g reason row j w = ground arith
widen-asks Direction.following_direction now f g reason row j w = ground arith

insert_job-Asked :
    (d : Direction) (now a : ℕ) (f g : Bool) (reason : JobReason) (at : ℕ) (db : Database)
    → wanted d f g ≡ true
    → Asked d a (insert_job now a f g reason at db)
unfolding insert_job
insert_job-Asked d now a f g reason at db w =
    let id = next_id (λ (j : Job). j.id) db.jobs in
    let new = new_job now id a f g reason at in
    let asked = new_job-asks d now id a f g reason at w in
    record {
      open_job =
          exists_by-In (λ j. is_open_of a j && asks d j) (db.jobs ++ new ∷ [])
            (In-append_one db.jobs new) (rw asked (ground (arith, eq_self a)));
      all_asked =
          All-append_one (IsAsked d id) db.jobs new
            (All-imp _ _ db.jobs (λ j below same. absurd (ground (arith)))
              (le-max_of (λ (j : Job). j.id) db.jobs))
            (λ same. asked);
      present =
          exists_by-In (λ j. j.id == id) (db.jobs ++ new ∷ []) (In-append_one db.jobs new)
            (eq_self id);
    }

widened-Asked :
    (d : Direction) (now a : ℕ) (f g : Bool) (reason : JobReason) (row : Job) (db : Database)
    → In row db.jobs
    → is_open_of a row ≡ true
    → wanted d f g ≡ true
    → let wide = widen now (row.need_followers || f) (row.need_following || g) reason in
      Asked d a (row.id, record db { jobs = update_where (λ j. j.id == row.id) wide db.jobs })
widened-Asked d now a f g reason row db member opens w =
    let p = λ (j : Job). j.id == row.id in
    let wide = widen now (row.need_followers || f) (row.need_following || g) reason in
    let there = In-update_where p wide db.jobs member (eq_self row.id) in
    record {
      open_job =
          exists_by-In (λ j. is_open_of a j && asks d j) (update_where p wide db.jobs) there
            (rw (widen-asks d now f g reason row row w, opens) refl);
      all_asked =
          All-updated (IsAsked d row.id) p wide db.jobs
            (λ j same k. widen-asks d now f g reason row j w) (λ j other same. absurd (cc));
      present = exists_by-In p (update_where p wide db.jobs) there (eq_self row.id);
    }

enqueue-Asked :
    (d : Direction) (now a : ℕ) (f g : Bool) (reason : JobReason) (at : ℕ) (db : Database)
    → wanted d f g ≡ true
    → Asked d a (enqueue_relationship_job now a f g reason at db)
unfolding enqueue_relationship_job
enqueue-Asked d now a f g reason at db w = elim (Option-cases (find_by (is_open_of a) db.jobs)) [
  | inl nothing ↦
      rw (nothing, enqueue_relationship_job) (insert_job-Asked d now a f g reason at db w)
  | inr (row, found) ↦
      rw (found, enqueue_relationship_job)
        (widened-Asked d now a f g reason row db (find_by-In (is_open_of a) db.jobs found)
          (find_by-holds (is_open_of a) db.jobs found) w)
]

asks-In :
    (d : Direction) (j : Job)
    → asks d j ≡ true
    → In d (
        add_if j.need_followers Direction.followers_direction
          (add_if j.need_following Direction.following_direction []))
unfolding asks
asks-In Direction.followers_direction j h = rw h (inl refl)
asks-In Direction.following_direction j h = elim (Bool-cases j.need_followers) [
  | inl e ↦ rw (e, h) (inr (inl refl))
  | inr e ↦ rw (e, h) (inl refl)
]

-- The trigger says that it has queued the direction, and an open job of the account asks for it.
abbrev pub Queues : Direction → ℕ → TriggerResult × Database → Type 0
Queues d account_id (result, db) =
    (o : TriggerOutcome) × (result ≡ observed o)
    × (o.action ≡ queued)
    × In d o.directions
    × (exists_by (λ j. is_open_of account_id j && asks d j) db.jobs ≡ true)

answer_of-Queues :
    (d : Direction) (a id : ℕ) (db : Database)
    → Asked d a (id, db)
    → Queues d a (answer_of id (get_relationship_job id db), db)
unfolding get_relationship_job
answer_of-Queues d a id db h =
    let p = λ (j : Job). j.id == id in
    let (job, found) = exists_by-find_by p db.jobs h.present in
    let asked =
      All-find_by (IsAsked d id) p db.jobs h.all_asked found (find_by-holds p db.jobs found) in
    rw (found, get_relationship_job) (_, refl, refl, asks-In d job asked, h.open_job)

wanted-some : (d : Direction) (f g : Bool) → wanted d f g ≡ true → (f || g) ≡ true
wanted-some Direction.followers_direction f g w = ground arith
wanted-some Direction.following_direction f g w = ground arith

queue_directions-Queues :
    (d : Direction) (clock a now : ℕ) (scoped f g : Bool) (reason : JobReason) (db : Database)
    → wanted d f g ≡ true
    → Queues d a (queue_directions clock a now scoped f g reason db)
unfolding queue_directions
queue_directions-Queues d clock a now scoped f g reason db w =
    let e : (f || g) ≡ true = wanted-some d f g w in
    let (id, after) = enqueue_relationship_job clock a f g reason now db in
    rw e (answer_of-Queues d a id after (enqueue-Asked d clock a f g reason now db w))

observe_public-Queues :
    (d : Direction) (config : EnrichmentConfig) (clock : ℕ) (account : Account)
    (previous : Option ProfileSnapshot) (current : ProfileSnapshot) (now : ℕ) (db : Database)
    → is_needed config d account previous current ≡ true
    → Queues d account.id (observe_public config clock account previous current now db)
unfolding observe_public
observe_public-Queues d config clock account previous current now db needed =
    queue_directions-Queues d clock account.id now _ _ _ _ _ (
      elim d
          as (λ e.
            is_needed config e account previous current ≡ true
            → wanted e (is_needed config Direction.followers_direction account previous current)
                (is_needed config Direction.following_direction account previous current)
              ≡ true) [
                | Direction.followers_direction ↦ λ h. h
                | Direction.following_direction ↦ λ h. h
              ]
        needed)

-- A direction that needs collecting is queued: on a public observation of a tracked account, if a
-- direction's count is within the limit, and its baseline is missing, or the profile is new or was
-- not public before, or the count has changed, then an open job of the account asks for the
-- direction afterwards, and the answer says so.
pub observe_profile-Queues :
    (d : Direction) (config : EnrichmentConfig) (clock account_id : ℕ) (account : Account)
    (previous : Option ProfileSnapshot) (current : ProfileSnapshot) (now : ℕ) (db : Database)
    → config.enabled ≡ true
    → get_account_by_id account_id db ≡ some account
    → account.relationship_tracking ≡ true
    → is_public current.privacy ≡ true
    → is_needed config d account previous current ≡ true
    → Queues d account_id (observe_profile config clock account_id previous current now db)
unfolding get_account_by_id observe_profile exists_by
observe_profile-Queues d config clock a account previous current now db on found tracked visible
      needed =
    let same : account.id ≡ a = ==→eq account.id a (find_by-holds (has_id a) db.accounts found) in
    rw (observe_profile, on, found, tracked, visible)
      (subst (λ i. Queues d i (observe_public config clock account previous current now db)) same
        (observe_public-Queues d config clock account previous current now db needed))
