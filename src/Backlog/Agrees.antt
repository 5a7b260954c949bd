-- ===== src/Backlog/Agrees.antt =====
-- The count `ready` of `media_backlog`, and what `pending_media` gives (ig_monitor/db.py).
use ig_anonymous_monitor.Base.{
  ℕ, ◌+◌, ◌≤◌, ◌≡◌, refl, Bool, true, false, ◌&&◌, not, Option, none, some, List, [], ◌∷◌, ◌==◌,
  if◌then◌else◌, arith, is_some, find_by, count_by, select, inl, inr, Bool-cases,
}
use ig_anonymous_monitor.Media.Tables.{Media, MediaTables}
use ig_anonymous_monitor.Cooldown.{SourceName, SourceState, SourceTables, is_later, media_cooldown}
use ig_anonymous_monitor.Inspections.{Health}
use ig_anonymous_monitor.Backlog.{
  Reason, Backlog, empty_backlog, is_waiting_status, selected, is_asked_for, is_wanted,
  is_ineligible, reason_of, count_reason, count_row, count_rows, media_backlog,
}
use ig_anonymous_monitor.Backlog.Offered.{
  one_if, is_offered, offered, offers, all_offers, offered-eq,
}

abbrev is_ready : Reason → Bool
is_ready Reason.ready = true
is_ready _ = false

-- The same three tests, one after the other and all at once.
tests_agree :
    (chosen ineligible later : Bool)
    → one_if (not ineligible && (true && true && not later && chosen))
      ≡ one_if (
          is_ready (
            if not chosen
            then Reason.other_source
            else if ineligible
            then Reason.ineligible
            else if not true
            then Reason.paused
            else if later
            then Reason.retry_wait
            else if is_some {A = SourceState} none
            then Reason.source_wait
            else Reason.ready))
tests_agree true true l = refl
tests_agree true false true = refl
tests_agree true false false = refl
tests_agree false true l = refl
tests_agree false false true = refl
tests_agree false false false = refl

module _ (source : SourceName) (now : ℕ) (db : MediaTables) where
  selected-asked : (m : Media) → selected source m db ≡ is_asked_for source m db
  unfolding selected is_asked_for
  selected-asked m = refl

  other_account :
      (a : Health) (m : Media)
      → (a.id == m.account_id) ≡ false
      → one_if (is_offered source now db a m) ≡ 0
  unfolding is_wanted
  other_account a m e = ground arith

  -- A medium of another account is offered to none.
  offers-absent :
      (m : Media) (accounts : List Health)
      → count_by (λ a. a.id == m.account_id) accounts ≡ 0
      → offers source now db m accounts ≡ 0
  unfolding offers count_by is_wanted
  offers-absent m [] h = refl
  offers-absent m (a ∷ accounts) h = elim (Bool-cases (a.id == m.account_id)) [
    | inl e ↦ absurd (ground arith)
    | inr e ↦ omega (arith, other_account a m e, offers-absent m accounts (ground arith))
  ]

  -- The reason of a medium with its account, if that is there.
  ready_with : Bool → Option SourceState → Option Health → Media → Bool
  ready_with enabled cooldown none m = false
  ready_with enabled cooldown (some a) m = is_ready (reason_of source enabled now cooldown a m db)

  own_account :
      (a : Health) (m : Media)
      → is_waiting_status m.status ≡ true
      → (a.id == m.account_id) ≡ true
      → one_if (is_offered source now db a m)
        ≡ one_if (is_ready (reason_of source true now none a m db))
  unfolding reason_of is_wanted
  own_account a m waiting e =
      let same : (m.account_id == a.id) ≡ true = ground arith in
      rw (selected-asked m, waiting, same)
        (tests_agree (is_asked_for source m db) (is_ineligible source a)
          (is_later m.next_retry_at now))

  offers-ready :
      (m : Media) (accounts : List Health)
      → is_waiting_status m.status ≡ true
      → count_by (λ a. a.id == m.account_id) accounts ≤ 1
      → offers source now db m accounts
        ≡ one_if (ready_with true none (find_by (λ a. a.id == m.account_id) accounts) m)
  unfolding offers ready_with count_by find_by
  offers-ready m [] waiting h = refl
  offers-ready m (a ∷ accounts) waiting h = elim (Bool-cases (a.id == m.account_id)) [
    | inl e ↦
        let none_left = offers-absent m accounts (ground arith) in
        rw (e, find_by) (omega (arith, own_account a m waiting e, none_left))
    | inr e ↦
        rw (e, find_by)
          (omega (arith, other_account a m e, offers-ready m accounts waiting (ground arith)))
  ]

  -- What is not waiting is offered to none.
  offers-settled :
      (m : Media) (accounts : List Health)
      → is_waiting_status m.status ≡ false
      → offers source now db m accounts ≡ 0
  unfolding offers is_wanted
  offers-settled m [] h = refl
  offers-settled m (a ∷ accounts) h = ground (arith, offers-settled m accounts h)

  all_offers-ready :
      (accounts : List Health) (ms : List Media)
      → ((id : ℕ) → count_by (λ a. a.id == id) accounts ≤ 1)
      → all_offers source now db accounts ms
        ≡ count_by
            (λ m. ready_with true none (find_by (λ a. a.id == m.account_id) accounts) m)
            (select (λ m. is_waiting_status m.status) ms)
  unfolding all_offers count_by select
  all_offers-ready accounts [] unique = refl
  all_offers-ready accounts (m ∷ ms) unique = elim (Bool-cases (is_waiting_status m.status)) [
    | inl waiting ↦ rw waiting (
        ground (
          arith,
          offers-ready m accounts waiting (unique m.account_id),
          all_offers-ready accounts ms unique,
        ))
    | inr settled ↦
        rw settled
          (omega (arith, offers-settled m accounts settled, all_offers-ready accounts ms unique))
  ]

  count_reason-ready :
      (r : Reason) (b : Backlog) → (count_reason r b).ready ≡ b.ready + one_if (is_ready r)
  count_reason-ready Reason.ready b = refl
  count_reason-ready Reason.other_source b = omega arith
  count_reason-ready Reason.ineligible b = omega arith
  count_reason-ready Reason.paused b = omega arith
  count_reason-ready Reason.retry_wait b = omega arith
  count_reason-ready Reason.source_wait b = omega arith

  module _ (enabled : Bool) (cooldown : Option SourceState) (accounts : List Health) where
    count_row-ready :
        (a : Option Health) (m : Media) (b : Backlog)
        → (count_row source enabled now cooldown a m db b).ready
          ≡ b.ready + one_if (ready_with enabled cooldown a m)
    unfolding ready_with
    count_row-ready none m b = omega arith
    count_row-ready (some a) m b =
        count_reason-ready (reason_of source enabled now cooldown a m db) b

    count_rows-ready :
        (ms : List Media) (b : Backlog)
        → (count_rows source enabled now cooldown accounts ms db b).ready
          ≡ b.ready
            + count_by
                (λ m. ready_with enabled cooldown (find_by (λ a. a.id == m.account_id) accounts) m)
                ms
    unfolding count_rows count_by
    count_rows-ready [] b = omega arith
    count_rows-ready (m ∷ ms) b =
        let a = find_by (λ (a : Health). a.id == m.account_id) accounts in
        ground (
          arith,
          count_row-ready a m b,
          count_rows-ready ms (count_row source enabled now cooldown a m db b),
        )

    not_ready :
        (a : Option Health) (m : Media)
        → enabled && not (is_some cooldown) ≡ false
        → ready_with enabled cooldown a m ≡ false
    unfolding ready_with reason_of
    not_ready none m off = refl
    not_ready (some a) m off = ground arith

    -- With the download off, or in a cooldown, nothing is ready.
    never_ready :
        (ms : List Media)
        → enabled && not (is_some cooldown) ≡ false
        → count_by
            (λ m. ready_with enabled cooldown (find_by (λ a. a.id == m.account_id) accounts) m)
            ms
          ≡ 0
    unfolding count_by
    never_ready [] off = refl
    never_ready (m ∷ ms) off =
        let a = find_by (λ (a : Health). a.id == m.account_id) accounts in
        rw (not_ready a m off) (never_ready ms off)

ready_rows :
    (source : SourceName) (enabled : Bool) (now : ℕ) (cooldown : Option SourceState)
    (accounts : List Health) (db : MediaTables)
    → ((id : ℕ) → count_by (λ a. a.id == id) accounts ≤ 1)
    → (count_rows source enabled now cooldown accounts
        (select (λ m. is_waiting_status m.status) db.media)
        db
        empty_backlog).ready
      ≡ (if enabled && not (is_some cooldown) then offered source now db accounts else 0)
ready_rows source true now none accounts db unique =
    let rows = select (λ (m : Media). is_waiting_status m.status) db.media in
    omega (
      arith,
      count_rows-ready source now db true none accounts rows empty_backlog,
      all_offers-ready source now db accounts db.media unique,
      offered-eq source now db accounts,
    )
ready_rows source true now (some s) accounts db unique =
    let rows = select (λ (m : Media). is_waiting_status m.status) db.media in
    omega (
      arith,
      count_rows-ready source now db true (some s) accounts rows empty_backlog,
      never_ready source now db true (some s) accounts rows refl,
    )
ready_rows source false now cooldown accounts db unique =
    let rows = select (λ (m : Media). is_waiting_status m.status) db.media in
    omega (
      arith,
      count_rows-ready source now db false cooldown accounts rows empty_backlog,
      never_ready source now db false cooldown accounts rows refl,
    )

-- Where no two accounts have the same id: the count `ready` of the backlog of a source is the number
-- of media that `pending_media` gives for the eligible accounts together, with no limit that bites
-- (as many rows as the table has); it is 0 if the download is not enabled or the source is in a
-- cooldown.
pub media_backlog-ready :
    (source : SourceName) (enabled : Bool) (now : ℕ) (accounts : List Health)
    (sources : SourceTables) (db : MediaTables)
    → ((id : ℕ) → count_by (λ a. a.id == id) accounts ≤ 1)
    → (media_backlog source enabled now accounts sources db).0.ready ≡ (
        if enabled && not (is_some (media_cooldown source now sources))
        then offered source now db accounts
        else 0)
unfolding media_backlog
media_backlog-ready source enabled now accounts sources db unique =
    ready_rows source enabled now (media_cooldown source now sources) accounts db unique
