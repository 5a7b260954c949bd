-- ===== src/Cooldown/Refusal.antt =====
-- Blocks of a source, and when it is asked again (ig_monitor/anonymous_store.py).
use ig_anonymous_monitor.Base.{
  ℕ, ◌+◌, ◌≤◌, ◌≡◌, refl, inl, inr, true, ◌&&◌, Option, none, some, [], ◌∷◌, ◌++◌, arith, lt→ltb,
  Bool-cases, Option-cases, find_by-update_where, find_by-append_one, eq_self, is_some,
  if◌then◌else◌, sym, subst,
}
use ig_anonymous_monitor.Store.{Text}
use ig_anonymous_monitor.Cooldown.{
  SourceName, SourceState, SourceTables, same_source, is_later, state_of, next_of, own_cooldown,
  media_first, source_cooldown, outlasts, is_global_refusal, text_of, new_state, delay_minutes,
  blocked, block_row, record_source_block, record_source_recovery, recover_row, media_cooldown,
  or_query, record_media_block,
}

same_source_self : (s : SourceName) → same_source s s ≡ true
same_source_self SourceName.igwatcher = refl
same_source_self SourceName.igwatcher_media = refl
same_source_self (SourceName.other_name n) = eq_self n

delay_minutes-pos : (s : SourceName) (count : ℕ) → 10 ≤ delay_minutes s count
delay_minutes-pos SourceName.igwatcher count = ground arith
delay_minutes-pos SourceName.igwatcher_media count = ground arith
delay_minutes-pos (SourceName.other_name n) count = ground arith

-- The source's row holds it back at the time.
abbrev pub IsHeld : SourceName → ℕ → SourceTables → Type 0
IsHeld source now db =
    (row : SourceState) × (state_of source db.states ≡ some row)
    × (is_later row.next_allowed_at now ≡ true)

block_row-IsHeld :
    (source : SourceName) (error : Text) (now : ℕ) (row : SourceState) (db : SourceTables)
    → state_of source db.states ≡ some row
    → IsHeld source now (block_row source error now row db)
unfolding block_row state_of
block_row-IsHeld source error now row db found =
    elim (Bool-cases (is_later row.next_allowed_at now)) [
      | inl e ↦ rw e (row, found, e)
      | inr e ↦
          let d = delay_minutes-pos row.source (row.block_count + 1) in
          rw e (
            blocked error now row,
            find_by-update_where (λ s. same_source s.source source) (blocked error now) db.states
                row (λ y h. h) found,
            lt→ltb _ _ (omega (arith, d)),
          )
    ]

record_source_block-IsHeld :
    (source : SourceName) (error : Text) (now : ℕ) (db : SourceTables)
    → IsHeld source now (record_source_block source error now db)
unfolding record_source_block state_of
record_source_block-IsHeld source error now db = elim (Option-cases (state_of source db.states)) [
  | inl absent ↦
      rw (absent, record_source_block)
        (block_row-IsHeld source error now (new_state source)
          (record db { states = db.states ++ new_state source ∷ [] })
          (find_by-append_one (λ s. same_source s.source source) db.states (new_state source) absent
            (same_source_self source)))
  | inr (row, found) ↦
      rw (found, record_source_block) (block_row-IsHeld source error now row db found)
]

own_held :
    (row : Option SourceState) (r : SourceState) (now : ℕ)
    → row ≡ some r
    → is_later r.next_allowed_at now ≡ true
    → is_some (own_cooldown row now) ≡ true
own_held none r now e h = absurd (cc)
own_held (some s) r now e h =
    let same : s ≡ r = cc in
    let later = subst (λ (z : SourceState). is_later z.next_allowed_at now ≡ true) (sym same) h in
    rw later refl

media_held :
    (media row : Option SourceState) (r : SourceState) (now : ℕ)
    → row ≡ some r
    → is_later r.next_allowed_at now ≡ true
    → is_some (media_first media row now) ≡ true
media_held none row r now e h = own_held row r now e h
media_held (some m) row r now e h =
    elim (Bool-cases (
      is_later m.next_allowed_at now
      && is_global_refusal (text_of m.error)
      && outlasts m.next_allowed_at (next_of row))) [
        | inl k ↦ rw k refl
        | inr k ↦ rw k (own_held row r now e h)
      ]

source_cooldown-held :
    (source : SourceName) (now : ℕ) (db : SourceTables)
    → IsHeld source now db
    → is_some (source_cooldown source now db) ≡ true
unfolding source_cooldown
source_cooldown-held SourceName.igwatcher now db (r, found, h) = media_held _ _ r now found h
source_cooldown-held SourceName.igwatcher_media now db (r, found, h) = own_held _ r now found h
source_cooldown-held (SourceName.other_name n) now db (r, found, h) = own_held _ r now found h

-- Once a block of a source has been recorded, the source is refused at that time, whatever was
-- recorded before; and a recovery that is recorded at that time does not lift the refusal.
pub record_source_block-refuses :
    (source : SourceName) (error : Text) (now : ℕ) (db : SourceTables)
    → let db' = record_source_block source error now db in
      (is_some (source_cooldown source now db') ≡ true)
      × (record_source_recovery source now db' ≡ db')
unfolding record_source_recovery recover_row
record_source_block-refuses source error now db =
    let held = record_source_block-IsHeld source error now db in
    (
      source_cooldown-held source now (record_source_block source error now db) held,
      rw (held.1, record_source_recovery) (rw held.2 refl),
    )

or_query-first :
    (media query : Option SourceState)
    → is_some media ≡ true
    → is_some (or_query media query) ≡ true
or_query-first none query h = absurd (cc)
or_query-first (some media) query h = refl

-- Once a refusal of downloads has been recorded, downloads are refused at that time, whatever was
-- recorded before.
pub record_media_block-refuses :
    (source : SourceName) (error : Text) (now : ℕ) (db : SourceTables)
    → is_some (media_cooldown source now (record_media_block source error now db)) ≡ true
unfolding media_cooldown record_media_block
record_media_block-refuses SourceName.igwatcher error now db =
    let first =
      if is_global_refusal error
      then record_source_block SourceName.igwatcher error now db
      else db in
    or_query-first _ _ (record_source_block-refuses SourceName.igwatcher_media error now first).0
record_media_block-refuses SourceName.igwatcher_media error now db =
    (record_source_block-refuses SourceName.igwatcher_media error now db).0
record_media_block-refuses (SourceName.other_name n) error now db =
    (record_source_block-refuses (SourceName.other_name n) error now db).0
