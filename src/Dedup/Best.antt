-- ===== src/Dedup/Best.antt =====
-- The choice of the copy that a group keeps.
use ig_anonymous_monitor.Base.{
  ℕ, ◌*◌, ◌<◌, ◌≤◌, ◌⊎◌, ◌≡◌, refl, Bool, true, false, ◌&&◌, ◌||◌, List, [], ◌∷◌, ltb, ◌==◌,
  if◌then◌else◌, arith, Bool-cases, inl, inr, All, In,
}
use native.Mathlib.Decide.{dec_lt}
use ig_anonymous_monitor.Media.Tables.{video}
use ig_anonymous_monitor.Fingerprint.{Quality, quality_rank, exceeds, or_zero}
use ig_anonymous_monitor.Dedup.Grouping.{Group, entries_of, entry_exceeds, best_from, canonical_of}
use ig_anonymous_monitor.Dedup.Analyze.{Entry}

-- One level of the order of tuples.
lex : ℕ → ℕ → Bool → Bool
lex a b rest = ltb b a || ((a == b) && rest)

lex_trans :
    (x y b : ℕ) (p q r : Bool)
    → lex x b p ≡ false
    → lex y b q ≡ true
    → (p ≡ false → q ≡ true → r ≡ false)
    → lex x y r ≡ false
unfolding lex
lex_trans x y b p q r h g f = ground (arith, f)

exceeds-lex :
    (a b : Quality)
    → exceeds a b
      ≡ lex a.pixels b.pixels (
          lex a.bitrate b.bitrate
            (lex a.size_bytes b.size_bytes (ltb a.downloaded_order b.downloaded_order)))
unfolding exceeds lex
exceeds-lex a b = refl

order_trans : (x y b : ℕ) → ltb x b ≡ false → ltb y b ≡ true → ltb x y ≡ false
order_trans x y b h g = ground arith

-- What is no better than the second is no better than one that is better than the second.
exceeds_trans : (x y b : Quality) → exceeds x b ≡ false → exceeds y b ≡ true → exceeds x y ≡ false
exceeds_trans x y b h g = rw (exceeds-lex x y) (
    lex_trans x.pixels y.pixels b.pixels _ _ _ (rw (exceeds-lex x b) at h)
      (rw (exceeds-lex y b) at g)
      (λ h2 g2. lex_trans x.bitrate y.bitrate b.bitrate _ _ _ h2 g2 (λ h3 g3.
        lex_trans x.size_bytes y.size_bytes b.size_bytes _ _ _ h3 g3
          (λ h4 g4. order_trans x.downloaded_order y.downloaded_order b.downloaded_order h4 g4))))

exceeds_irrefl : (a : Quality) → exceeds a a ≡ false
unfolding exceeds
exceeds_irrefl a = ground arith

entry_exceeds_trans :
    (x y b : Entry)
    → entry_exceeds x b ≡ false
    → entry_exceeds y b ≡ true
    → entry_exceeds x y ≡ false
unfolding entry_exceeds
entry_exceeds_trans x y b h g =
    exceeds_trans (quality_rank x.fingerprint x.row.id) (quality_rank y.fingerprint y.row.id)
      (quality_rank b.fingerprint b.row.id) h g

entry_exceeds_irrefl : (e : Entry) → entry_exceeds e e ≡ false
unfolding entry_exceeds
entry_exceeds_irrefl e = exceeds_irrefl (quality_rank e.fingerprint e.row.id)

best_from-above :
    (e best : Entry) (es : List Entry)
    → entry_exceeds e best ≡ false
    → entry_exceeds e (best_from best es) ≡ false
unfolding best_from
best_from-above e best [] h = h
best_from-above e best (x ∷ es) h = elim (Bool-cases (entry_exceeds x best)) [
  | inl better ↦
      rw (better, best_from) (best_from-above e x es (entry_exceeds_trans e x best h better))
  | inr worse ↦ rw (worse, best_from) (best_from-above e best es h)
]

best_from-second :
    (best x : Entry) (es : List Entry) → entry_exceeds x (best_from best (x ∷ es)) ≡ false
unfolding best_from
best_from-second best x es = elim (Bool-cases (entry_exceeds x best)) [
  | inl better ↦ rw (better, best_from) (best_from-above x x es (entry_exceeds_irrefl x))
  | inr worse ↦ rw (worse, best_from) (best_from-above x best es worse)
]

best_from-best :
    (best : Entry) (es : List Entry) → All (λ e. entry_exceeds e (best_from best es) ≡ false) es
unfolding best_from
best_from-best best [] = tt
best_from-best best (x ∷ es) =
    (best_from-second best x es, best_from-best (if entry_exceeds x best then x else best) es)

either_of :
    (b : Bool) (a x best : Entry) (es : List Entry)
    → In a ((if b then x else best) ∷ es)
    → In a (best ∷ x ∷ es)
either_of true a x best es m = inr m
either_of false a x best es (inl e) = inl e
either_of false a x best es (inr m) = inr (inr m)

pub best_from-In : (best : Entry) (es : List Entry) → In (best_from best es) (best ∷ es)
unfolding best_from
best_from-In best [] = inl refl
best_from-In best (x ∷ es) =
    either_of (entry_exceeds x best) (best_from best (x ∷ es)) x best es
      (best_from-In (if entry_exceeds x best then x else best) es)

abbrev pub pixels_of : Entry → ℕ
pixels_of e = e.fingerprint.width * e.fingerprint.height

-- The bit rate of a video, 0 of a picture.
abbrev pub bitrate_of : Entry → ℕ
bitrate_of e = if e.fingerprint.kind == video then or_zero e.fingerprint.bitrate else 0

-- The entry has fewer pixels; or as many, and a lower bit rate; or both as high, and a smaller file;
-- or all three the same, and no earlier row.
abbrev pub IsNoBetter : Entry → Entry → Type 0
IsNoBetter e k =
    (pixels_of e < pixels_of k)
    ⊎ ((pixels_of e ≡ pixels_of k)
        × ((bitrate_of e < bitrate_of k)
            ⊎ ((bitrate_of e ≡ bitrate_of k)
                × ((e.fingerprint.size_bytes < k.fingerprint.size_bytes)
                    ⊎ ((e.fingerprint.size_bytes ≡ k.fingerprint.size_bytes)
                        × (k.row.id ≤ e.row.id))))))

lex-below : (a b : ℕ) (rest : Bool) → lex a b rest ≡ false → (a < b) ⊎ ((a ≡ b) × (rest ≡ false))
unfolding lex
lex-below a b rest h = elim (dec_lt a b) [
  | yes less ↦ inl less
  | no more ↦ inr (ground arith, ground arith)
]

order-below : (a b : ℕ) → ltb a b ≡ false → b ≤ a
order-below a b h = ground arith

exceeds-IsNoBetter : (e k : Entry) → entry_exceeds e k ≡ false → IsNoBetter e k
unfolding entry_exceeds quality_rank
exceeds-IsNoBetter e k h =
    elim (lex-below _ _ _ (
      rw (exceeds-lex (quality_rank e.fingerprint e.row.id) (quality_rank k.fingerprint k.row.id))
        at h)) [
          | inl less ↦ inl less
          | inr (pixels, h2) ↦ inr (
            pixels,
            elim (lex-below _ _ _ h2) [
              | inl less ↦ inl less
              | inr (rate, h3) ↦ inr (
                rate,
                elim (lex-below _ _ _ h3) [
                  | inl less ↦ inl less
                  | inr (size, h4) ↦ inr (size, order-below e.row.id k.row.id h4)
                ],
              )
            ],
          )
        ]

All-imp : (P Q : Entry → Type 0) (es : List Entry) → ((e : Entry) → P e → Q e) → All P es → All Q es
All-imp P Q [] f h = tt
All-imp P Q (e ∷ es) f h = (f e h.0, All-imp P Q es f h.1)

-- The copy that a group keeps is one of the group, and no other is better: by its pixels, then by
-- the bit rate of a video, by the size of the file, and the earlier row.
pub canonical-best :
    (group : Group)
    → In (canonical_of group) (entries_of group)
      × All (λ e. IsNoBetter e (canonical_of group)) (entries_of group)
canonical-best group = (
  best_from-In group.sample group.others,
  All-imp (λ e. entry_exceeds e (canonical_of group) ≡ false)
      (λ e. IsNoBetter e (canonical_of group)) (entries_of group)
      (λ e. exceeds-IsNoBetter e (canonical_of group))
      (
        best_from-above group.sample group.sample group.others (entry_exceeds_irrefl group.sample),
        best_from-best group.sample group.others,
      ),
)
