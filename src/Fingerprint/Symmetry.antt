-- ===== src/Fingerprint/Symmetry.antt =====
-- The similarity of two fingerprints, in either order.
use ig_anonymous_monitor.Base.{
  ℕ, ◌*◌, max, ◌≡◌, refl, ap, ◌∙◌, true, false, ◌||◌, not, Option, none, some, List, [], ◌∷◌,
  length, ltb, leb, ◌==◌, arith, Bool-cases, inl, inr, ==→eq,
}
use ig_anonymous_monitor.Media.Tables.{image}
use ig_anonymous_monitor.Fingerprint.{
  MediaFingerprint, DedupConfig, difference, same_aspect_ratio, within, colors_differ,
  frames_within, or_zero, durations_differ, is_similar,
}
use ig_anonymous_monitor.Fingerprint.Distance.{hash_distance_comm}

difference_comm : (a b : ℕ) → difference a b ≡ difference b a
difference_comm a b = omega arith

max_comm : (a b : ℕ) → max a b ≡ max b a
max_comm a b = omega arith

same_aspect_ratio_comm :
    (f g : MediaFingerprint) (t : ℕ) → same_aspect_ratio f g t ≡ same_aspect_ratio g f t
unfolding same_aspect_ratio
same_aspect_ratio_comm f g t =
    rw
      (
        difference_comm (f.width * g.height) (g.width * f.height),
        max_comm (f.width * g.height) (g.width * f.height),
      )
      (ground arith)

within_comm : (k : ℕ) (a b : Option ℕ) → within k a b ≡ within k b a
within_comm k none none = refl
within_comm k none (some b) = refl
within_comm k (some a) none = refl
within_comm k (some a) (some b) = ap (λ d. leb d k) (hash_distance_comm a b)

colors_differ_comm : (k : ℕ) (a b : Option ℕ) → colors_differ k a b ≡ colors_differ k b a
colors_differ_comm k none none = refl
colors_differ_comm k none (some b) = refl
colors_differ_comm k (some a) none = refl
colors_differ_comm k (some a) (some b) = ap (λ d. ltb k d) (hash_distance_comm a b)

frames_within_comm : (k : ℕ) (ls rs : List ℕ) → frames_within k ls rs ≡ frames_within k rs ls
unfolding frames_within
frames_within_comm k [] [] = refl
frames_within_comm k [] (b ∷ rs) = refl
frames_within_comm k (a ∷ ls) [] = refl
frames_within_comm k (a ∷ ls) (b ∷ rs) =
    rw (hash_distance_comm a b, frames_within_comm k ls rs) refl

durations_differ_comm :
    (a b : ℕ) (config : DedupConfig) → durations_differ a b config ≡ durations_differ b a config
durations_differ_comm a b config = rw (difference_comm a b, max_comm a b) refl

==_comm : (a b : ℕ) → (a == b) ≡ (b == a)
==_comm a b = ground arith

mismatch_comm : (a b : ℕ) → (a == 0) || not (a == b) ≡ (b == 0) || not (b == a)
mismatch_comm a b = ground arith

-- Two fingerprints are similar in one order exactly when they are in the other.
pub is_similar_comm :
    (first second : MediaFingerprint) (config : DedupConfig)
    → is_similar first second config ≡ is_similar second first config
unfolding is_similar
is_similar_comm f g config = elim (Bool-cases (f.kind == g.kind)) [
  | inl e ↦
      let e' : (g.kind == f.kind) ≡ true = ==_comm g.kind f.kind ∙ e in
      let kinds : (f.kind == image) ≡ (g.kind == image) =
        ap (λ k. k == image) (==→eq f.kind g.kind e) in
      rw
        (
          e,
          e',
          kinds,
          same_aspect_ratio_comm f g config.aspect_ratio_tolerance_percent,
          within_comm config.image_phash_distance f.image_phash g.image_phash,
          colors_differ_comm config.image_phash_distance f.image_colorhash g.image_colorhash,
          mismatch_comm (length f.frame_phashes) (length g.frame_phashes),
          durations_differ_comm (or_zero f.duration_seconds) (or_zero g.duration_seconds) config,
          frames_within_comm config.image_phash_distance f.frame_phashes g.frame_phashes,
        )
        refl
  | inr e ↦ let e' : (g.kind == f.kind) ≡ false = ==_comm g.kind f.kind ∙ e in rw (e, e') refl
]
