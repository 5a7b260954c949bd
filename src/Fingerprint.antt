-- ===== src/Fingerprint.antt =====
-- The fingerprints of pictures and videos and when two are similar (ig_monitor/dedup.py, and
-- `DedupConfig` of ig_monitor/config.py). A perceptual hash is the number that its hexadecimal text
-- stands for; durations are in milliseconds, percentages in hundredths of a percent, and a
-- comparison of quotients is that of the exact fractions, multiplied out.
pub mod Distance
pub mod Symmetry
use Prim.Native.Nat.{bit_xor}
use ig_anonymous_monitor.Base.{
  ℕ, zero, suc, ◌+◌, ◌-◌, ◌*◌, ◌/◌, ◌%◌, Bool, true, false, ◌&&◌, ◌||◌, not, Option, none, some,
  List, [], ◌∷◌, length, ltb, leb, ◌==◌, if◌then◌else◌, max,
}
use ig_anonymous_monitor.Media.Tables.{image, video}

pub record MediaFingerprint : Type 0 where
  pub kind : ℕ
  pub width : ℕ
  pub height : ℕ
  pub size_bytes : ℕ
  pub image_phash : Option ℕ
  pub image_colorhash : Option ℕ
  pub duration_seconds : Option ℕ
  pub bitrate : Option ℕ
  pub frame_phashes : List ℕ

pub record DedupConfig : Type 0 where
  pub enabled : Bool
  pub image_phash_distance : ℕ
  pub aspect_ratio_tolerance_percent : ℕ
  pub video_duration_tolerance_seconds : ℕ
  pub video_duration_tolerance_percent : ℕ

-- `int.bit_count`, by the binary digits from the lowest; a number has fewer digits than its value.
unfoldable pub bit_count_from : ℕ → ℕ → ℕ
bit_count_from zero n = 0
bit_count_from (suc fuel) zero = 0
bit_count_from (suc fuel) (suc n) = suc n % 2 + bit_count_from fuel (suc n / 2)

unfoldable pub hash_distance : ℕ → ℕ → ℕ
unfolding bit_count_from
hash_distance first second = bit_count_from (bit_xor first second) (bit_xor first second)

-- `abs(first - second)`
abbrev pub difference : ℕ → ℕ → ℕ
difference first second = (first - second) + (second - first)

-- first.width / first.height and second.width / second.height, both times the two heights
unfoldable pub same_aspect_ratio : MediaFingerprint → MediaFingerprint → ℕ → Bool
same_aspect_ratio first second tolerance_percent =
    let first_ratio = first.width * second.height in
    let second_ratio = second.width * first.height in
    not ((first.width == 0) || (first.height == 0) || (second.width == 0) || (second.height == 0))
    && leb (difference first_ratio second_ratio * 10_000)
        (tolerance_percent * max first_ratio second_ratio)

abbrev pub within : ℕ → Option ℕ → Option ℕ → Bool
within limit none second = false
within limit (some first) none = false
within limit (some first) (some second) = leb (hash_distance first second) limit

-- The colour hashes are compared only where both are there.
abbrev pub colors_differ : ℕ → Option ℕ → Option ℕ → Bool
colors_differ limit none second = false
colors_differ limit (some first) none = false
colors_differ limit (some first) (some second) = ltb limit (hash_distance first second)

-- `all(.. for left, right in zip(first, second))`
unfoldable pub frames_within : ℕ → List ℕ → List ℕ → Bool
frames_within limit [] second = true
frames_within limit (left ∷ first) [] = true
frames_within limit (left ∷ first) (right ∷ second) =
    leb (hash_distance left right) limit && frames_within limit first second

-- `value or 0`
abbrev pub or_zero : Option ℕ → ℕ
or_zero none = 0
or_zero (some n) = n

abbrev pub durations_differ : ℕ → ℕ → DedupConfig → Bool
durations_differ first second config =
    let absolute = difference first second in
    ltb config.video_duration_tolerance_seconds absolute
    && ltb (config.video_duration_tolerance_percent * max (max first second) 1) (absolute * 10_000)

unfoldable pub is_similar : MediaFingerprint → MediaFingerprint → DedupConfig → Bool
unfolding same_aspect_ratio frames_within
is_similar first second config =
    if not (first.kind == second.kind)
    then false
    else if not (same_aspect_ratio first second config.aspect_ratio_tolerance_percent)
    then false
    else if first.kind == image
    then within config.image_phash_distance first.image_phash second.image_phash
      && not
          (colors_differ config.image_phash_distance first.image_colorhash second.image_colorhash)
    else if (length first.frame_phashes == 0)
        || not (length first.frame_phashes == length second.frame_phashes)
    then false
    else if durations_differ (or_zero first.duration_seconds) (or_zero second.duration_seconds)
        config
    then false
    else frames_within config.image_phash_distance first.frame_phashes second.frame_phashes

-- The last component, `-downloaded_order`, counts the other way: it is kept as the order itself.
pub record Quality : Type 0 where
  pub pixels : ℕ
  pub bitrate : ℕ
  pub size_bytes : ℕ
  pub downloaded_order : ℕ

unfoldable pub quality_rank : MediaFingerprint → ℕ → Quality
quality_rank fingerprint downloaded_order = record {
  pixels = fingerprint.width * fingerprint.height;
  bitrate = if fingerprint.kind == video then or_zero fingerprint.bitrate else 0;
  size_bytes = fingerprint.size_bytes;
  downloaded_order = downloaded_order;
}

-- The order of the tuples: `first > second`.
unfoldable pub exceeds : Quality → Quality → Bool
exceeds first second =
    ltb second.pixels first.pixels
    || ((first.pixels == second.pixels)
        && (ltb second.bitrate first.bitrate
            || ((first.bitrate == second.bitrate)
                && (ltb second.size_bytes first.size_bytes
                    || ((first.size_bytes == second.size_bytes)
                        && ltb first.downloaded_order second.downloaded_order)))))
