-- ===== src/Reasons.antt =====
-- `_collector_fatal_reason` and `_target_ineligible_reason` (ig_monitor/relationships.py): what of
-- an exception's text may be stored. A text is the list of its code points.
pub mod Laws
use Prim.Native.Char.{code}
use Prim.Native.String.{String}
use ig_anonymous_monitor.Base.{
  ℕ, Bool, true, false, ◌&&◌, ◌||◌, List, [], ◌∷◌, leb, ◌==◌, if◌then◌else◌, length,
}
use ig_anonymous_monitor.Store.{Text}

abbrev pub codes : String → List ℕ
codes String.[] = []
codes (String.◌∷◌ c s) = code c ∷ codes s

-- The characters that `str.strip` removes: those with `str.isspace`.
unfoldable pub is_space : ℕ → Bool
is_space c =
    (leb 9 c && leb c 13)
    || (leb 28 c && leb c 32)
    || (c == 0x85)
    || (c == 0xA0)
    || (c == 0x1680)
    || (leb 0x2000 c && leb c 0x200A)
    || (c == 0x2028)
    || (c == 0x2029)
    || (c == 0x202F)
    || (c == 0x205F)
    || (c == 0x3000)

unfoldable pub strip_left : Text → Text
strip_left [] = []
strip_left (c ∷ cs) = let rest = strip_left cs in if is_space c then rest else c ∷ cs

-- Drops the spaces at the end.
unfoldable pub strip_right : Text → Text
strip_right [] = []
strip_right (c ∷ cs) = elim (strip_right cs) [
  | [] ↦ if is_space c then [] else c ∷ []
  | d ∷ ds ↦ c ∷ d ∷ ds
]

unfoldable pub strip : Text → Text
unfolding strip_left strip_right is_space
strip cs = strip_left (strip_right cs)

unfoldable pub is_letter : ℕ → Bool
is_letter c = (leb b'A' c && leb c b'Z') || (leb b'a' c && leb c b'z')

unfoldable pub is_word : ℕ → Bool
unfolding is_letter
is_word c = is_letter c || (leb b'0' c && leb c b'9') || (c == b'_') || (c == b'-')

unfoldable pub all_word : Text → Bool
unfolding is_word
all_word [] = true
all_word (c ∷ cs) = is_word c && all_word cs

-- `re.fullmatch(r"[A-Za-z][A-Za-z0-9_-]{0,79}", ..)`
unfoldable pub is_reason : Text → Bool
unfolding all_word is_letter
is_reason [] = false
is_reason (c ∷ cs) = is_letter c && leb (length cs) 79 && all_word cs

unfoldable pub safe_reason : Text → Text → Text
unfolding strip is_reason
safe_reason fallback message =
    let reason = strip message in if is_reason reason then reason else fallback

unfoldable pub collector_fatal_reason : Text → Text
unfolding safe_reason
collector_fatal_reason = safe_reason (codes "CollectorFatalError")

unfoldable pub target_ineligible_reason : Text → Text
unfolding safe_reason
target_ineligible_reason = safe_reason (codes "TargetIneligibleError")
