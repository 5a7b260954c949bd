-- ===== src/Reasons/Laws.antt =====
-- What is stored of an exception's text.
use native.Mathlib.Decide.{dec_lt}
use ig_anonymous_monitor.Base.{
  ℕ, ◌+◌, ◌≤◌, ◌⊎◌, inl, inr, ◌≡◌, refl, true, false, ◌&&◌, leb, ◌==◌, [], ◌∷◌, ◌++◌, length, All,
  Bool-cases, arith,
}
use ig_anonymous_monitor.Store.{Text}
use ig_anonymous_monitor.Reasons.{
  is_reason, strip, strip_left, strip_right, safe_reason, is_space, all_word, is_word, is_letter,
  collector_fatal_reason,
}

abbrev pub IsLetter : ℕ → Type 0
IsLetter c = ((b'A' ≤ c) × (c ≤ b'Z')) ⊎ ((b'a' ≤ c) × (c ≤ b'z'))

-- A letter, a digit, `_` or `-`.
abbrev pub IsWord : ℕ → Type 0
IsWord c = IsLetter c ⊎ ((b'0' ≤ c) × (c ≤ b'9')) ⊎ (c ≡ b'_') ⊎ (c ≡ b'-')

-- At most 80 such characters, the first a letter.
abbrev pub IsReason : Text → Type 0
IsReason [] = ⊥
IsReason (c ∷ cs) = IsLetter c × (length cs + 1 ≤ 80) × All IsWord cs

is_letter-IsLetter : (c : ℕ) → is_letter c ≡ true → IsLetter c
unfolding is_letter
is_letter-IsLetter c h = elim (dec_lt b'Z' c) [
  | yes above ↦ inr (ground arith, ground arith)
  | no below ↦ inl (ground arith, ground arith)
]

IsLetter-is_letter : (c : ℕ) → IsLetter c → is_letter c ≡ true
unfolding is_letter
IsLetter-is_letter c h = ground arith

is_word-IsWord : (c : ℕ) → is_word c ≡ true → IsWord c
unfolding is_word
is_word-IsWord c h = elim (Bool-cases (is_letter c)) [
  | inl letter ↦ inl (is_letter-IsLetter c letter)
  | inr e ↦ elim (Bool-cases (leb b'0' c && leb c b'9')) [
    | inl digit ↦ inr (inl (ground arith, ground arith))
    | inr d ↦ elim (Bool-cases (c == b'_')) [
      | inl u ↦ inr (inr (inl (ground arith)))
      | inr u ↦ inr (inr (inr (ground arith)))
    ]
  ]
]

IsWord-is_word : (c : ℕ) → IsWord c → is_word c ≡ true
unfolding is_word
IsWord-is_word c (inl letter) = rw (IsLetter-is_letter c letter)
IsWord-is_word c (inr h) = ground arith

all_word-IsWord : (cs : Text) → all_word cs ≡ true → All IsWord cs
unfolding all_word
all_word-IsWord [] h = tt
all_word-IsWord (c ∷ cs) h = (is_word-IsWord c (ground arith), all_word-IsWord cs (ground arith))

IsWord-all_word : (cs : Text) → All IsWord cs → all_word cs ≡ true
unfolding all_word
IsWord-all_word [] h = refl
IsWord-all_word (c ∷ cs) h = rw (IsWord-is_word c h.0, IsWord-all_word cs h.1)

is_reason-IsReason : (cs : Text) → is_reason cs ≡ true → IsReason cs
unfolding is_reason
is_reason-IsReason [] h = cc
is_reason-IsReason (c ∷ cs) h =
    (is_letter-IsLetter c (ground arith), ground arith, all_word-IsWord cs (ground arith))

IsReason-is_reason : (cs : Text) → IsReason cs → is_reason cs ≡ true
unfolding is_reason
IsReason-is_reason [] h = absurd h
IsReason-is_reason (c ∷ cs) h =
    rw (IsLetter-is_letter c h.0, IsWord-all_word cs h.2) (ground (arith, h.1))

-- A reason's characters are no spaces, so `strip` leaves it as it is.
word_no_space : (c : ℕ) → is_word c ≡ true → is_space c ≡ false
unfolding is_word is_space
word_no_space c h = ground arith

strip_right-all_word : (cs : Text) → all_word cs ≡ true → strip_right cs ≡ cs
unfolding strip_right all_word
strip_right-all_word [] h = refl
strip_right-all_word (c ∷ []) h = ground (arith, word_no_space c)
strip_right-all_word (c ∷ d ∷ cs) h = ground (arith, strip_right-all_word (d ∷ cs))

is_letter-is_word : (c : ℕ) → is_letter c ≡ true → is_word c ≡ true
unfolding is_word
is_letter-is_word c h = ground arith

strip_right-spaces : (cs : Text) → All (λ c. is_space c ≡ true) cs → strip_right cs ≡ []
unfolding strip_right
strip_right-spaces [] h = refl
strip_right-spaces (c ∷ cs) h = rw (strip_right-spaces cs h.1, strip_right) (rw h.0)

-- Spaces at the end are dropped.
strip_right-append :
    (cs after : Text)
    → All (λ c. is_space c ≡ true) after
    → strip_right (cs ++ after) ≡ strip_right cs
unfolding strip_right
strip_right-append [] after h = strip_right-spaces after h
strip_right-append (c ∷ cs) after h = rw (strip_right-append cs after h, strip_right) refl

-- A word at the end keeps what stands before it.
strip_right-keeps :
    (before : Text) (r : ℕ) (rs : Text)
    → all_word (r ∷ rs) ≡ true
    → strip_right (before ++ r ∷ rs) ≡ before ++ r ∷ rs
unfolding strip_right
strip_right-keeps [] r rs h = strip_right-all_word (r ∷ rs) h
strip_right-keeps (c ∷ []) r rs h = rw (strip_right-keeps [] r rs h, strip_right) refl
strip_right-keeps (c ∷ d ∷ before) r rs h =
    rw (strip_right-keeps (d ∷ before) r rs h, strip_right) refl

strip_left-append :
    (before cs : Text)
    → All (λ c. is_space c ≡ true) before
    → strip_left (before ++ cs) ≡ strip_left cs
unfolding strip_left
strip_left-append [] cs h = refl
strip_left-append (c ∷ before) cs h = rw (h.0) (strip_left-append before cs h.1)

strip-around :
    (before reason after : Text)
    → All (λ c. is_space c ≡ true) before
    → All (λ c. is_space c ≡ true) after
    → is_reason reason ≡ true
    → strip ((before ++ reason) ++ after) ≡ reason
unfolding strip is_reason
strip-around before [] after b a h = absurd (cc)
strip-around before (c ∷ cs) after b a h =
    let word : all_word (c ∷ cs) ≡ true = ground (arith, is_letter-is_word c) in
    rw
      (
        strip_right-append (before ++ c ∷ cs) after a,
        strip_right-keeps before c cs word,
        strip_left-append before (c ∷ cs) b,
      )
      (ground (arith, word_no_space c, is_letter-is_word c))

-- What is kept of a collector's error, whatever its text, is an identifier of at most 80 letters,
-- digits, `_` and `-` that begins with a letter.
pub collector_fatal_reason-IsReason : (message : Text) → IsReason (collector_fatal_reason message)
unfolding collector_fatal_reason safe_reason
collector_fatal_reason-IsReason message =
    is_reason-IsReason _
      (elim (Bool-cases (is_reason (strip message))) [ inl e ↦ rw e e | inr e ↦ rw e refl ])

-- A text that is such an identifier with spaces around it, or with none, is kept without them.
pub collector_fatal_reason-keeps :
    (before reason after : Text)
    → All (λ c. is_space c ≡ true) before
    → All (λ c. is_space c ≡ true) after
    → IsReason reason
    → collector_fatal_reason ((before ++ reason) ++ after) ≡ reason
unfolding collector_fatal_reason safe_reason
collector_fatal_reason-keeps before reason after b a h =
    let valid = IsReason-is_reason reason h in
    rw (strip-around before reason after b a valid, valid) refl
