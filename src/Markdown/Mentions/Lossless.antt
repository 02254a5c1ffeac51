-- ===== src/Markdown/Mentions/Lossless.antt =====
-- Splitting a text into mentions and plain text loses nothing but the case of the usernames, and
-- the usernames are well formed and listed once.
use memos_note.Common.{
  ◌==◌, Bool-cases, length, any, filter, All, All-filter, Text, text_eq, get_last?, ℕ, zero, suc,
  ◌≤◌, ◌<◌, ◌≡◌, refl, ap, ap₂, inl, inr, Bool, true, false, not, Option, none, List, [], ◌∷◌, ◌++◌,
  arith,
}
use memos_note.Markdown.Mentions.{
  max_mention_length, at_sign, is_upper, is_alphanumeric, is_mention_char, Segment, text, mention,
  lower, to_lower_case, take_username, drop_username, take_until_at, drop_until_at, next_segment,
  parse_from, parse_mentions_from_text, mentions_of, unique, extract_mention_usernames,
}

abbrev pub render : Segment → Text
render (text value) = value
render (mention name) = at_sign ∷ name

abbrev pub render_all : List Segment → Text
render_all [] = []
render_all (s ∷ ss) = render s ++ render_all ss

abbrev IsLower : ℕ → Type 0
IsLower c = (is_mention_char c ≡ true) × (is_upper c ≡ false)

-- What the grammar asks of a username, once it is in lower case.
abbrev pub IsUsername : Text → Type 0
IsUsername name =
    (1 ≤ length name)
    × (length name ≤ max_mention_length)
    × All IsLower name
    × (any is_alphanumeric name ≡ true)

to_lower_case-append : (s t : Text) → to_lower_case (s ++ t) ≡ to_lower_case s ++ to_lower_case t
to_lower_case-append [] t = refl
to_lower_case-append (c ∷ s) t = ap (λ u. lower c ∷ u) (to_lower_case-append s t)

lower_idempotent : (c : ℕ) → lower (lower c) ≡ lower c
lower_idempotent c = ground arith

to_lower_case_idempotent : (s : Text) → to_lower_case (to_lower_case s) ≡ to_lower_case s
to_lower_case_idempotent [] = refl
to_lower_case_idempotent (c ∷ s) =
    ap₂ (λ d u. d ∷ u) (lower_idempotent c) (to_lower_case_idempotent s)

take-drop_username : (room : ℕ) (s : Text) → take_username room s ++ drop_username room s ≡ s
take-drop_username zero s = refl
take-drop_username (suc room) [] = refl
take-drop_username (suc room) (c ∷ s) = elim (Bool-cases (is_mention_char c)) [
  | inl h ↦ rw h (ap (λ t. c ∷ t) (take-drop_username room s))
  | inr h ↦ rw h
]

take-drop_until_at : (s : Text) → take_until_at s ++ drop_until_at s ≡ s
take-drop_until_at [] = refl
take-drop_until_at (c ∷ s) = elim (Bool-cases (c == at_sign)) [
  | inl h ↦ rw h
  | inr h ↦ rw h (ap (λ t. c ∷ t) (take-drop_until_at s))
]

length-drop_username : (room : ℕ) (s : Text) → length (drop_username room s) ≤ length s
length-drop_username zero s = omega arith
length-drop_username (suc room) [] = omega arith
length-drop_username (suc room) (c ∷ s) = ground (arith, length-drop_username room s)

length-drop_until_at : (s : Text) → length (drop_until_at s) ≤ length s
length-drop_until_at [] = omega arith
length-drop_until_at (c ∷ s) = ground (arith, length-drop_until_at s)

length-next_segment :
    (prev : Option ℕ) (c : ℕ) (s : Text) → length (next_segment prev c s).2 ≤ length s
unfolding next_segment
length-next_segment prev c s =
    ground (arith, length-drop_username max_mention_length s, length-drop_until_at s)

username-lossless :
    (room : ℕ) (s : Text)
    → to_lower_case (to_lower_case (take_username room s)) ++ to_lower_case (drop_username room s)
      ≡ to_lower_case s
username-lossless room s = rw (
  to_lower_case_idempotent (take_username room s),
  ← to_lower_case-append (take_username room s) (drop_username room s),
  take-drop_username room s,
)

plain-lossless :
    (s : Text)
    → to_lower_case (take_until_at s) ++ to_lower_case (drop_until_at s) ≡ to_lower_case s
plain-lossless s =
    rw (← to_lower_case-append (take_until_at s) (drop_until_at s), take-drop_until_at s)

next_segment-lossless :
    (prev : Option ℕ) (c : ℕ) (s : Text)
    → to_lower_case (render (next_segment prev c s).0) ++ to_lower_case (next_segment prev c s).2
      ≡ to_lower_case (c ∷ s)
unfolding next_segment
next_segment-lossless prev c s =
    ground (arith, username-lossless max_mention_length s, plain-lossless s)

parse_from-lossless :
    (fuel : ℕ) (prev : Option ℕ) (s : Text)
    → length s < fuel
    → to_lower_case (render_all (parse_from fuel prev s)) ≡ to_lower_case s
unfolding parse_from
parse_from-lossless zero prev s h = absurd (omega arith)
parse_from-lossless (suc fuel) prev [] h = refl
parse_from-lossless (suc fuel) prev (c ∷ s) h =
    let (segment, taken, rest) = next_segment prev c s in
    rw
      (
        to_lower_case-append (render segment) _,
        parse_from-lossless fuel (get_last? taken) rest
            (omega (arith, length-next_segment prev c s)),
      )
      (next_segment-lossless prev c s)

-- Written out again, the segments of a text are that text, but for the case of ASCII letters.
pub parse_mentions-lossless :
    (s : Text) → to_lower_case (render_all (parse_mentions_from_text s)) ≡ to_lower_case s
unfolding parse_mentions_from_text
parse_mentions-lossless s = parse_from-lossless (suc (length s)) none s (omega arith)

lower-IsLower : (c : ℕ) → is_mention_char c ≡ true → IsLower (lower c)
lower-IsLower c h = ground arith

take_username-IsLower : (room : ℕ) (s : Text) → All IsLower (to_lower_case (take_username room s))
take_username-IsLower zero s = tt
take_username-IsLower (suc room) [] = tt
take_username-IsLower (suc room) (c ∷ s) = elim (Bool-cases (is_mention_char c)) [
  | inl h ↦ rw h (lower-IsLower c h, take_username-IsLower room s)
  | inr h ↦ rw h tt
]

length-take_username : (room : ℕ) (s : Text) → length (to_lower_case (take_username room s)) ≤ room
length-take_username zero s = omega arith
length-take_username (suc room) [] = omega arith
length-take_username (suc room) (c ∷ s) = ground (arith, length-take_username room s)

any-to_lower_case :
    (s : Text) → any is_alphanumeric s ≡ true → any is_alphanumeric (to_lower_case s) ≡ true
any-to_lower_case [] h = h
any-to_lower_case (c ∷ s) h = ground (arith, any-to_lower_case s)

length-of_any : (s : Text) → any is_alphanumeric s ≡ true → 1 ≤ length s
length-of_any [] h = cc
length-of_any (c ∷ s) h = omega arith

next_segment-IsUsername :
    (prev : Option ℕ) (c : ℕ) (s : Text)
    → All IsUsername (mentions_of ((next_segment prev c s).0 ∷ []))
unfolding next_segment
next_segment-IsUsername prev c s = ground (
  arith,
  length-take_username max_mention_length s,
  take_username-IsLower max_mention_length s,
  any-to_lower_case (take_username max_mention_length s),
  length-of_any (to_lower_case (take_username max_mention_length s)),
)

mentions_of-cons :
    (g : Segment) (ss : List Segment)
    → All IsUsername (mentions_of (g ∷ []))
    → All IsUsername (mentions_of ss)
    → All IsUsername (mentions_of (g ∷ ss))
mentions_of-cons (text value) ss h k = k
mentions_of-cons (mention name) ss (h, _) k = (h, k)

parse_from-IsUsername :
    (fuel : ℕ) (prev : Option ℕ) (s : Text) → All IsUsername (mentions_of (parse_from fuel prev s))
unfolding parse_from
parse_from-IsUsername zero prev s = tt
parse_from-IsUsername (suc fuel) prev [] = tt
parse_from-IsUsername (suc fuel) prev (c ∷ s) =
    let (segment, taken, rest) = next_segment prev c s in
    mentions_of-cons segment _ (next_segment-IsUsername prev c s)
      (parse_from-IsUsername fuel (get_last? taken) rest)

All-filter_of {ℓ} :
    (P : Text → Type ℓ) (p : Text → Bool) (ss : List Text) → All P ss → All P (filter p ss)
All-filter_of P p [] h = tt
All-filter_of P p (s ∷ ss) (h, hs) = elim (Bool-cases (p s)) [
  | inl e ↦ rw e (h, All-filter_of P p ss hs)
  | inr e ↦ rw e (All-filter_of P p ss hs)
]

unique-All {ℓ} : (P : Text → Type ℓ) (ss : List Text) → All P ss → All P (unique ss)
unique-All P [] h = tt
unique-All P (s ∷ ss) (h, hs) = (h, All-filter_of P _ (unique ss) (unique-All P ss hs))

-- No two entries are equal.
abbrev pub IsDistinct : List Text → Type 0
IsDistinct [] = Unit
IsDistinct (s ∷ ss) = All (λ t. text_eq s t ≡ false) ss × IsDistinct ss

filter-IsDistinct : (p : Text → Bool) (ss : List Text) → IsDistinct ss → IsDistinct (filter p ss)
filter-IsDistinct p [] h = tt
filter-IsDistinct p (s ∷ ss) (h, hs) = elim (Bool-cases (p s)) [
  | inl e ↦ rw e (All-filter_of _ p ss h, filter-IsDistinct p ss hs)
  | inr e ↦ rw e (filter-IsDistinct p ss hs)
]

not-eq-true : (b : Bool) → not b ≡ true → b ≡ false
not-eq-true b h = ground arith

All-not :
    (s : Text) (ss : List Text)
    → All (λ t. not (text_eq s t) ≡ true) ss
    → All (λ t. text_eq s t ≡ false) ss
All-not s [] h = tt
All-not s (t ∷ ss) (h, hs) = (not-eq-true _ h, All-not s ss hs)

unique-IsDistinct : (ss : List Text) → IsDistinct (unique ss)
unique-IsDistinct [] = tt
unique-IsDistinct (s ∷ ss) = (
  All-not s _ (All-filter (λ t. not (text_eq s t)) (unique ss)),
  filter-IsDistinct _ (unique ss) (unique-IsDistinct ss),
)

-- The usernames that are listed for a text are pairwise different, and each holds 1 to 32
-- characters, all of them ASCII lower case letters, digits or hyphens, one at least no hyphen.
pub extract_mention_usernames-IsUsername :
    (s : Text)
    → All IsUsername (extract_mention_usernames s) × IsDistinct (extract_mention_usernames s)
unfolding extract_mention_usernames parse_mentions_from_text
extract_mention_usernames-IsUsername s =
    (unique-All IsUsername _ (parse_from-IsUsername (suc (length s)) none s), unique-IsDistinct _)
