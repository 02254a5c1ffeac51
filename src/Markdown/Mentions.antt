-- ===== src/Markdown/Mentions.antt =====
-- web/src/utils/mention-grammar.ts and web/src/utils/remark-plugins/remark-mention.ts.
pub mod Lossless
pub mod Grammar
mod Samples
use memos_note.Common.{
  leb, ◌==◌, if◌then◌else◌, length, any, filter, Text, text_eq, get_last?, ℕ, zero, suc, ◌+◌, Bool,
  true, false, not, ◌&&◌, ◌||◌, Option, none, some, List, [], ◌∷◌,
}

abbrev pub max_mention_length : ℕ
max_mention_length = 32

abbrev pub at_sign : ℕ
at_sign = b'@'

abbrev pub is_upper : ℕ → Bool
is_upper c = leb b'A' c && leb c b'Z'

-- `[A-Za-z0-9]`
abbrev pub is_alphanumeric : ℕ → Bool
is_alphanumeric c = is_upper c || (leb b'a' c && leb c b'z') || (leb b'0' c && leb c b'9')

abbrev pub is_mention_char : ℕ → Bool
is_mention_char c = is_alphanumeric c || (c == b'-')

abbrev pub is_mention_boundary : Option ℕ → Bool
is_mention_boundary none = true
is_mention_boundary (some c) = not (is_mention_char c)

pub data Segment : Type 0 where
  text mention : Text → Segment

-- `toLowerCase` of an ASCII character
abbrev pub lower : ℕ → ℕ
lower c = if is_upper c then c + 32 else c

abbrev pub to_lower_case : Text → Text
to_lower_case [] = []
to_lower_case (c ∷ s) = lower c ∷ to_lower_case s

-- The loop over the characters of a username, of which at most `room` more are taken.
abbrev pub take_username : ℕ → Text → Text
take_username zero s = []
take_username (suc room) [] = []
take_username (suc room) (c ∷ s) = if is_mention_char c then c ∷ take_username room s else []

abbrev pub drop_username : ℕ → Text → Text
drop_username zero s = s
drop_username (suc room) [] = []
drop_username (suc room) (c ∷ s) =
    let rest = drop_username room s in if is_mention_char c then rest else c ∷ s

abbrev pub take_until_at : Text → Text
take_until_at [] = []
take_until_at (c ∷ s) = if c == at_sign then [] else c ∷ take_until_at s

abbrev pub drop_until_at : Text → Text
drop_until_at [] = []
drop_until_at (c ∷ s) = let rest = drop_until_at s in if c == at_sign then c ∷ s else rest

abbrev pub head_is_mention_char : Text → Bool
head_is_mention_char [] = false
head_is_mention_char (c ∷ _) = is_mention_char c

-- One round of the loop of `parseMentionsFromText` at `chars[i]`, with `chars[i - 1]` before it:
-- the segment, the characters that it took, and the ones left.
unfoldable pub next_segment : Option ℕ → ℕ → Text → Segment × Text × Text
next_segment prev c rest =
    if (c == at_sign)
      && (is_mention_boundary prev
          && (head_is_mention_char rest
              && any is_alphanumeric (take_username max_mention_length rest)))
    then (
      mention (to_lower_case (take_username max_mention_length rest)),
      c ∷ take_username max_mention_length rest,
      drop_username max_mention_length rest,
    )
    else (text (c ∷ take_until_at rest), c ∷ take_until_at rest, drop_until_at rest)

unfoldable pub parse_from : ℕ → Option ℕ → Text → List Segment
parse_from zero prev s = []
parse_from (suc fuel) prev [] = []
parse_from (suc fuel) prev (c ∷ s) =
    let (segment, taken, rest) = next_segment prev c s in
    segment ∷ parse_from fuel (get_last? taken) rest

unfoldable pub parse_mentions_from_text : Text → List Segment
unfolding parse_from next_segment
parse_mentions_from_text s = parse_from (suc (length s)) none s

abbrev pub mentions_of : List Segment → List Text
mentions_of [] = []
mentions_of (text _ ∷ ss) = mentions_of ss
mentions_of (mention name ∷ ss) = name ∷ mentions_of ss

-- `Array.from(new Set(...))`: the first of each value, in order
abbrev pub unique : List Text → List Text
unique [] = []
unique (s ∷ ss) = s ∷ filter (λ t. not (text_eq s t)) (unique ss)

unfoldable pub extract_mention_usernames : Text → List Text
unfolding parse_mentions_from_text
extract_mention_usernames s = unique (mentions_of (parse_mentions_from_text s))
