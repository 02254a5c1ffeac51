-- ===== src/Markdown/Tags.antt =====
-- web/src/utils/tag-grammar.ts, web/src/utils/remark-plugins/remark-tag.ts and the escaping of
-- web/src/components/MemoEditor/Editor/tagMarkdown.ts. The class of tag characters is the regular
-- expression engine's table of Unicode properties, a parameter here.
pub mod Lossless
pub mod Escape
pub mod Tokenizer
pub mod Tree
mod Samples
use memos_note.Common.{
  leb, ◌==◌, if◌then◌else◌, length, Text, text_eq, slice, get_last?, is_char, ℕ, zero, suc, Bool,
  true, false, not, ◌&&◌, ◌||◌, Option, none, some, List, [], ◌∷◌, ◌++◌,
}

abbrev pub max_tag_length : ℕ
max_tag_length = 100

abbrev pub hash : ℕ
hash = b'#'

abbrev pub backslash : ℕ
backslash = 92

pub data Segment : Type 0 where
  text tag : Text → Segment

-- A character and whether it came from an escape: the arrays `chars` and `escaped` side by side.
pub record Cell : Type 0 where
  pub char : ℕ
  pub escaped : Bool

abbrev pub chars : List Cell → Text
chars [] = []
chars (c ∷ cs) = c.char ∷ chars cs

abbrev pub is_ascii_punctuation : ℕ → Bool
is_ascii_punctuation c =
    (leb 0x21 c && leb c 0x2f)
    || (leb 0x3a c && leb c 0x40)
    || (leb 0x5b c && leb c 0x60)
    || (leb 0x7b c && leb c 0x7e)

-- `[...source]`, with the backslash of each escape dropped and its character marked.
unfoldable pub unescape_backslashes : Text → List Cell
unescape_backslashes [] = []
unescape_backslashes (c ∷ []) = record { char = c; escaped = false } ∷ []
unescape_backslashes (c ∷ d ∷ s) = elim ((c == backslash) && is_ascii_punctuation d) [
  | true ↦ record { char = d; escaped = true } ∷ unescape_backslashes s
  | false ↦ record { char = c; escaped = false } ∷ unescape_backslashes (d ∷ s)
]

-- The longest run of cells from the front that pass a test, and what follows it: the `while`
-- loops that move `j`.
abbrev pub take_while : (Cell → Bool) → List Cell → List Cell
take_while p [] = []
take_while p (c ∷ cs) = if p c then c ∷ take_while p cs else []

abbrev pub drop_while : (Cell → Bool) → List Cell → List Cell
drop_while p [] = []
drop_while p (c ∷ cs) = let rest = drop_while p cs in if p c then rest else c ∷ cs

abbrev pub is_open_hash : Cell → Bool
is_open_hash c = (c.char == hash) && not c.escaped

-- What a segment stands for in the text.
abbrev pub render : Segment → Text
render (text value) = value
render (tag value) = hash ∷ value

abbrev pub render_all : List Segment → Text
render_all [] = []
render_all (s ∷ ss) = render s ++ render_all ss

abbrev pub is_text : Segment → Bool
is_text (text _) = true
is_text (tag _) = false

abbrev pub unescaped_cells : Text → List Cell
unescaped_cells [] = []
unescaped_cells (c ∷ s) = record { char = c; escaped = false } ∷ unescaped_cells s

module _ (is_tag_char : ℕ → Bool) where
  abbrev pub is_tag_cell : Cell → Bool
  is_tag_cell c = is_tag_char c.char

  -- The plain text run up to the next hash that is not escaped.
  abbrev pub plain_run : Cell → List Cell → Segment × List Cell
  plain_run c rest = (
    text (c.char ∷ chars (take_while (λ d. not (is_open_hash d)) rest)),
    drop_while (λ d. not (is_open_hash d)) rest,
  )

  abbrev pub head_is_tag_char : List Cell → Bool
  head_is_tag_char [] = false
  head_is_tag_char (c ∷ _) = is_tag_char c.char

  abbrev pub head_char : List Cell → Option ℕ
  head_char [] = none
  head_char (c ∷ _) = some c.char

  -- The whole run of tag characters, if it is no longer than a tag may be.
  abbrev pub tag_run : Cell → List Cell → Segment × List Cell
  tag_run c rest =
      if leb 1 (length (chars (take_while is_tag_cell rest)))
        && leb (length (chars (take_while is_tag_cell rest))) max_tag_length
      then (tag (chars (take_while is_tag_cell rest)), drop_while is_tag_cell rest)
      else plain_run c rest

  -- One round of the loop of `parseSegments` at `chars[i]`, with `chars[i - 1]` before it.
  unfoldable pub next_segment : Option ℕ → Cell → List Cell → Segment × List Cell
  next_segment prev c rest =
      if is_open_hash c && head_is_tag_char rest
      then (if is_char hash prev || is_char hash (head_char rest) || is_char b' ' (head_char rest)
          then (text (c.char ∷ []), rest)
          else tag_run c rest)
      else plain_run c rest

  -- The loop; each round takes at least one cell.
  unfoldable pub parse_from : ℕ → Option ℕ → List Cell → List Segment
  parse_from zero prev cs = []
  parse_from (suc fuel) prev [] = []
  parse_from (suc fuel) prev (c ∷ cs) =
      let (segment, rest) = next_segment prev c cs in
      segment ∷ parse_from fuel (get_last? (render segment)) rest

  unfoldable pub parse_segments : List Cell → List Segment
  unfolding parse_from next_segment
  parse_segments cs = parse_from (suc (length cs)) none cs

  -- The position of a text node in the source, if it has one.
  unfoldable pub segments_for_text_node : Text → Option (ℕ × ℕ) → Text → List Segment
  unfolding parse_segments unescape_backslashes
  segments_for_text_node value none source = parse_segments (unescaped_cells value)
  segments_for_text_node value (some (start, end)) source =
      let cells = unescape_backslashes (slice source start end) in
      if not (text_eq source []) && text_eq (chars cells) value
      then parse_segments cells
      else parse_segments (unescaped_cells value)

  -- How many tag characters a text begins with.
  abbrev pub run_length : Text → ℕ
  run_length [] = 0
  run_length (c ∷ s) = if is_tag_char c then suc (run_length s) else 0

  -- `text.replace(/#(?=TAG_RUN)/gu, "\\#")`: the look-ahead takes 1 to 100 tag characters that no
  -- further one follows, that is, a whole run of such a length.
  unfoldable pub escape_tag_hashes : Text → Text
  escape_tag_hashes [] = []
  escape_tag_hashes (c ∷ s) =
      let rest = escape_tag_hashes s in
      if (c == hash) && (leb 1 (run_length s) && leb (run_length s) max_tag_length)
      then backslash ∷ c ∷ rest
      else c ∷ rest
