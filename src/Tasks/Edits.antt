-- ===== src/Tasks/Edits.antt =====
-- Setting all tasks of a text: web/src/utils/markdown-task-actions.ts. The list items that the Markdown
-- parser finds are a parameter, `none` where it throws. Offsets are natural numbers, so that none is
-- below 0; those of this code are sums of lengths.
pub mod Splicing
pub mod Markers
pub mod Fitting
pub mod Starts
pub mod Placing
pub mod Pointwise
pub mod Setting
mod Samples
use memos_note.Common.{
  ltb, leb, ◌==◌, if◌then◌else◌, Bool_eq, length, get_elem?, take, drop, map_option, Text, text_eq,
  slice, is_space, span, ℕ, suc, ◌+◌, ◌-◌, Bool, true, false, not, ◌&&◌, ◌||◌, Option, none, some,
  List, [], ◌∷◌, ◌++◌,
}
use memos_note.Tasks.Toggle.{is_bullet, is_mark, newline, ListItem}

-- `MarkdownEdit`
pub record MarkdownEdit : Type 0 where
  pub start : ℕ
  pub end : ℕ
  pub replacement : Text

-- `ParsedTaskItem`; the range of its marker is one character.
pub record ParsedTaskItem : Type 0 where
  pub checked : Bool
  pub marker_start : ℕ

pub record LineInfo : Type 0 where
  pub text : Text
  pub start_offset : ℕ
  pub end_offset : ℕ

-- The loop of `getLineStarts` from an index on.
unfoldable pub line_starts_from : ℕ → Text → List ℕ
line_starts_from index [] = []
line_starts_from index (c ∷ s) =
    let rest = line_starts_from (suc index) s in if c == newline then suc index ∷ rest else rest

unfoldable pub get_line_starts : Text → List ℕ
get_line_starts markdown = 0 ∷ line_starts_from 0 markdown

-- `endOffset`
unfoldable pub end_of : Text → Option ℕ → ℕ
end_of markdown none = length markdown
end_of markdown (some next) = next - 1

unfoldable pub get_line_info : Text → List ℕ → ℕ → Option LineInfo
unfolding end_of
get_line_info markdown line_starts line_number = elim (get_elem? line_starts line_number) [
  | none ↦ none
  | some start ↦
      let stop = end_of markdown (get_elem? line_starts (suc line_number)) in
      some (record { text = slice markdown start stop; start_offset = start; end_offset = stop })
]

abbrev pub is_digit : ℕ → Bool
is_digit c = leb b'0' c && leb c b'9'

-- `\d+[.)]` after the digits
unfoldable pub take_numbered : Text → Text → Option (Text × Text)
take_numbered digits [] = none
take_numbered digits (c ∷ s) =
    if not (text_eq digits []) && ((c == b'.') || (c == b')'))
    then some (digits ++ c ∷ [], s)
    else none

-- `(?:[-*+])|(?:\d+[.)])`, and the rest
unfoldable pub take_bullet : Text → Option (Text × Text)
unfolding take_numbered
take_bullet [] = none
take_bullet (c ∷ s) =
    let (digits, rest) = span is_digit (c ∷ s) in
    let numbered = take_numbered digits rest in if is_bullet c then some (c ∷ [], s) else numbered

-- `\[([ xX])\]`
abbrev pub is_box : Text → Bool
is_box (a ∷ c ∷ b ∷ s) = (a == b'[') && is_mark c && (b == b']')
is_box _ = false

-- From the bullet on: the offset of the marker after an indent.
unfoldable pub offset_after : Text → Option (Text × Text) → Option ℕ
offset_after indent none = none
offset_after indent (some (bullet, rest)) =
    let (gap, rest') = span is_space rest in
    if not (text_eq gap []) && is_box rest'
    then some (length indent + length bullet + length gap + 1)
    else none

-- `match[1].length + match[2].length + match[3].length + 1` of a match of `TASK_LINE_REGEXP`
unfoldable pub marker_offset : Text → Option ℕ
unfolding offset_after take_bullet
marker_offset line =
    let (indent, rest) = span is_space line in offset_after indent (take_bullet rest)

unfoldable pub marker_in : Option LineInfo → Option ℕ
unfolding marker_offset
marker_in none = none
marker_in (some info) = map_option (λ offset. info.start_offset + offset) (marker_offset info.text)

-- `startLine` and what follows: a line of 0 would be looked up at -1.
unfoldable pub marker_of : Text → List ℕ → Option ℕ → Option ℕ
unfolding get_line_info marker_in
marker_of markdown line_starts (some (suc line)) =
    marker_in (get_line_info markdown line_starts line)
marker_of markdown line_starts _ = none

unfoldable pub parsed_item : Option Bool → Option ℕ → List ParsedTaskItem
parsed_item (some checked) (some marker) = record { checked = checked; marker_start = marker } ∷ []
parsed_item _ _ = []

unfoldable pub parsed_items : Text → List ℕ → List ListItem → List ParsedTaskItem
unfolding parsed_item marker_of
parsed_items markdown line_starts [] = []
parsed_items markdown line_starts (item ∷ items) =
    parsed_item item.checked (marker_of markdown line_starts item.start_line)
    ++ parsed_items markdown line_starts items

-- `[...edits].sort((a, b) => a.start - b.start)`, which is stable
unfoldable pub insert_edit : MarkdownEdit → List MarkdownEdit → List MarkdownEdit
insert_edit e [] = e ∷ []
insert_edit e (f ∷ fs) =
    let later = insert_edit e fs in if leb e.start f.start then e ∷ f ∷ fs else f ∷ later

unfoldable pub sort_edits : List MarkdownEdit → List MarkdownEdit
unfolding insert_edit
sort_edits [] = []
sort_edits (e ∷ es) = insert_edit e (sort_edits es)

-- The loop that tests the edits, from the end of the one before.
unfoldable pub fits : Text → ℕ → List MarkdownEdit → Bool
fits markdown previous_end [] = true
fits markdown previous_end (e ∷ es) =
    let later = fits markdown e.end es in
    if ltb e.end e.start || ltb (length markdown) e.end || ltb e.start previous_end
    then false
    else later

abbrev pub splice : MarkdownEdit → Text → Text
splice e s = take e.start s ++ e.replacement ++ drop e.end s

-- The loop from the last edit to the first.
unfoldable pub splice_all : List MarkdownEdit → Text → Text
splice_all [] markdown = markdown
splice_all (e ∷ es) markdown = splice e (splice_all es markdown)

unfoldable pub apply_markdown_edits : Text → List MarkdownEdit → Text
unfolding sort_edits fits splice_all
apply_markdown_edits markdown [] = markdown
apply_markdown_edits markdown (e ∷ es) =
    let sorted = sort_edits (e ∷ es) in
    if fits markdown 0 sorted then splice_all sorted markdown else markdown

abbrev pub marker : Bool → ℕ
marker checked = if checked then b'x' else b' '

-- The `filter` and the `map`.
unfoldable pub edits_of : Bool → List ParsedTaskItem → List MarkdownEdit
edits_of checked [] = []
edits_of checked (t ∷ ts) =
    let rest = edits_of checked ts in
    let edit : MarkdownEdit = record {
      start = t.marker_start;
      end = suc t.marker_start;
      replacement = marker checked ∷ [];
    } in
    if Bool_eq t.checked checked then rest else edit ∷ rest

module _ (items_of : Text → Option (List ListItem)) where
  unfoldable pub parse_task_items : Text → List ParsedTaskItem
  unfolding parsed_items get_line_starts
  parse_task_items markdown = elim (items_of markdown) [
    | none ↦ []
    | some items ↦ parsed_items markdown (get_line_starts markdown) items
  ]

  unfoldable pub set_all_task_markers : Text → Bool → Text
  unfolding apply_markdown_edits edits_of parse_task_items
  set_all_task_markers markdown checked =
      apply_markdown_edits markdown (edits_of checked (parse_task_items markdown))

  abbrev pub uncheck_all_tasks : Text → Text
  unfolding set_all_task_markers
  uncheck_all_tasks markdown = set_all_task_markers markdown false

  abbrev pub check_all_tasks : Text → Text
  unfolding set_all_task_markers
  check_all_tasks markdown = set_all_task_markers markdown true
