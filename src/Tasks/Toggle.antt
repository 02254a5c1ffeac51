-- ===== src/Tasks/Toggle.antt =====
-- Toggling one task: web/src/utils/markdown-manipulation.ts. A character of `.` is one that ends no
-- line; `\s*[-*+]\s+\[` can match in one way only, as neither the bullet nor the bracket is a space.
-- The list items that the Markdown parser finds are a parameter.
pub mod Matching
pub mod Lines
pub mod Laws
mod Samples
use memos_note.Common.{
  ◌==◌, if◌then◌else◌, length, get_elem?, set, any, filter, map_option, Text, text_eq, join, split,
  is_space, span, ℤ, pos, negsuc, ℕ, suc, ◌-◌, Bool, false, not, ◌&&◌, ◌||◌, Option, none, some,
  List, [], ◌∷◌, ◌++◌,
}

abbrev pub is_bullet : ℕ → Bool
is_bullet c = (c == b'-') || (c == b'*') || (c == b'+')

-- `[ xX]`
abbrev pub is_mark : ℕ → Bool
is_mark c = (c == b' ') || (c == b'x') || (c == b'X')

-- What `.` does not match.
abbrev pub ends_line : ℕ → Bool
ends_line c = (c == 10) || (c == 13) || (c == 0x2028) || (c == 0x2029)

abbrev pub newline : ℕ
newline = b'\n'

-- `(\s+.*)$`
abbrev pub is_suffix : Text → Bool
is_suffix [] = false
is_suffix (c ∷ s) = is_space c && not (any ends_line (span is_space s).1)

-- `\[([ xX])\](\s+.*)$`: the suffix
unfoldable pub after_box : Text → Option Text
after_box (a ∷ c ∷ b ∷ suffix) =
    if (a == b'[') && is_mark c && (b == b']') && is_suffix suffix then some suffix else none
after_box _ = none

-- `[-*+]\s+` and what follows: the rest of the prefix, and the suffix
unfoldable pub after_indent : Text → Option (Text × Text)
unfolding after_box
after_indent [] = none
after_indent (c ∷ s) =
    let (gap, rest) = span is_space s in
    if is_bullet c && not (text_eq gap [])
    then map_option (λ t. (c ∷ gap, t)) (after_box rest)
    else none

-- The prefix and the suffix of a match of `taskPattern`.
unfoldable pub match_task : Text → Option (Text × Text)
unfolding after_indent
match_task line =
    let (indent, rest) = span is_space line in
    map_option (λ t. (indent ++ t.0, t.1)) (after_indent rest)

-- `[${newCheckmark}]` with the suffix
unfoldable pub box : Bool → Text → Text
box checked suffix = b'[' ∷ (if checked then b'x' else b' ') ∷ b']' ∷ suffix

-- The line at an offset, if there is one, is replaced when it is a task.
unfoldable pub toggle_line : Text → List Text → ℕ → Bool → Option Text → Text
unfolding match_task box
toggle_line markdown lines n checked none = markdown
toggle_line markdown lines n checked (some line) = elim (match_task line) [
  | none ↦ markdown
  | some (prefix, suffix) ↦ join (newline ∷ []) (set lines n (prefix ++ box checked suffix))
]

unfoldable pub toggle_task_at_line : Text → ℤ → Bool → Text
unfolding toggle_line
toggle_task_at_line markdown (negsuc n) checked = markdown
toggle_task_at_line markdown (pos n) checked =
    let lines = split newline markdown in toggle_line markdown lines n checked (get_elem? lines n)

-- A `listItem` of the syntax tree.
pub record ListItem : Type 0 where
  pub checked : Option Bool
  pub start_line : Option ℕ

-- `TaskInfo`
pub record TaskInfo : Type 0 where
  pub line_number : ℕ
  pub checked : Bool

-- A line of 0 is falsy.
unfoldable pub task_of : Option Bool → Option ℕ → List TaskInfo
task_of (some checked) (some (suc line)) = record { line_number = line; checked = checked } ∷ []
task_of _ _ = []

unfoldable pub tasks_of : List ListItem → List TaskInfo
unfolding task_of
tasks_of [] = []
tasks_of (item ∷ items) = task_of item.checked item.start_line ++ tasks_of items

-- `tasks[taskIndex]`, with the test before it
unfoldable pub task_at : List TaskInfo → ℤ → Option TaskInfo
task_at tasks (negsuc n) = none
task_at tasks (pos n) = get_elem? tasks n

-- `countTasks`
pub record Count : Type 0 where
  pub total : ℕ
  pub completed : ℕ
  pub incomplete : ℕ

module _ (items_of : Text → List ListItem) where
  unfoldable pub extract_tasks_from_ast : Text → List TaskInfo
  unfolding tasks_of
  extract_tasks_from_ast markdown = tasks_of (items_of markdown)

  unfoldable pub toggle_task_at_index : Text → ℤ → Bool → Text
  unfolding extract_tasks_from_ast task_at toggle_task_at_line
  toggle_task_at_index markdown i checked = elim (task_at (extract_tasks_from_ast markdown) i) [
    | none ↦ markdown
    | some task ↦ toggle_task_at_line markdown (pos task.line_number) checked
  ]

  unfoldable pub get_task_line_number : Text → ℤ → ℤ
  unfolding extract_tasks_from_ast task_at
  get_task_line_number markdown i = elim (task_at (extract_tasks_from_ast markdown) i) [
    | none ↦ negsuc 0
    | some task ↦ pos task.line_number
  ]

  unfoldable pub count_tasks : Text → Count
  unfolding extract_tasks_from_ast
  count_tasks markdown =
      let tasks = extract_tasks_from_ast markdown in
      let completed = length (filter (λ t. t.checked) tasks) in
      record { total = length tasks; completed = completed; incomplete = length tasks - completed }
