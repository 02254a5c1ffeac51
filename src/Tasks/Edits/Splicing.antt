-- ===== src/Tasks/Edits/Splicing.antt =====
-- The splices from the last edit to the first are one pass from left to right.
use memos_note.Common.{
  if◌then◌else◌, length, take, drop, Text, ℕ, ◌-◌, ◌≤◌, ◌≡◌, refl, true, List, [], ◌∷◌, ◌++◌, arith,
}
use memos_note.Tasks.Edits.{MarkdownEdit, sort_edits, fits, splice_all, apply_markdown_edits}

-- The text from an offset on, copied from left to right with the edits done on the way.
abbrev pub copied : ℕ → List MarkdownEdit → Text → Text
copied at [] s = s
copied at (e ∷ es) s =
    take (e.start - at) s ++ e.replacement ++ copied e.end es (drop (e.end - at) s)

-- An edit that fits, and those after it.
pub fits-cons :
    (markdown : Text) (at : ℕ) (e : MarkdownEdit) (es : List MarkdownEdit)
    → fits markdown at (e ∷ es) ≡ true
    → (at ≤ e.start)
      × (e.start ≤ e.end)
      × (e.end ≤ length markdown)
      × (fits markdown e.end es ≡ true)
unfolding fits
fits-cons markdown at e es h = ground (arith, h)

pub applied :
    (markdown : Text) (es : List MarkdownEdit)
    → apply_markdown_edits markdown es
      ≡ (if fits markdown 0 (sort_edits es) then splice_all (sort_edits es) markdown else markdown)
unfolding apply_markdown_edits sort_edits fits splice_all
applied markdown [] = refl
applied markdown (e ∷ es) = refl
