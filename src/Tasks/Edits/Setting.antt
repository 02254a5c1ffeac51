-- ===== src/Tasks/Edits/Setting.antt =====
-- What setting all tasks does to each character of a text.
use memos_note.Common.{
  ◌==◌, if◌then◌else◌, ==_iff, Bool-cases, Bool_eq, get_elem?, any, All, All-append, Text, ℕ, ◌≡◌,
  refl, sym, ap, ◌∙◌, ◌⊎◌, inl, inr, Bool, true, false, not, ◌&&◌, ◌||◌, Option, none, some, List,
  [], ◌∷◌, arith,
}
use memos_note.Tasks.Edits.{
  MarkdownEdit, ParsedTaskItem, get_line_starts, marker_of, parsed_item, parsed_items, sort_edits,
  fits, splice_all, apply_markdown_edits, marker, edits_of, parse_task_items, set_all_task_markers,
}
use memos_note.Tasks.Edits.Splicing.{applied}
use memos_note.Tasks.Toggle.{is_mark, ListItem, TaskInfo}
use memos_note.Tasks.Edits.Fitting.{marker_of-some}
use memos_note.Tasks.Edits.Pointwise.{is_to_set, apply-edits_of}

any-All :
    (checked : Bool) (k : ℕ) (P : ℕ → Type 0) (ts : List ParsedTaskItem)
    → All (λ t. P t.marker_start) ts
    → any (is_to_set checked k) ts ≡ true
    → P k
any-All checked k P [] h a = cc
any-All checked k P (t ∷ ts) (h, hs) a = elim (Bool-cases (t.marker_start == k)) [
  | inl e ↦ rw (sym ((==_iff t.marker_start k).0 e)) h
  | inr e ↦ any-All checked k P ts hs (
      later (Bool_eq t.checked checked) (any (is_to_set checked k) ts) (
        ap (λ b. (not (Bool_eq t.checked checked) && b) || any (is_to_set checked k) ts) (sym e)
        ∙ a))
]
  where
    later : (p q : Bool) → ((not p && false) || q) ≡ true → q ≡ true
    later p q h = ground (arith, h)

abbrev pub IsMark : Text → ℕ → Type 0
IsMark markdown k = (c : ℕ) × (get_elem? markdown k ≡ some c) × (is_mark c ≡ true)

parsed_items-IsMark :
    (markdown : Text) (items : List ListItem)
    → All
        (λ t. IsMark markdown t.marker_start)
        (parsed_items markdown (get_line_starts markdown) items)
unfolding parsed_items
parsed_items-IsMark markdown [] = tt
parsed_items-IsMark markdown (item ∷ items) =
    All-append (λ t. IsMark markdown t.marker_start)
      (parsed_item item.checked (marker_of markdown (get_line_starts markdown) item.start_line)) _
      (one item.checked (marker_of markdown (get_line_starts markdown) item.start_line) (λ m e.
        let (_, _, i) = marker_of-some markdown item.start_line m e in
        (i.mark, i.is_mark_at, i.mark_one)))
      (parsed_items-IsMark markdown items)
  where
    one :
        (c : Option Bool) (o : Option ℕ)
        → ((m : ℕ) → o ≡ some m → IsMark markdown m)
        → All (λ t. IsMark markdown t.marker_start) (parsed_item c o)
    one none o g = tt
    one (some c) none g = tt
    one (some c) (some m) g = (g m refl, tt)

-- A task in a line that is not as asked for.
abbrev pub is_task_to_set : Bool → ℕ → TaskInfo → Bool
is_task_to_set checked line t = (t.line_number == line) && not (Bool_eq t.checked checked)

-- The edits of tasks at marks.
apply-IsMark :
    (markdown : Text) (checked : Bool) (ts : List ParsedTaskItem) (k : ℕ)
    → All (λ t. IsMark markdown t.marker_start) ts
    → let after = apply_markdown_edits markdown (edits_of checked ts) in
      (get_elem? after k ≡ get_elem? markdown k)
      ⊎ ((get_elem? after k ≡ some (marker checked)) × IsMark markdown k)
apply-IsMark markdown checked ts k h = elim (Bool-cases (fits markdown 0 sorted)) [
  | inr e ↦ inl (
      ap (λ s. get_elem? s k)
        (applied markdown (edits_of checked ts)
          ∙ ap (λ b. if b then splice_all sorted markdown else markdown) e))
  | inl e ↦ elim (Bool-cases (any (is_to_set checked k) ts)) [
    | inr f ↦ inl (
        apply-edits_of markdown checked ts k e
        ∙ ap (λ b. if b then some (marker checked) else get_elem? markdown k) f)
    | inl f ↦ inr (
      apply-edits_of markdown checked ts k e
          ∙ ap (λ b. if b then some (marker checked) else get_elem? markdown k) f,
      any-All checked k (IsMark markdown) ts h f,
    )
  ]
]
  where
    sorted : List MarkdownEdit
    sorted = sort_edits (edits_of checked ts)

module _ (items_of : Text → Option (List ListItem)) where
  -- Any list items that the parser finds: a character of the text that
  -- is changed was a mark of a box, and is the one that was asked for.
  pub set_all_task_markers-marks :
      (markdown : Text) (checked : Bool) (k : ℕ)
      → let after = set_all_task_markers items_of markdown checked in
        (get_elem? after k ≡ get_elem? markdown k)
        ⊎ ((get_elem? after k ≡ some (marker checked)) × IsMark markdown k)
  unfolding set_all_task_markers parse_task_items
  set_all_task_markers-marks markdown checked k =
      apply-IsMark markdown checked (parse_task_items items_of markdown) k (go (items_of markdown))
    where
      go :
          (o : Option (List ListItem))
          → All
              (λ t. IsMark markdown t.marker_start)
              (elim o [
                | none ↦ []
                | some items ↦ parsed_items markdown (get_line_starts markdown) items
              ])
      go none = tt
      go (some items) = parsed_items-IsMark markdown items
