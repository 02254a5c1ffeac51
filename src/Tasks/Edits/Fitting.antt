-- ===== src/Tasks/Edits/Fitting.antt =====
-- The edits of tasks that stand in the order of their lines fit.
use memos_note.Common.{
  ltb, leb, ◌==◌, if◌then◌else◌, leb→le, Bool-cases, both, Bool_eq, length, get_elem?, Text, ℕ,
  zero, suc, ◌≤◌, ◌<◌, ◌≡◌, refl, sym, ap, ◌∙◌, inl, inr, Bool, true, false, ◌&&◌, ◌||◌, Option,
  none, some, some-injective, List, [], ◌∷◌, ◌++◌, arith,
}
use memos_note.Tasks.Edits.{
  MarkdownEdit, line_starts_from, get_line_starts, marker_of, parsed_item, parsed_items,
  insert_edit, sort_edits, fits, edits_of,
}
use memos_note.Tasks.Edits.Markers.{get_elem?-bound, IsMarker, marker_of-IsMarker}
use memos_note.Tasks.Edits.Splicing.{fits-cons}
use memos_note.Tasks.Toggle.{newline, ListItem, TaskInfo, task_of, tasks_of}

-- The tasks in the order of their lines, no two in one line, from a line on.
abbrev pub ascends : ℕ → List TaskInfo → Bool
ascends line [] = true
ascends line (t ∷ ts) = leb line t.line_number && ascends (suc t.line_number) ts

insert_first :
    (markdown : Text) (e : MarkdownEdit) (es : List MarkdownEdit)
    → fits markdown e.end es ≡ true
    → e.start ≤ e.end
    → insert_edit e es ≡ e ∷ es
unfolding insert_edit
insert_first markdown e [] d b = refl
insert_first markdown e (f ∷ fs) d b =
    let (a, _, _, _) = fits-cons markdown e.end f fs d in rw (before e.start e.end f.start a b) refl
  where
    before : (m n k : ℕ) → n ≤ k → m ≤ n → leb m k ≡ true
    before m n k h l = ground arith

pub sort_edits-fits :
    (markdown : Text) (at : ℕ) (es : List MarkdownEdit)
    → fits markdown at es ≡ true
    → sort_edits es ≡ es
unfolding sort_edits
sort_edits-fits markdown at [] h = refl
sort_edits-fits markdown at (e ∷ es) h =
    let (a, b, c, d) = fits-cons markdown at e es h in
    ap (insert_edit e) (sort_edits-fits markdown e.end es d) ∙ insert_first markdown e es d b

starts_ascend :
    (j i : ℕ) (s : Text) (n a b : ℕ)
    → j ≤ i
    → get_elem? (j ∷ line_starts_from i s) n ≡ some a
    → get_elem? (line_starts_from i s) n ≡ some b
    → a < b
unfolding line_starts_from
starts_ascend j i [] n a b h k l = cc
starts_ascend j i (c ∷ s) n a b h k l = elim (Bool-cases (c == newline)) [
  | inl e ↦
      broken (λ n. starts_ascend (suc i) (suc i) s n a b (omega arith)) n
        (ap
            (λ t.
              get_elem?
                (j ∷ (if t then suc i ∷ line_starts_from (suc i) s else line_starts_from (suc i) s))
                n)
            (sym e)
          ∙ k)
        (ap
            (λ t.
              get_elem?
                (if t then suc i ∷ line_starts_from (suc i) s else line_starts_from (suc i) s) n)
            (sym e)
          ∙ l)
  | inr e ↦
      starts_ascend j (suc i) s n a b (omega arith)
        (ap
            (λ t.
              get_elem?
                (j ∷ (if t then suc i ∷ line_starts_from (suc i) s else line_starts_from (suc i) s))
                n)
            (sym e)
          ∙ k)
        (ap
            (λ t.
              get_elem?
                (if t then suc i ∷ line_starts_from (suc i) s else line_starts_from (suc i) s) n)
            (sym e)
          ∙ l)
]
  where
    broken :
        ((n : ℕ)
          → get_elem? (suc i ∷ line_starts_from (suc i) s) n ≡ some a
          → get_elem? (line_starts_from (suc i) s) n ≡ some b
          → a < b)
        → (n : ℕ) → get_elem? (j ∷ suc i ∷ line_starts_from (suc i) s) n ≡ some a
        → get_elem? (suc i ∷ line_starts_from (suc i) s) n ≡ some b
        → a < b
    broken later zero k l =
        let x = some-injective j a k in let y = some-injective (suc i) b l in omega arith
    broken later (suc n) k l = later n k l

-- An offset that is at most the start of a line, if there is such a line.
abbrev AtMost : Text → ℕ → ℕ → Type 0
AtMost markdown at line = (b : ℕ) → get_elem? (get_line_starts markdown) line ≡ some b → at ≤ b

get_elem?-before :
    (xs : List ℕ) (n b : ℕ) → get_elem? xs (suc n) ≡ some b → (a : ℕ) × (get_elem? xs n ≡ some a)
get_elem?-before [] n b h = cc
get_elem?-before (x ∷ xs) zero b h = (x, refl)
get_elem?-before (x ∷ xs) (suc n) b h = get_elem?-before xs n b h

AtMost-suc :
    (markdown : Text) (at line : ℕ) → AtMost markdown at line → AtMost markdown at (suc line)
unfolding get_line_starts
AtMost-suc markdown at line h b e =
    let (a, f) = get_elem?-before (get_line_starts markdown) line b e in
    let l = starts_ascend 0 0 markdown line a b (omega arith) f e in let k = h a f in omega arith

AtMost-le :
    (markdown : Text) (at line later : ℕ)
    → AtMost markdown at line
    → line ≤ later
    → AtMost markdown at later
AtMost-le markdown at line zero h k b e =
    h b (ap (get_elem? (get_line_starts markdown)) (is_zero line k) ∙ e)
  where
    is_zero : (n : ℕ) → n ≤ 0 → n ≡ 0
    is_zero n k = omega arith
AtMost-le markdown at line (suc later) h k b e = elim (Bool-cases (leb line later)) [
  | inl l ↦
      AtMost-suc markdown at later (AtMost-le markdown at line later h (ground (arith, l))) b e
  | inr l ↦ h b (ap (get_elem? (get_line_starts markdown)) (same line later k l) ∙ e)
]
  where
    same : (m n : ℕ) → m ≤ suc n → leb m n ≡ false → m ≡ suc n
    same m n k l = ground arith

pub marker_of-some :
    (markdown : Text) (start : Option ℕ) (place : ℕ)
    → marker_of markdown (get_line_starts markdown) start ≡ some place
    → (line : ℕ) × (start ≡ some (suc line)) × IsMarker markdown line place
unfolding marker_of
marker_of-some markdown none place h = cc
marker_of-some markdown (some zero) place h = cc
marker_of-some markdown (some (suc line)) place h =
    (line, refl, marker_of-IsMarker markdown line place h)

module _ (markdown : Text) (checked : Bool) where
  -- What is to be shown of items, from a line and from an offset on.
  abbrev pub Fitting : List ListItem → Type 0
  Fitting items =
      (line at : ℕ)
      → AtMost markdown at line
      → ascends line (tasks_of items) ≡ true
      → fits markdown at (edits_of checked (parsed_items markdown (get_line_starts markdown) items))
        ≡ true

  with_marker :
      (c : Bool) (l : ℕ) (items : List ListItem)
      → Fitting items
      → (line at : ℕ) → AtMost markdown at line
      → line ≤ l
      → ascends (suc l) (tasks_of items) ≡ true
      → (o : Option ℕ) → ((m : ℕ) → o ≡ some m → IsMarker markdown l m)
      → fits markdown at (
          edits_of checked
            (parsed_item (some c) o ++ parsed_items markdown (get_line_starts markdown) items))
        ≡ true
  unfolding parsed_item edits_of fits
  with_marker c l items f line at h b a none g =
      f (suc l) at (AtMost-le markdown at line (suc l) h (omega arith)) a
  with_marker c l items f line at h b a (some m) g = elim (Bool-cases (Bool_eq c checked)) [
    | inl e ↦ rw e (f (suc l) at (AtMost-le markdown at line (suc l) h (omega arith)) a)
    | inr e ↦
        let i = g m refl in
        let k = AtMost-le markdown at line l h b i.line_start i.starts_at in
        let inside = get_elem?-bound markdown m i.mark i.is_mark_at in
        rw e (
          rw (fits_one m at (length markdown) (after_start at i.line_start m k i.after) inside)
            (f (suc l) (suc m) i.before a))
  ]
    where
      after_start : (a b c : ℕ) → a ≤ b → b ≤ c → a ≤ c
      after_start a b c h k = omega arith

      fits_one :
          (m at n : ℕ) → at ≤ m → m < n → (ltb (suc m) m || ltb n (suc m) || ltb m at) ≡ false
      fits_one m at n h k = ground arith

  one_more :
      (item_checked : Option Bool) (start : Option ℕ) (items : List ListItem)
      → Fitting items
      → (line at : ℕ) → AtMost markdown at line
      → ascends line (task_of item_checked start ++ tasks_of items) ≡ true
      → fits markdown at (
          edits_of checked (
            parsed_item item_checked (marker_of markdown (get_line_starts markdown) start)
            ++ parsed_items markdown (get_line_starts markdown) items))
        ≡ true
  unfolding task_of parsed_item marker_of
  one_more none start items f line at h a = f line at h a
  one_more (some c) none items f line at h a = f line at h a
  one_more (some c) (some zero) items f line at h a = f line at h a
  one_more (some c) (some (suc l)) items f line at h a =
      let (b, a') = both (leb line l) (ascends (suc l) (tasks_of items)) a in
      with_marker c l items f line at h (leb→le line l b) a'
        (marker_of markdown (get_line_starts markdown) (some (suc l)))
        (λ m. marker_of-IsMarker markdown l m)

  pub parsed_items-Fitting : (items : List ListItem) → Fitting items
  unfolding tasks_of edits_of fits parsed_items
  parsed_items-Fitting [] line at h a = refl
  parsed_items-Fitting (item ∷ items) line at h a =
      one_more item.checked item.start_line items (parsed_items-Fitting items) line at h a
