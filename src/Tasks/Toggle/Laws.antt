-- ===== src/Tasks/Toggle/Laws.antt =====
-- What toggling a task does to the lines of a text.
use memos_note.Common.{
  ◌==◌, if◌then◌else◌, Option-cases, get_elem?, set, any, Text, join, split, is_blank, any-append,
  ℤ, pos, negsuc, join-split, ℕ, ◌≡◌, refl, sym, ap, ◌∙◌, inl, inr, Bool, false, ◌||◌, Option, none,
  some, [], ◌∷◌, ◌++◌, arith,
}
use memos_note.Tasks.Toggle.{newline, match_task, box, toggle_line, toggle_task_at_line}
use memos_note.Tasks.Toggle.Matching.{
  IsTask, match_task_complete, match_task-return, match_task_sound, IsTask-box,
}
use memos_note.Tasks.Toggle.Lines.{
  has_newline, alter, alter-set, alter-same, alter-none, alter-alter, lines_of_alter,
}

set_found : Bool → Text → Option (Text × Text) → Text
set_found checked line none = line
set_found checked line (some (prefix, suffix)) = prefix ++ box checked suffix

-- A line with its box set, if it is a task.
set_mark : Bool → Text → Text
unfolding set_found
set_mark checked line = set_found checked line (match_task line)

set_mark-no_task :
    (checked : Bool) (line : Text) → match_task line ≡ none → set_mark checked line ≡ line
unfolding set_mark set_found
set_mark-no_task checked line h = ap (set_found checked line) h

set_mark-task :
    (checked : Bool) (line : Text) (t : Text × Text)
    → match_task line ≡ some t
    → set_mark checked line ≡ t.0 ++ box checked t.1
unfolding set_mark set_found
set_mark-task checked line t h = ap (set_found checked line) h

set_mark-set_mark : (a b : Bool) (line : Text) → set_mark a (set_mark b line) ≡ set_mark a line
set_mark-set_mark a b line = elim (Option-cases (match_task line)) [
  | inl h ↦ ap (set_mark a) (set_mark-no_task b line h)
  | inr (t, h) ↦
      let again =
        match_task_complete _ t.0 t.1
          (IsTask-box b line t.0 t.1 (match_task_sound line t.0 t.1 h)) in
      ap (set_mark a) (set_mark-task b line t h)
      ∙ (set_mark-task a (t.0 ++ box b t.1) t again ∙ sym (set_mark-task a line t h))
]

-- `toggle_task_at_line` by lines.
toggle-alter :
    (markdown : Text) (n : ℕ) (checked : Bool)
    → toggle_task_at_line markdown (pos n) checked
      ≡ join (newline ∷ []) (alter (set_mark checked) (split newline markdown) n)
unfolding toggle_task_at_line toggle_line
toggle-alter markdown n checked = elim (Option-cases (get_elem? (split newline markdown) n)) [
  | inl h ↦ rw h (
      sym (join-split newline markdown)
      ∙ ap (join (newline ∷ [])) (sym (alter-none (set_mark checked) _ n h)))
  | inr (l, h) ↦ elim (Option-cases (match_task l)) [
    | inl k ↦ rw h (
        ap found k
        ∙ (sym (join-split newline markdown)
            ∙ ap (join (newline ∷ []))
                (sym (alter-same (set_mark checked) _ n l h (set_mark-no_task checked l k)))))
    | inr (t, k) ↦ rw h (
        ap found k
        ∙ ap (join (newline ∷ [])) (
            ap (set (split newline markdown) n) (sym (set_mark-task checked l t k))
            ∙ sym (alter-set (set_mark checked) _ n l h)))
  ]
]
  where
    found : Option (Text × Text) → Text
    found o = elim o [
      | none ↦ markdown
      | some (prefix, suffix) ↦
          join (newline ∷ []) (set (split newline markdown) n (prefix ++ box checked suffix))
    ]

set_mark-no_newline :
    (checked : Bool) (l : Text) → has_newline l ≡ false → has_newline (set_mark checked l) ≡ false
unfolding box
set_mark-no_newline checked l h = elim (Option-cases (match_task l)) [
  | inl e ↦ ap has_newline (set_mark-no_task checked l e) ∙ h
  | inr (t, e) ↦
      let task = match_task_sound l t.0 t.1 e in
      let parts =
        sym (any-append (λ c. c == newline) t.0 (b'[' ∷ task.mark ∷ b']' ∷ t.1))
        ∙ (ap has_newline (sym task.is_line) ∙ h) in
      ap has_newline (set_mark-task checked l t e)
      ∙ (any-append (λ c. c == newline) t.0 (box checked t.1)
          ∙ kept (any (λ c. c == newline) t.0) (task.mark == newline) (any (λ c. c == newline) t.1)
              checked parts)
]
  where
    kept :
        (p m s b : Bool)
        → (p || (m || s)) ≡ false
        → (p || (((if b then b'x' else b' ') == newline) || s)) ≡ false
    kept p m s b h = ground (arith, h)

-- At a line that is a task: the lines are those from before, but for that one, which has its mark set
-- and is otherwise as it was.
pub split-toggle_task_at_line :
    (markdown : Text) (n : ℕ) (checked : Bool) (line prefix suffix : Text)
    → get_elem? (split newline markdown) n ≡ some line
    → IsTask line prefix suffix
    → split newline (toggle_task_at_line markdown (pos n) checked)
      ≡ set
          (split newline markdown)
          n
          (prefix ++ b'[' ∷ (if checked then b'x' else b' ') ∷ b']' ∷ suffix)
unfolding box
split-toggle_task_at_line markdown n checked line prefix suffix h t =
    ap (split newline) (toggle-alter markdown n checked)
    ∙ (lines_of_alter (set_mark checked) markdown n (set_mark-no_newline checked)
        ∙ (alter-set (set_mark checked) (split newline markdown) n line h
            ∙ ap (set (split newline markdown) n) (
                set_mark-task checked line (prefix, suffix)
                  (match_task_complete line prefix suffix t))))

-- At any line, in range or not, a task or not: toggling again is as toggling once, the last way.
pub toggle_task_at_line-again :
    (markdown : Text) (i : ℤ) (a b : Bool)
    → toggle_task_at_line (toggle_task_at_line markdown i a) i b ≡ toggle_task_at_line markdown i b
unfolding toggle_task_at_line
toggle_task_at_line-again markdown (negsuc n) a b = refl
toggle_task_at_line-again markdown (pos n) a b =
    ap (λ u. toggle_task_at_line u (pos n) b) (toggle-alter markdown n a)
    ∙ (toggle-alter (join (newline ∷ []) (alter (set_mark a) (split newline markdown) n)) n b
        ∙ (ap (λ ls. join (newline ∷ []) (alter (set_mark b) ls n))
              (lines_of_alter (set_mark a) markdown n (set_mark-no_newline a))
            ∙ (ap (join (newline ∷ [])) (
                  alter-alter (set_mark b) (set_mark a) (split newline markdown) n
                    (λ l. set_mark-set_mark b a l))
                ∙ sym (toggle-alter markdown n b))))

-- At a line that is a task with more than spaces after its box, but for a carriage return at its end,
-- as in a text with the line ends of Windows: nothing is toggled.
pub toggle_task_at_line-return :
    (markdown : Text) (n : ℕ) (checked : Bool) (line prefix suffix : Text)
    → get_elem? (split newline markdown) n ≡ some (line ++ 13 ∷ [])
    → IsTask line prefix suffix
    → is_blank suffix ≡ false
    → toggle_task_at_line markdown (pos n) checked ≡ markdown
toggle_task_at_line-return markdown n checked line prefix suffix h t k =
    toggle-alter markdown n checked
    ∙ (ap (join (newline ∷ [])) (
          alter-same (set_mark checked) (split newline markdown) n (line ++ 13 ∷ []) h
            (set_mark-no_task checked (line ++ 13 ∷ []) (match_task-return line prefix suffix t k)))
        ∙ join-split newline markdown)
