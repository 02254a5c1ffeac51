-- ===== src/Tasks/Toggle/Samples.antt =====
-- The theorems on a concrete text, and tests.
use memos_note.Common.{
  Text, codes, split, pos, ◌≡◌, refl, true, false, none, some, List, [], ◌∷◌, ◌++◌,
}
use memos_note.Tasks.Toggle.{
  newline, after_box, after_indent, match_task, box, toggle_line, toggle_task_at_line, ListItem,
  task_of, tasks_of, task_at, extract_tasks_from_ast, get_task_line_number, count_tasks,
}
use memos_note.Tasks.Toggle.Laws.{split-toggle_task_at_line, toggle_task_at_line-return}
use memos_note.Tasks.Toggle.Matching.{IsTask}

abbrev two_tasks : Text
two_tasks = codes "- [ ] a\n  * [X] b"

abbrev windows_task : Text
windows_task = codes "x\n- [ ] a" ++ 13 ∷ 10 ∷ codes "y"

abbrev first_task : IsTask (codes "- [ ] a") (codes "- ") (codes " a")
first_task = record {
  indent = [];
  bullet = b'-';
  gap = codes " ";
  mark = b' ';
  space = codes " ";
  rest = codes "a";
  is_line = refl;
  is_prefix = refl;
  is_end = refl;
  indent_spaces = refl;
  bullet_one = refl;
  gap_spaces = refl;
  gap_some = refl;
  mark_one = refl;
  space_spaces = refl;
  space_some = refl;
  rest_dots = refl;
}

split-toggle_task_at_line_example :
    split newline (toggle_task_at_line two_tasks (pos 0) true)
    ≡ codes "- [x] a" ∷ codes "  * [X] b" ∷ []
split-toggle_task_at_line_example =
    split-toggle_task_at_line two_tasks 0 true (codes "- [ ] a") (codes "- ") (codes " a") refl
      first_task

toggle_task_at_line-return_example : toggle_task_at_line windows_task (pos 1) true ≡ windows_task
toggle_task_at_line-return_example =
    toggle_task_at_line-return windows_task 1 true (codes "- [ ] a") (codes "- ") (codes " a") refl
      first_task refl

toggle_test : toggle_task_at_line two_tasks (pos 1) false ≡ codes "- [ ] a\n  * [ ] b"
unfolding toggle_task_at_line toggle_line match_task after_indent after_box box
toggle_test = refl

abbrev two_items : Text → List ListItem
two_items _ =
    record { checked = some false; start_line = some 1 }
    ∷ record { checked = none; start_line = some 1 }
    ∷ record { checked = some true; start_line = some 2 }
    ∷ []

count_test : count_tasks two_items two_tasks ≡ record { total = 2; completed = 1; incomplete = 1 }
unfolding count_tasks extract_tasks_from_ast tasks_of task_of
count_test = refl

index_test : get_task_line_number two_items two_tasks (pos 1) ≡ pos 1
unfolding get_task_line_number extract_tasks_from_ast tasks_of task_of task_at
index_test = refl
