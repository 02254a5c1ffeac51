-- ===== src/Tasks/Edits/Samples.antt =====
-- The theorems on a concrete text, and tests.
use memos_note.Common.{Text, codes, ◌≡◌, refl, true, false, Option, some, List, [], ◌∷◌}
use memos_note.Tasks.Edits.{
  MarkdownEdit, line_starts_from, get_line_starts, end_of, get_line_info, take_numbered,
  take_bullet, offset_after, marker_offset, marker_in, marker_of, parsed_item, parsed_items,
  insert_edit, sort_edits, fits, splice_all, apply_markdown_edits, edits_of, parse_task_items,
  set_all_task_markers, check_all_tasks,
}
use memos_note.Tasks.Toggle.{ListItem}
use memos_note.Tasks.Edits.Placing.{sign, IsTaskStart}

abbrev three_tasks : Text
three_tasks = codes "- [ ] a\n1. [X] b\n  + [ ] c"

abbrev three_items : List ListItem
three_items =
    record { checked = some false; start_line = some 1 }
    ∷ record { checked = some true; start_line = some 2 }
    ∷ record { checked = some false; start_line = some 3 }
    ∷ []

abbrev three : Text → Option (List ListItem)
three _ = some three_items

abbrev two_edits : List MarkdownEdit
two_edits =
    record { start = 5; end = 5; replacement = codes "!" }
    ∷ record { start = 0; end = 2; replacement = codes "xyz" }
    ∷ []

edits_test : apply_markdown_edits (codes "hello") two_edits ≡ codes "xyzllo!"
unfolding apply_markdown_edits sort_edits insert_edit fits splice_all
edits_test = refl

check_test : check_all_tasks three three_tasks ≡ codes "- [x] a\n1. [X] b\n  + [x] c"
unfolding set_all_task_markers apply_markdown_edits edits_of parse_task_items sort_edits insert_edit
    fits splice_all parsed_items parsed_item get_line_starts line_starts_from marker_of
    get_line_info marker_in end_of marker_offset offset_after take_bullet take_numbered
check_test = refl

abbrev plus_start : IsTaskStart (codes "  + ")
plus_start = record {
  indent = codes "  ";
  bullet = codes "+";
  gap = codes " ";
  is_front = refl;
  indent_spaces = refl;
  bullet_one = sign b'+' refl;
  gap_spaces = refl;
  gap_some = refl;
}
