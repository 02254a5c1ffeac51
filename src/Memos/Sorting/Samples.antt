-- ===== src/Memos/Sorting/Samples.antt =====
-- The theorem on concrete memos, and tests.
use memos_note.Common.{
  if◌then◌else◌, any, Text, codes, text_eq, ℕ, ◌≡◌, refl, Bool, true, false, not, ◌&&◌, Option,
  none, some, List, [], ◌∷◌, map,
}
use memos_note.Api.{Timestamp, normal, private, Memo}
use memos_note.Memos.Sorting.{
  by_create_time, Order, take_out, put_first, hoist_memo_to_front, le, insert, sort, list_sort,
}
use memos_note.Memos.Sorting.Laws.{IsOrdered, list_sort_lem}
use memos_note.Memos.Sorting.Hoisting.{count, first_name}

abbrev memo : Text → Bool → Memo
memo name is_pinned = record {
  name = name;
  state = normal;
  creator = codes "users/1";
  create_time = none;
  update_time = none;
  content = codes "hi";
  visibility = private;
  tags = [];
  pinned = is_pinned;
  attachments = [];
  relations = [];
  reactions = [];
  property = none;
  parent = none;
  snippet = [];
  location = none;
}

abbrev same_time : Option Timestamp → ℕ
same_time _ = 5

abbrev pinned_order : Order
pinned_order = record {
  pinned_first = true;
  state = normal;
  order_by_time_asc = false;
  time_basis = by_create_time;
}

abbrev three_memos : List Memo
three_memos = memo (codes "a") false ∷ memo (codes "b") true ∷ memo (codes "c") false ∷ []

sort_test :
    map (λ m. m.name) (list_sort same_time pinned_order three_memos)
    ≡ codes "b" ∷ codes "a" ∷ codes "c" ∷ []
unfolding list_sort sort insert le
sort_test = refl

hoist_test :
    map (λ m. m.name) (hoist_memo_to_front three_memos (some (codes "c")))
    ≡ codes "c" ∷ codes "a" ∷ codes "b" ∷ []
unfolding hoist_memo_to_front put_first take_out
hoist_test = refl

list_sort_lem_example :
    let sorted = list_sort same_time pinned_order three_memos in
    IsOrdered same_time pinned_order sorted
    × (count (λ m. m.pinned) sorted ≡ 1)
    × (first_name (hoist_memo_to_front sorted (some (codes "c"))) ≡ (
        if not (text_eq (codes "c") []) && any (λ m. text_eq m.name (codes "c")) sorted
        then some (codes "c")
        else first_name sorted))
    × (count (λ m. m.pinned) (hoist_memo_to_front sorted (some (codes "c"))) ≡ 1)
list_sort_lem_example = list_sort_lem same_time pinned_order three_memos (codes "c") (λ m. m.pinned)
