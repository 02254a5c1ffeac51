-- ===== src/Memos/Queries/Samples.antt =====
-- A page with two memos, one of them pinned.
use memos_note.Common.{map_option, codes, ◌≡◌, refl, true, false, none, some, [], ◌∷◌}
use memos_note.Api.{normal, private, Location, Memo}
use memos_note.Memos.Queries.{
  QueryData, infinite, MemoPatch, whole, merge, patch_memos, patch_memo_list_response, patch_pages,
  patch_memo_list_query_data, find_memo_in_list_response, find_memo_in_pages,
  find_memo_in_query_data,
}
use memos_note.Memos.Queries.Laws.{with_each, rolled_back, patch_memo_list_query_data-back}

abbrev plain_memo : Memo
plain_memo = record {
  name = codes "memos/1";
  state = normal;
  creator = codes "users/1";
  create_time = none;
  update_time = none;
  content = codes "hi";
  visibility = private;
  tags = [];
  pinned = false;
  attachments = [];
  relations = [];
  reactions = [];
  property = none;
  parent = none;
  snippet = [];
  location = none;
}

abbrev two_pages : QueryData
two_pages = infinite (
    record { memos = plain_memo ∷ []; next_page_token = codes "p" }
    ∷ record { memos = record plain_memo { name = codes "memos/2" } ∷ []; next_page_token = [] }
    ∷ [])

abbrev pin : MemoPatch
pin = record {
  name = codes "memos/1";
  state = none;
  creator = none;
  create_time = none;
  update_time = none;
  content = none;
  visibility = none;
  tags = none;
  pinned = some true;
  attachments = none;
  relations = none;
  reactions = none;
  property = none;
  parent = none;
  snippet = none;
  location = none;
}

pinned_now :
    map_option
      (λ m. m.pinned)
      (find_memo_in_query_data (patch_memo_list_query_data (some two_pages) pin) (codes "memos/1"))
    ≡ some true
unfolding find_memo_in_query_data find_memo_in_pages find_memo_in_list_response
    patch_memo_list_query_data patch_pages patch_memo_list_response patch_memos merge
pinned_now = refl

abbrev paris : Location
paris = record { placeholder = codes "Paris"; latitude = codes "48.9"; longitude = codes "2.4" }

abbrev place : MemoPatch
place = record pin { location = some (some paris) }

still_placed :
    map_option
      (λ m. m.location)
      (find_memo_in_query_data
        (patch_memo_list_query_data
          (patch_memo_list_query_data (some two_pages) place)
          (whole plain_memo))
        (codes "memos/1"))
    ≡ some (some paris)
unfolding find_memo_in_query_data find_memo_in_pages find_memo_in_list_response whole
    patch_memo_list_query_data patch_pages patch_memo_list_response patch_memos merge
still_placed = refl

patch_memo_list_query_data-back_example :
    patch_memo_list_query_data
      (patch_memo_list_query_data (some two_pages) place)
      (whole plain_memo)
    ≡ some (with_each (rolled_back place plain_memo) two_pages)
patch_memo_list_query_data-back_example =
    patch_memo_list_query_data-back place plain_memo two_pages refl ((refl, tt), ((refl, tt), tt))
