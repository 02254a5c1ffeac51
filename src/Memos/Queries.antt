-- ===== src/Memos/Queries.antt =====
-- What the client does to the lists of memos that it has fetched: `patchMemoListQueryData` and
-- `findMemoInQueryData` of web/src/hooks/useMemoQueries.ts, on data of either shape. A patch has
-- `none` where it does not name a field.
pub mod Laws
mod Samples
use memos_note.Common.{
  if◌then◌else◌, get_or_else, or_else, find, map_option, Text, text_eq, Bool, true, false, ◌||◌,
  Option, none, some, List, [], ◌∷◌,
}
use memos_note.Api.{
  Timestamp, State, Visibility, Attachment, MemoRelation, Reaction, Location, Property, Memo,
}

pub record ListMemosResponse : Type 0 where
  pub memos : List Memo
  pub next_page_token : Text

-- `ListMemosResponse | InfiniteData<ListMemosResponse>`, or data of another query.
pub data QueryData : Type 0 where
  memo_list : ListMemosResponse → QueryData
  infinite : List ListMemosResponse → QueryData
  other : QueryData

-- `Partial<Memo> & Pick<Memo, "name">`
pub record MemoPatch : Type 0 where
  pub name : Text
  pub state : Option State
  pub creator : Option Text
  pub create_time : Option (Option Timestamp)
  pub update_time : Option (Option Timestamp)
  pub content : Option Text
  pub visibility : Option Visibility
  pub tags : Option (List Text)
  pub pinned : Option Bool
  pub attachments : Option (List Attachment)
  pub relations : Option (List MemoRelation)
  pub reactions : Option (List Reaction)
  pub property : Option (Option Property)
  pub parent : Option (Option Text)
  pub snippet : Option Text
  pub location : Option (Option Location)

-- A memo given as a patch: a time, a property, a parent or a location that is unset is no key of it.
unfoldable pub whole : Memo → MemoPatch
whole memo = record {
  name = memo.name;
  state = some memo.state;
  creator = some memo.creator;
  create_time = map_option some memo.create_time;
  update_time = map_option some memo.update_time;
  content = some memo.content;
  visibility = some memo.visibility;
  tags = some memo.tags;
  pinned = some memo.pinned;
  attachments = some memo.attachments;
  relations = some memo.relations;
  reactions = some memo.reactions;
  property = map_option some memo.property;
  parent = map_option some memo.parent;
  snippet = some memo.snippet;
  location = map_option some memo.location;
}

-- `{ ...memo, ...update }`
unfoldable pub merge : Memo → MemoPatch → Memo
merge memo update = record {
  name = update.name;
  state = get_or_else update.state memo.state;
  creator = get_or_else update.creator memo.creator;
  create_time = get_or_else update.create_time memo.create_time;
  update_time = get_or_else update.update_time memo.update_time;
  content = get_or_else update.content memo.content;
  visibility = get_or_else update.visibility memo.visibility;
  tags = get_or_else update.tags memo.tags;
  pinned = get_or_else update.pinned memo.pinned;
  attachments = get_or_else update.attachments memo.attachments;
  relations = get_or_else update.relations memo.relations;
  reactions = get_or_else update.reactions memo.reactions;
  property = get_or_else update.property memo.property;
  parent = get_or_else update.parent memo.parent;
  snippet = get_or_else update.snippet memo.snippet;
  location = get_or_else update.location memo.location;
}

-- The memos after a patch, and whether one of them was patched.
unfoldable pub patch_memos : MemoPatch → List Memo → List Memo × Bool
patch_memos update [] = ([], false)
patch_memos update (memo ∷ memos) =
    let (rest, changed) = patch_memos update memos in
    if text_eq memo.name update.name
    then (merge memo update ∷ rest, true)
    else (memo ∷ rest, changed)

-- The response, and whether it is another object than before.
unfoldable pub patch_memo_list_response : MemoPatch → ListMemosResponse → ListMemosResponse × Bool
patch_memo_list_response update response =
    let (memos, changed) = patch_memos update response.memos in
    if changed then (record response { memos = memos }, true) else (response, false)

unfoldable pub patch_pages : MemoPatch → List ListMemosResponse → List ListMemosResponse × Bool
patch_pages update [] = ([], false)
patch_pages update (page ∷ pages) =
    let (patched_page, page_changed) = patch_memo_list_response update page in
    let (rest, changed) = patch_pages update pages in (patched_page ∷ rest, page_changed || changed)

unfoldable pub patch_memo_list_query_data : Option QueryData → MemoPatch → Option QueryData
patch_memo_list_query_data none update = none
patch_memo_list_query_data (some (memo_list response)) update =
    some (memo_list (patch_memo_list_response update response).0)
patch_memo_list_query_data (some (infinite pages)) update =
    let (patched, changed) = patch_pages update pages in
    some (infinite (if changed then patched else pages))
patch_memo_list_query_data (some other) update = some other

unfoldable pub find_memo_in_list_response : ListMemosResponse → Text → Option Memo
find_memo_in_list_response response name = find (λ memo. text_eq memo.name name) response.memos

unfoldable pub find_memo_in_pages : List ListMemosResponse → Text → Option Memo
find_memo_in_pages [] name = none
find_memo_in_pages (page ∷ pages) name =
    or_else (find_memo_in_list_response page name) (find_memo_in_pages pages name)

unfoldable pub find_memo_in_query_data : Option QueryData → Text → Option Memo
find_memo_in_query_data none name = none
find_memo_in_query_data (some (memo_list response)) name = find_memo_in_list_response response name
find_memo_in_query_data (some (infinite pages)) name = find_memo_in_pages pages name
find_memo_in_query_data (some other) name = none
