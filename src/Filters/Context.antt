-- ===== src/Filters/Context.antt =====
-- The filters, their text in the address, and the two effects that keep them in step:
-- web/src/contexts/MemoFilterContext.tsx. A factor is a text, as the address may hold any;
-- `encodeURIComponent` and `decodeURIComponent` are parameters, `none` where decoding throws.
pub mod Reading
pub mod Sync
mod Samples
use memos_note.Common.{
  if◌then◌else◌, is_some, get_or_else, any, filter, map_option, Text, codes, text_eq, join, split,
  ℕ, Bool, true, false, not, ◌||◌, Option, none, some, List, [], ◌∷◌, ◌++◌, map,
}

abbrev pub comma : ℕ
comma = b','

abbrev pub colon : ℕ
colon = b':'

pub record MemoFilter : Type 0 where
  pub factor : Text
  pub value : Text

abbrev pub content_search : Text
content_search = codes "contentSearch"

unfoldable pub get_memo_filter_key : MemoFilter → Text
get_memo_filter_key f = f.factor ++ codes ":" ++ f.value

abbrev pub filter_eq : MemoFilter → MemoFilter → Bool
unfolding get_memo_filter_key
filter_eq f g = text_eq (get_memo_filter_key f) (get_memo_filter_key g)

-- `uniqBy(filters, getMemoFilterKey)`: the first of each key
unfoldable pub uniq_by_key : List Text → List MemoFilter → List MemoFilter
uniq_by_key seen [] = []
uniq_by_key seen (f ∷ fs) =
    let skipped = uniq_by_key seen fs in
    let later = uniq_by_key (get_memo_filter_key f ∷ seen) fs in
    if any (text_eq (get_memo_filter_key f)) seen then skipped else f ∷ later

pub record Filters : Type 0 where
  pub filters : List MemoFilter
  pub shortcut : Option Text

unfoldable pub add_filter : MemoFilter → Filters → Filters
unfolding uniq_by_key
add_filter f c = record c { filters = uniq_by_key [] (c.filters ++ f ∷ []) }

unfoldable pub remove_filter : (MemoFilter → Bool) → Filters → Filters
remove_filter predicate c = record c { filters = filter (λ f. not (predicate f)) c.filters }

unfoldable pub remove_filters_by_factor : Text → Filters → Filters
remove_filters_by_factor factor c = record c {
  filters = filter (λ f. not (text_eq f.factor factor)) c.filters;
}

unfoldable pub set_filters : List MemoFilter → Filters → Filters
set_filters fs c = record c { filters = fs }

unfoldable pub clear_all_filters : Filters → Filters
clear_all_filters c = record { filters = []; shortcut = none }

unfoldable pub set_shortcut : Option Text → Filters → Filters
unfolding remove_filters_by_factor
set_shortcut none c = record c { shortcut = none }
set_shortcut (some s) c = remove_filters_by_factor content_search (record c { shortcut = some s })

unfoldable pub has_filter : MemoFilter → Filters → Bool
has_filter f c = any (λ g. filter_eq g f) c.filters

unfoldable pub has_active_filters : Filters → Bool
has_active_filters c = not (is_empty c.filters) || is_some c.shortcut
  where
    is_empty : List MemoFilter → Bool
    is_empty [] = true
    is_empty (_ ∷ _) = false

unfoldable pub get_filters_by_factor : Text → Filters → List MemoFilter
get_filters_by_factor factor c = filter (λ f. text_eq f.factor factor) c.filters

module _ (encode : Text → Text) (decode : Text → Option Text) where
  abbrev pub printed : MemoFilter → Text
  printed f = f.factor ++ colon ∷ encode f.value

  unfoldable pub stringify_filters : List MemoFilter → Text
  stringify_filters fs = join (comma ∷ []) (map printed fs)

  -- `const [factor, value] = filterStr.split(":")`, with `value || ""`
  unfoldable pub parse_parts : List Text → Option MemoFilter
  parse_parts [] = none
  parse_parts (factor ∷ []) = map_option (λ v. record { factor = factor; value = v }) (decode [])
  parse_parts (factor ∷ value ∷ _) =
      map_option (λ v. record { factor = factor; value = v }) (decode value)

  abbrev pub cons_parsed : Option MemoFilter → Option (List MemoFilter) → Option (List MemoFilter)
  cons_parsed (some f) (some fs) = some (f ∷ fs)
  cons_parsed _ _ = none

  unfoldable pub parse_pieces : List Text → Option (List MemoFilter)
  unfolding parse_parts
  parse_pieces [] = some []
  parse_pieces (s ∷ ss) = cons_parsed (parse_parts (split colon s)) (parse_pieces ss)

  -- `null` is as the empty text here, and a piece that cannot be decoded empties the result.
  unfoldable pub parse_filter_query : Text → List MemoFilter
  unfolding parse_pieces
  parse_filter_query [] = []
  parse_filter_query (c ∷ query) = get_or_else (parse_pieces (split comma (c ∷ query))) []

  -- The `filter` of the address, empty where there is none, the filters of the state, and the two refs.
  pub record Synced : Type 0 where
    pub url : Text
    pub state : List MemoFilter
    pub last_synced_url : Text
    pub last_synced_store : Text

  -- The first effect.
  unfoldable pub sync_from_url : Synced → Synced
  unfolding parse_filter_query stringify_filters
  sync_from_url s =
      let new_filters = parse_filter_query s.url in
      if text_eq s.url s.last_synced_url then s else record s {
        last_synced_url = s.url;
        state = new_filters;
        last_synced_store = stringify_filters new_filters;
      }

  -- The second effect, for the filters that were rendered. Without filters the text is empty, and the
  -- parameter is taken out of the address.
  unfoldable pub sync_to_url : List MemoFilter → Synced → Synced
  unfolding stringify_filters
  sync_to_url rendered s =
      let store_string = stringify_filters rendered in
      if text_eq store_string s.last_synced_store || text_eq store_string s.last_synced_url
      then s
      else record s {
        last_synced_store = store_string;
        url = store_string;
        last_synced_url = store_string;
      }

  -- Both effects after a rendering; the second still sees the filters that were rendered.
  unfoldable pub commit : Synced → Synced
  unfolding sync_from_url sync_to_url
  commit s = sync_to_url s.state (sync_from_url s)
