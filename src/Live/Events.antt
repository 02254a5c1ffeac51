-- ===== src/Live/Events.antt =====
-- What an event of the server does to the cache: `handleSSEEvent` of
-- web/src/hooks/useLiveMemoRefresh.ts. The calls of the query client are recorded with their keys,
-- those of `memoKeys` and `userKeys` in web/src/hooks/useMemoQueries.ts and useUserQueries.ts.
use memos_note.Common.{
  if◌then◌else◌, Text, codes, text_eq, ◌||◌, Option, none, some, List, [], ◌∷◌, ◌++◌,
}
use memos_note.Live.Stream.{ChangeEvent}

pub data QueryKey : Type 0 where
  all_memos memo_lists user_stats : QueryKey
  memo_detail memo_comments : Text → QueryKey

pub data CacheCall : Type 0 where
  invalidate remove invalidate_active : QueryKey → CacheCall

abbrev pub memo_created : Text
memo_created = codes "memo.created"

abbrev pub memo_updated : Text
memo_updated = codes "memo.updated"

abbrev pub memo_deleted : Text
memo_deleted = codes "memo.deleted"

abbrev pub memo_comment_created : Text
memo_comment_created = codes "memo.comment.created"

abbrev pub reaction_upserted : Text
reaction_upserted = codes "reaction.upserted"

abbrev pub reaction_deleted : Text
reaction_deleted = codes "reaction.deleted"

-- `if (event.parent)`: an empty text is falsy.
unfoldable pub comments_of : Option Text → List CacheCall
comments_of none = []
comments_of (some []) = []
comments_of (some (c ∷ s)) = invalidate (memo_comments (c ∷ s)) ∷ []

unfoldable pub handle_sse_event : ChangeEvent → List CacheCall
unfolding comments_of
handle_sse_event e =
    if text_eq e.type memo_created
    then invalidate memo_lists ∷ invalidate user_stats ∷ []
    else if text_eq e.type memo_updated
    then invalidate (memo_detail e.name) ∷ invalidate memo_lists ∷ comments_of e.parent
    else if text_eq e.type memo_deleted
    then remove (memo_detail e.name) ∷ invalidate memo_lists ∷ invalidate user_stats ∷ []
    else if text_eq e.type memo_comment_created
    then invalidate (memo_comments e.name) ∷ invalidate (memo_detail e.name) ∷ []
    else if text_eq e.type reaction_upserted || text_eq e.type reaction_deleted
    then invalidate (memo_detail e.name) ∷ invalidate memo_lists ∷ comments_of e.parent
    else []

unfoldable pub handle_sse_events : List ChangeEvent → List CacheCall
handle_sse_events [] = []
handle_sse_events (e ∷ es) = handle_sse_event e ++ handle_sse_events es
