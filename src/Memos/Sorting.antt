-- ===== src/Memos/Sorting.antt =====
-- The order of a memo list: web/src/hooks/useMemoSorting.ts. The seconds that dayjs makes of a time are
-- a parameter, for a missing time too; `sort` of the script is stable, as an insertion is.
pub mod Hoisting
pub mod Laws
mod Samples
use memos_note.Common.{
  leb, if◌then◌else◌, Bool_eq, filter, map_option, Text, codes, text_eq, ℕ, Bool, true, false, not,
  ◌&&◌, Option, none, some, List, [], ◌∷◌, ◌++◌,
}
use memos_note.Api.{Timestamp, State, state_unspecified, normal, archived, Memo}

pub data MemoTimeBasis : Type 0 where
  by_create_time by_update_time : MemoTimeBasis

-- The options of the hook and what `useView` gives.
pub record Order : Type 0 where
  pub pinned_first : Bool
  pub state : State
  pub order_by_time_asc : Bool
  pub time_basis : MemoTimeBasis

abbrev pub get_memo_sort_time : Memo → MemoTimeBasis → Option Timestamp
get_memo_sort_time m by_update_time = m.update_time
get_memo_sort_time m by_create_time = m.create_time

abbrev pub state_eq : State → State → Bool
state_eq state_unspecified state_unspecified = true
state_eq normal normal = true
state_eq archived archived = true
state_eq _ _ = false

-- `findIndex` and what follows it: the memo with a name, and the others.
unfoldable pub take_out : Text → List Memo → Option (Memo × List Memo)
take_out name [] = none
take_out name (m ∷ memos) =
    let later = map_option {B = Memo × List Memo} (λ r. (r.0, m ∷ r.1)) (take_out name memos) in
    if text_eq m.name name then some (m, memos) else later

unfoldable pub put_first : List Memo → Option (Memo × List Memo) → List Memo
put_first memos none = memos
put_first memos (some (m, others)) = m ∷ others

-- `if (!name)`: an empty name is falsy. At the first place nothing changes.
unfoldable pub hoist_memo_to_front : List Memo → Option Text → List Memo
unfolding put_first take_out
hoist_memo_to_front memos none = memos
hoist_memo_to_front memos (some []) = memos
hoist_memo_to_front memos (some (c ∷ s)) = put_first memos (take_out (c ∷ s) memos)

unfoldable pub time_order : Bool → MemoTimeBasis → Text
time_order asc by_create_time = codes "create_time" ++ (if asc then codes " asc" else codes " desc")
time_order asc by_update_time = codes "update_time" ++ (if asc then codes " asc" else codes " desc")

-- `orderBy`, for the service
unfoldable pub order_by : Order → Text
unfolding time_order
order_by o =
    if o.pinned_first
    then codes "pinned desc, " ++ time_order o.order_by_time_asc o.time_basis
    else time_order o.order_by_time_asc o.time_basis

module _ (unix : Option Timestamp → ℕ) (o : Order) where
  -- The comparison does not put the first memo after the second.
  unfoldable pub le : Memo → Memo → Bool
  le a b =
      let ta = unix (get_memo_sort_time a o.time_basis) in
      let tb = unix (get_memo_sort_time b o.time_basis) in
      if o.pinned_first && not (Bool_eq a.pinned b.pinned)
      then a.pinned
      else if o.order_by_time_asc
      then leb ta tb
      else leb tb ta

  unfoldable pub insert : Memo → List Memo → List Memo
  unfolding le
  insert m [] = m ∷ []
  insert m (n ∷ memos) = let later = insert m memos in if le m n then m ∷ n ∷ memos else n ∷ later

  unfoldable pub sort : List Memo → List Memo
  unfolding insert
  sort [] = []
  sort (m ∷ memos) = insert m (sort memos)

  unfoldable pub list_sort : List Memo → List Memo
  unfolding sort
  list_sort memos = sort (filter (λ m. state_eq m.state o.state) memos)
