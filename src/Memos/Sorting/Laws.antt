-- ===== src/Memos/Sorting/Laws.antt =====
-- A sorted list has the memos of the list, in the order that is asked for.
use memos_note.Common.{
  leb, ◌==◌, if◌then◌else◌, leb→le, Bool-cases, both, Bool_eq, any, all, filter, All, Text, text_eq,
  ℕ, ◌≤◌, ◌<◌, ◌≡◌, refl, ap, ap₂, ◌∙◌, ◌⊎◌, inl, inr, Bool, true, false, not, ◌&&◌, Option, some,
  List, [], ◌∷◌, arith,
}
use memos_note.Api.{Timestamp, State, state_unspecified, normal, archived, Memo}
use memos_note.Memos.Sorting.{
  by_create_time, by_update_time, Order, get_memo_sort_time, state_eq, hoist_memo_to_front, le,
  insert, sort, list_sort,
}
use memos_note.Memos.Sorting.Hoisting.{
  count, count-hoist_memo_to_front, first_name, hoist_memo_to_front-first,
}

-- The place among the pinned and the others, where the pinned come first.
abbrev pub rank_of : Bool → Bool → ℕ
rank_of pinned_first pinned = if pinned_first && pinned then 0 else 1

-- The number of a state in the service's definition.
abbrev pub number : State → ℕ
number state_unspecified = 0
number normal = 1
number archived = 2

state_eq-number : (s t : State) → state_eq s t ≡ (number s == number t)
state_eq-number state_unspecified state_unspecified = refl
state_eq-number state_unspecified normal = refl
state_eq-number state_unspecified archived = refl
state_eq-number normal state_unspecified = refl
state_eq-number normal normal = refl
state_eq-number normal archived = refl
state_eq-number archived state_unspecified = refl
state_eq-number archived normal = refl
state_eq-number archived archived = refl

filter-state_eq :
    (t : State) (memos : List Memo)
    → filter (λ m. state_eq m.state t) memos ≡ filter (λ m. number m.state == number t) memos
filter-state_eq t [] = refl
filter-state_eq t (m ∷ memos) =
    ap₂ (λ b rest. if b then m ∷ rest else rest) (state_eq-number m.state t)
      (filter-state_eq t memos)

module _ (unix : Option Timestamp → ℕ) (o : Order) where
  le_total : (a b : Memo) → le unix o a b ≡ false → le unix o b a ≡ true
  unfolding le
  le_total a b h = ground (arith, h)

  le_trans : (a b c : Memo) → le unix o a b ≡ true → le unix o b c ≡ true → le unix o a c ≡ true
  unfolding le
  le_trans a b c h k = ground (arith, h, k)

  -- No memo is to stand before one that stands before it.
  abbrev pub in_order : List Memo → Bool
  unfolding le
  in_order [] = true
  in_order (m ∷ memos) = all (le unix o m) memos && in_order memos

  all-insert :
      (p : Memo → Bool) (m : Memo) (memos : List Memo)
      → p m ≡ true
      → all p memos ≡ true
      → all p (insert unix o m memos) ≡ true
  unfolding insert
  all-insert p m [] h k = rw h refl
  all-insert p m (n ∷ memos) h k = elim (Bool-cases (le unix o m n)) [
    | inl e ↦ rw e (rw h k)
    | inr e ↦ let (a, b) = both (p n) (all p memos) k in rw e (rw a (all-insert p m memos h b))
  ]

  all-le :
      (m n : Memo) (memos : List Memo)
      → le unix o m n ≡ true
      → all (le unix o n) memos ≡ true
      → all (le unix o m) memos ≡ true
  all-le m n [] h k = refl
  all-le m n (r ∷ memos) h k =
      let (a, b) = both (le unix o n r) (all (le unix o n) memos) k in
      ap₂ (λ x y. x && y) (le_trans m n r h a) (all-le m n memos h b)

  in_order-insert :
      (m : Memo) (memos : List Memo)
      → in_order memos ≡ true
      → in_order (insert unix o m memos) ≡ true
  unfolding insert in_order
  in_order-insert m [] h = refl
  in_order-insert m (n ∷ memos) h = elim (Bool-cases (le unix o m n)) [
    | inl e ↦
        let (a, b) = both (all (le unix o n) memos) (in_order memos) h in
        rw e (ap₂ (λ x y. x && y) (ap₂ (λ x y. x && y) e (all-le m n memos e a)) h)
    | inr e ↦
        let (a, b) = both (all (le unix o n) memos) (in_order memos) h in
        rw e (
          ap₂ (λ x y. x && y) (all-insert (le unix o n) m memos (le_total m n e) a)
            (in_order-insert m memos b))
  ]

  in_order-sort : (memos : List Memo) → in_order (sort unix o memos) ≡ true
  unfolding sort in_order
  in_order-sort [] = refl
  in_order-sort (m ∷ memos) = in_order-insert m (sort unix o memos) (in_order-sort memos)

  count-insert :
      (p : Memo → Bool) (m : Memo) (memos : List Memo)
      → count p (insert unix o m memos) ≡ count p (m ∷ memos)
  unfolding insert
  count-insert p m [] = refl
  count-insert p m (n ∷ memos) = elim (Bool-cases (le unix o m n)) [
    | inl e ↦ rw e refl
    | inr e ↦ rw e (ground (arith, count-insert p m memos))
  ]

  count-sort : (p : Memo → Bool) (memos : List Memo) → count p (sort unix o memos) ≡ count p memos
  unfolding sort
  count-sort p [] = refl
  count-sort p (m ∷ memos) =
      count-insert p m (sort unix o memos) ∙ ground (arith, count-sort p memos)

  abbrev pub rank : Memo → ℕ
  rank m = rank_of o.pinned_first m.pinned

  -- The seconds of the field that the order goes by.
  abbrev pub seconds : Memo → ℕ
  seconds m = elim o.time_basis [
    | by_create_time ↦ unix m.create_time
    | by_update_time ↦ unix m.update_time
  ]

  -- A memo may stand before another: its rank is lower, or it is the same and the times are in the
  -- order that is asked for, the latest first if it is not the ascending one.
  abbrev pub IsBefore : Memo → Memo → Type 0
  IsBefore a b =
      (rank a < rank b)
      ⊎ ((rank a ≡ rank b)
          × (if o.order_by_time_asc then seconds a ≤ seconds b else seconds b ≤ seconds a))

  -- Every memo may stand before those that follow it.
  abbrev pub IsOrdered : List Memo → Type 0
  IsOrdered [] = Unit
  IsOrdered (m ∷ memos) = All (IsBefore m) memos × IsOrdered memos

  get_memo_sort_time-seconds : (m : Memo) → seconds m ≡ unix (get_memo_sort_time m o.time_basis)
  get_memo_sort_time-seconds m =
      elim o.time_basis
        as (λ t.
          (elim t [ by_create_time ↦ unix m.create_time | by_update_time ↦ unix m.update_time ])
          ≡ unix (get_memo_sort_time m t)) [ by_create_time ↦ refl | by_update_time ↦ refl ]

  le-IsBefore : (a b : Memo) → le unix o a b ≡ true → IsBefore a b
  unfolding le
  le-IsBefore a b h = rw (get_memo_sort_time-seconds a) (
      rw (get_memo_sort_time-seconds b)
        (first o.pinned_first a.pinned b.pinned o.order_by_time_asc _ _ h))
    where
      in_time :
          (asc : Bool) (s t : ℕ)
          → (if asc then leb s t else leb t s) ≡ true
          → (if asc then s ≤ t else t ≤ s)
      in_time true s t h = leb→le s t h
      in_time false s t h = leb→le t s h

      first :
          (f p q asc : Bool) (s t : ℕ)
          → (if f && not (Bool_eq p q) then p else (if asc then leb s t else leb t s)) ≡ true
          → (rank_of f p < rank_of f q)
            ⊎ ((rank_of f p ≡ rank_of f q) × (if asc then s ≤ t else t ≤ s))
      first false p q asc s t h = inr (refl, in_time asc s t h)
      first true true true asc s t h = inr (refl, in_time asc s t h)
      first true true false asc s t h = inl (omega arith)
      first true false true asc s t h = cc
      first true false false asc s t h = inr (refl, in_time asc s t h)

  all-IsBefore :
      (m : Memo) (memos : List Memo) → all (le unix o m) memos ≡ true → All (IsBefore m) memos
  all-IsBefore m [] h = tt
  all-IsBefore m (n ∷ memos) h =
      let (a, b) = both (le unix o m n) (all (le unix o m) memos) h in
      (le-IsBefore m n a, all-IsBefore m memos b)

  in_order-IsOrdered : (memos : List Memo) → in_order memos ≡ true → IsOrdered memos
  unfolding in_order
  in_order-IsOrdered [] h = tt
  in_order-IsOrdered (m ∷ memos) h =
      let (a, b) = both (all (le unix o m) memos) (in_order memos) h in
      (all-IsBefore m memos a, in_order-IsOrdered memos b)

  -- Whatever is asked for, times that are equal or missing among them: the sorted list has the pinned
  -- memos first, if that is asked for, and its memos in the order of the time that is asked for. It has
  -- each memo of the state that is asked for as often as the list has it, as many meet any test. Put to the front of it, a
  -- memo of a name, if there is one and the name is not empty, is the first, and no memo is lost or added.
  pub list_sort_lem :
      (memos : List Memo) (name : Text) (p : Memo → Bool)
      → let kept = filter (λ m. number m.state == number o.state) memos in
        let sorted = list_sort unix o memos in
        IsOrdered sorted
        × (count p sorted ≡ count p kept)
        × (first_name (hoist_memo_to_front sorted (some name)) ≡ (
            if not (text_eq name []) && any (λ m. text_eq m.name name) sorted
            then some name
            else first_name sorted))
        × (count p (hoist_memo_to_front sorted (some name)) ≡ count p kept)
  unfolding list_sort
  list_sort_lem memos name p =
      let kept = filter (λ m. state_eq m.state o.state) memos in
      let of_state = filter-state_eq o.state memos in
      (
        in_order-IsOrdered (sort unix o kept) (in_order-sort kept),
        count-sort p kept ∙ ap (count p) of_state,
        hoist_memo_to_front-first (sort unix o kept) name,
        count-hoist_memo_to_front (sort unix o kept) (some name) p
            ∙ (count-sort p kept ∙ ap (count p) of_state),
      )
