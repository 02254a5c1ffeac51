-- ===== src/Media/Items/Groups.antt =====
-- The groups that the first loop collects.
use memos_note.Common.{
  if◌then◌else◌, Bool-cases, filter, Text, text_eq, text_eq_sound, ◌≡◌, refl, sym, ap, ◌∙◌, inl,
  inr, Bool, true, false, Option, none, some, List, [], ◌∷◌, ◌++◌, append-nil, append_assoc,
}
use memos_note.Api.{Attachment}
use memos_note.Media.Items.{push_to, add_to_groups, attachments_by_group, get_group}
use memos_note.Media.Types.{get_attachment_motion_group_id}

abbrev pub is_id : Text → Option Text → Bool
is_id g none = false
is_id g (some h) = text_eq g h

abbrev pub in_group : Text → Attachment → Bool
in_group g a = is_id g (get_attachment_motion_group_id a)

get_group-push_to :
    (g h : Text) (a : Attachment) (groups : List (Text × List Attachment))
    → get_group g (push_to h a groups)
      ≡ (if text_eq g h then get_group g groups ++ (a ∷ []) else get_group g groups)
unfolding get_group push_to
get_group-push_to g h a [] = refl
get_group-push_to g h a ((k, group) ∷ groups) = elim (Bool-cases (text_eq h k)) [
  | inl e ↦ rw e (rw (text_eq_sound h k e) (same (text_eq g k) group (get_group g groups)))
  | inr e ↦ rw e (
      ap (λ x. if text_eq g k then group else x) (get_group-push_to g h a groups)
      ∙ other (text_eq g k) (text_eq g h) group (get_group g groups) (distinct e))
]
  where
    same :
        (p : Bool) (x y : List Attachment)
        → (if p then x ++ (a ∷ []) else y)
          ≡ (if p then (if p then x else y) ++ (a ∷ []) else (if p then x else y))
    same true x y = refl
    same false x y = refl

    distinct : text_eq h k ≡ false → text_eq g k ≡ true → text_eq g h ≡ false
    distinct e p = elim (Bool-cases (text_eq g h)) [
      | inl q ↦
          let c : text_eq h k ≡ true = ap (λ t. text_eq t k) (sym (text_eq_sound g h q)) ∙ p in cc
      | inr q ↦ q
    ]

    other :
        (p q : Bool) (x y : List Attachment)
        → (p ≡ true → q ≡ false)
        → (if p then x else (if q then y ++ (a ∷ []) else y))
          ≡ (if q then (if p then x else y) ++ (a ∷ []) else (if p then x else y))
    other true true x y h = let c = h refl in cc
    other true false x y h = refl
    other false q x y h = refl

get_group-from :
    (g : Text) (list : List Attachment) (groups : List (Text × List Attachment))
    → get_group g (attachments_by_group list groups)
      ≡ get_group g groups ++ filter (in_group g) list
unfolding attachments_by_group
get_group-from g [] groups = sym (append-nil (get_group g groups))
get_group-from g (a ∷ list) groups =
    get_group-from g list (add_to_groups (get_attachment_motion_group_id a) a groups)
    ∙ added (get_attachment_motion_group_id a)
  where
    added :
        (o : Option Text)
        → get_group g (add_to_groups o a groups) ++ filter (in_group g) list
          ≡ get_group g groups
            ++ (let rest = filter (in_group g) list in if is_id g o then a ∷ rest else rest)
    added none = refl
    added (some h) =
        ap (λ x. x ++ filter (in_group g) list) (get_group-push_to g h a groups)
        ∙ choice (text_eq g h) (get_group g groups) (filter (in_group g) list)
      where
        choice :
            (b : Bool) (y r : List Attachment)
            → (if b then y ++ (a ∷ []) else y) ++ r ≡ y ++ (if b then a ∷ r else r)
        choice true y r = append_assoc y (a ∷ []) r
        choice false y r = refl

-- A group is what the list has of it, in order.
pub get_group-filter :
    (g : Text) (list : List Attachment)
    → get_group g (attachments_by_group list []) ≡ filter (in_group g) list
unfolding get_group
get_group-filter g list = get_group-from g list []
