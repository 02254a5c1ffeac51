-- ===== src/Media/Items/Complete.antt =====
-- The result for a list of attachments: each is shown, under ids that differ.
use memos_note.Common.{
  Bool-cases, both, neither, any, filter, All, All-filter, Text, text_eq, text_eq_sound,
  text_eq_refl, ◌≡◌, refl, sym, ap, ◌∙◌, inl, inr, Bool, true, false, not, ◌&&◌, ◌||◌, Option, none,
  some, List, [], ◌∷◌, map, arith,
}
use memos_note.Api.{Attachment}
use memos_note.Media.Items.{
  AttachmentVisualItem, has, attachments_by_group, get_group, dedupe_visual_items, visit_all,
  build_attachment_visual_items,
}
use memos_note.Media.Items.Groups.{is_id, in_group, get_group-filter}
use memos_note.Media.Items.Naming.{names_of, IsNoGroup, visit_all-IsNamed}
use memos_note.Media.Items.Shown.{shows, named}
use memos_note.Media.Items.Coverage.{
  is_open, pending, IsGrouped, or_true, visit_all-shows, dedupe-shows,
}
use memos_note.Media.Types.{get_attachment_motion_group_id}

All-imp :
    (P Q : Attachment → Type 0) (list : List Attachment)
    → ((a : Attachment) → P a → Q a)
    → All P list
    → All Q list
All-imp P Q [] f h = tt
All-imp P Q (a ∷ list) f (h, hs) = (f a h, All-imp P Q list f hs)

All-kept :
    (P : Attachment → Type 0) (p : Attachment → Bool) (list : List Attachment)
    → All P list
    → All P (filter p list)
All-kept P p [] h = tt
All-kept P p (a ∷ list) (h, hs) = elim (Bool-cases (p a)) [
  | inl q ↦ rw q (h, All-kept P p list hs)
  | inr q ↦ rw q (All-kept P p list hs)
]

named-kept :
    (n : Text) (p : Attachment → Bool) (a : Attachment) (list : List Attachment)
    → named n (filter p list) ≡ true
    → named n (filter p (a ∷ list)) ≡ true
named-kept n p a list h = elim (Bool-cases (p a)) [
  | inl q ↦ rw q (ap (λ b. text_eq n a.name || b) h ∙ or_true (text_eq n a.name))
  | inr q ↦ rw q h
]

filter-IsGrouped :
    (list : List Attachment)
    → All
        (λ b.
          (g : Text)
          → get_attachment_motion_group_id b ≡ some g
          → named b.name (filter (in_group g) list) ≡ true)
        list
filter-IsGrouped [] = tt
filter-IsGrouped (a ∷ list) = (
  λ g e.
      rw (ap (is_id g) e ∙ text_eq_refl g)
        (ap (λ b. b || named a.name (filter (in_group g) list)) (text_eq_refl a.name)),
  All-imp _ _ list (λ b f g e. named-kept b.name (in_group g) a list (f g e))
      (filter-IsGrouped list),
)

filter-none :
    (p : Attachment → Bool) (list : List Attachment) → any p list ≡ false → filter p list ≡ []
filter-none p [] h = refl
filter-none p (a ∷ list) h =
    let (q, r) = neither (p a) (any p list) h in rw q (filter-none p list r)

pending-named : (n : Text) (list : List Attachment) → named n list ≡ true → pending n [] list ≡ true
pending-named n [] h = cc
pending-named n (b ∷ list) h =
    rw (all_open (get_attachment_motion_group_id b))
      (waits (text_eq n b.name) (named n list) (pending n [] list) h (pending-named n list))
  where
    all_open : (o : Option Text) → is_open [] o ≡ true
    all_open none = refl
    all_open (some g) = refl

    waits : (t r s : Bool) → (t || r) ≡ true → (r ≡ true → s ≡ true) → ((t && true) || s) ≡ true
    waits true r s h k = refl
    waits false r s h k = k h

-- No attachment has the group of another, or its own, for its name.
abbrev pub apart : List Attachment → List Attachment → Bool
apart all_of [] = true
apart all_of (a ∷ list) = not (any (in_group a.name) all_of) && apart all_of list

apart-IsNoGroup :
    (all_of list : List Attachment)
    → apart all_of list ≡ true
    → All (λ a. filter (in_group a.name) all_of ≡ []) list
apart-IsNoGroup all_of [] h = tt
apart-IsNoGroup all_of (a ∷ list) h =
    let (none_in, rest) = both (not (any (in_group a.name) all_of)) (apart all_of list) h in
    (
      filter-none (in_group a.name) all_of (ground (arith, none_in)),
      apart-IsNoGroup all_of list rest,
    )

-- No text occurs twice.
abbrev pub distinct : List Text → Bool
distinct [] = true
distinct (t ∷ ts) = not (has t ts) && distinct ts

ids_of : List AttachmentVisualItem → List Text
ids_of items = map (λ i. i.id) items

dedupe-unseen :
    (seen : List Text) (items : List AttachmentVisualItem) (t : Text)
    → has t seen ≡ true
    → has t (ids_of (dedupe_visual_items seen items)) ≡ false
unfolding dedupe_visual_items ids_of
dedupe-unseen seen [] t h = refl
dedupe-unseen seen (i ∷ items) t h = elim (Bool-cases (has i.id seen)) [
  | inl e ↦ rw e (dedupe-unseen seen items t h)
  | inr e ↦ rw e (
      rw (other e) (
        dedupe-unseen (i.id ∷ seen) items t
          (ap (λ b. text_eq t i.id || b) h ∙ or_true (text_eq t i.id))))
]
  where
    other : has i.id seen ≡ false → text_eq t i.id ≡ false
    other e = elim (Bool-cases (text_eq t i.id)) [
      | inr q ↦ q
      | inl q ↦
          let c : has i.id seen ≡ true = ap (λ x. has x seen) (sym (text_eq_sound t i.id q)) ∙ h in
          cc
    ]

dedupe-distinct :
    (seen : List Text) (items : List AttachmentVisualItem)
    → distinct (ids_of (dedupe_visual_items seen items)) ≡ true
unfolding dedupe_visual_items ids_of
dedupe-distinct seen [] = refl
dedupe-distinct seen (i ∷ items) = elim (Bool-cases (has i.id seen)) [
  | inl e ↦ rw e (dedupe-distinct seen items)
  | inr e ↦ rw e (
      rw (dedupe-unseen (i.id ∷ seen) items i.id (ap (λ b. b || has i.id seen) (text_eq_refl i.id)))
        (dedupe-distinct (i.id ∷ seen) items))
]

-- If no attachment is named as a group is: every attachment is in an item that is shown, live photos
-- in pairs or not, groups of any size, embedded videos, names that
-- occur twice among them; and the ids of the items differ, as the keys of a view must.
pub build_attachment_visual_items-shows :
    (origin : Text) (list : List Attachment) (n : Text)
    → apart list list ≡ true
    → named n list ≡ true
    → let items = build_attachment_visual_items origin list in
      (shows items n ≡ true) × (distinct (map (λ i. i.id) items) ≡ true)
unfolding build_attachment_visual_items ids_of
build_attachment_visual_items-shows origin list n h k =
    let groups = attachments_by_group list [] in
    let no_group : All (IsNoGroup groups) list =
      All-imp _ _ list (λ a e. get_group-filter a.name list ∙ e) (apart-IsNoGroup list list h) in
    let grouped : All (IsGrouped groups) list =
      All-imp _ _ list (λ b f g e. ap (named b.name) (get_group-filter g list) ∙ f g e)
        (filter-IsGrouped list) in
    let names =
      visit_all-IsNamed origin groups [] list no_group
        (λ g. rw (get_group-filter g list) (All-kept (IsNoGroup groups) (in_group g) list no_group))
        (λ g. rw (get_group-filter g list) (All-filter (in_group g) list)) in
    (
      strip (
          dedupe-shows (λ s. names_of s (get_group s groups)) n [] (visit_all origin groups [] list)
            names
            (ap (λ b. b || false)
              (visit_all-shows origin groups n [] list grouped (pending-named n list k)))),
      dedupe-distinct [] (visit_all origin groups [] list),
    )
  where
    strip : {b : Bool} → (b || false) ≡ true → b ≡ true
    strip {b = true} h = refl
    strip {b = false} h = cc
