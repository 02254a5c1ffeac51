-- ===== src/Media/Items/Naming.antt =====
-- What the items are for: an item of the id of an attachment is for that one, an item of the id of a
-- group for the two of a live photo.
use memos_note.Common.{
  ◌==◌, if◌then◌else◌, Bool-cases, length, get_or_else, filter, find, All, All-append, Text,
  text_eq, text_eq_sound, ◌≡◌, refl, sym, ap, ap₂, ◌∙◌, inl, inr, Bool, true, not, Option, none,
  some, some-injective, List, [], ◌∷◌, map,
}
use memos_note.Api.{Attachment}
use memos_note.Media.Items.{
  AttachmentVisualItem, has, get_group, build_single_attachment_item, build_apple_motion_item,
  build_android_motion_item, single_items, group_items, visit_grouped, visit, visit_all,
}
use memos_note.Media.Items.Groups.{is_id, in_group}
use memos_note.Media.Types.{
  get_attachment_motion_group_id, is_apple_live_photo_still, is_apple_live_photo_video,
  is_android_motion_container,
}

names_for : Text → List Attachment → Option Attachment → Option Attachment → List Text
names_for id group (some p) (some v) = if length group == 2 then p.name ∷ v.name ∷ [] else id ∷ []
names_for id group _ _ = id ∷ []

-- The names that an item of an id is for, by the group of that id.
unfoldable pub names_of : Text → List Attachment → List Text
unfolding names_for
names_of id group =
    names_for id group (find is_apple_live_photo_still group) (find is_apple_live_photo_video group)

find-All :
    (P : Attachment → Type 0) (p : Attachment → Bool) (list : List Attachment) (a : Attachment)
    → All P list
    → find p list ≡ some a
    → P a
find-All P p [] a h e = cc
find-All P p (b ∷ list) a (h, hs) e = elim (Bool-cases (p b)) [
  | inl q ↦
      rw (sym (some-injective b a (ap (λ x. if x then some b else find p list) (sym q) ∙ e))) h
  | inr q ↦ find-All P p list a hs (ap (λ x. if x then some b else find p list) (sym q) ∙ e)
]

-- No group has the name of an attachment for its id.
abbrev pub IsNoGroup : List (Text × List Attachment) → Attachment → Type 0
IsNoGroup groups b = get_group b.name groups ≡ []

abbrev pub IsNamed : List (Text × List Attachment) → AttachmentVisualItem → Type 0
IsNamed groups i = i.attachment_names ≡ names_of i.id (get_group i.id groups)

module _ (origin : Text) (groups : List (Text × List Attachment)) where
  single-IsNamed :
      (b : Attachment) → IsNoGroup groups b → IsNamed groups (build_single_attachment_item origin b)
  unfolding build_single_attachment_item names_of names_for
  single-IsNamed b h = sym (ap (names_of b.name) h)

  android-IsNamed :
      (b : Attachment) → IsNoGroup groups b → IsNamed groups (build_android_motion_item origin b)
  unfolding build_android_motion_item names_of names_for
  android-IsNamed b h = sym (ap (names_of b.name) h)

  singles-IsNamed :
      (p : Attachment → Bool) (list : List Attachment)
      → All (IsNoGroup groups) list
      → All (IsNamed groups) (map (build_single_attachment_item origin) (filter p list))
  singles-IsNamed p [] h = tt
  singles-IsNamed p (b ∷ list) (h, hs) = elim (Bool-cases (p b)) [
    | inl q ↦ rw q (single-IsNamed b h, singles-IsNamed p list hs)
    | inr q ↦ rw q (singles-IsNamed p list hs)
  ]

  id_of_group : (g d : Text) (o : Option Text) → is_id g o ≡ true → get_or_else o d ≡ g
  id_of_group g d none h = cc
  id_of_group g d (some k) h = sym (text_eq_sound g k h)

  group_items-IsNamed :
      (g : Text) (a : Attachment)
      → IsNoGroup groups a
      → All (IsNoGroup groups) (get_group g groups)
      → All (λ m. in_group g m ≡ true) (get_group g groups)
      → All (IsNamed groups) (
          group_items origin a
            (get_group g groups)
            (find is_apple_live_photo_still (get_group g groups))
            (find is_apple_live_photo_video (get_group g groups)))
  unfolding group_items single_items build_apple_motion_item names_of names_for
  group_items-IsNamed g a h hs m =
      go (find is_apple_live_photo_still group) (find is_apple_live_photo_video group) refl refl
    where
      group : List Attachment
      group = get_group g groups

      singles : All (IsNamed groups) (single_items origin a group)
      singles = (single-IsNamed a h, singles-IsNamed (λ m. not (text_eq m.name a.name)) group hs)

      go :
          (s v : Option Attachment)
          → find is_apple_live_photo_still group ≡ s
          → find is_apple_live_photo_video group ≡ v
          → All (IsNamed groups) (group_items origin a group s v)
      go none v e f = singles
      go (some p) none e f = singles
      go (some p) (some v) e f = elim (Bool-cases (length group == 2)) [
        | inr l ↦ rw l singles
        | inl l ↦
            let id =
              id_of_group g p.name (get_attachment_motion_group_id p)
                (find-All (λ m. in_group g m ≡ true) is_apple_live_photo_still group p m e) in
            rw l (
              sym (
                  ap (λ x. names_of x (get_group x groups)) id
                  ∙ (ap₂ (names_for g group) e f
                      ∙ ap (λ b. if b then p.name ∷ v.name ∷ [] else g ∷ []) l)),
              tt,
            )
      ]

  pub visit_all-IsNamed :
      (consumed : List Text) (list : List Attachment)
      → All (IsNoGroup groups) list
      → ((g : Text) → All (IsNoGroup groups) (get_group g groups))
      → ((g : Text) → All (λ m. in_group g m ≡ true) (get_group g groups))
      → All (IsNamed groups) (visit_all origin groups consumed list)
  unfolding visit_all visit visit_grouped
  visit_all-IsNamed consumed [] h hs m = tt
  visit_all-IsNamed consumed (b ∷ list) (h, k) hs m =
      All-append (IsNamed groups) (visit origin groups consumed b).0 _ one
        (visit_all-IsNamed (visit origin groups consumed b).1 list k hs m)
    where
      grouped :
          (o : Option Text) → All (IsNamed groups) (visit_grouped origin groups consumed b o).0
      grouped none = (single-IsNamed b h, tt)
      grouped (some g) = elim (Bool-cases (has g consumed)) [
        | inl q ↦ rw q tt
        | inr q ↦ rw q (group_items-IsNamed g b h (hs g) (m g))
      ]

      one : All (IsNamed groups) (visit origin groups consumed b).0
      one = elim (Bool-cases (is_android_motion_container b)) [
        | inl c ↦ rw c (android-IsNamed b h, tt)
        | inr c ↦ rw c (grouped (get_attachment_motion_group_id b))
      ]
