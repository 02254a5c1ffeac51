-- ===== src/Media/Items/Shown.antt =====
-- The names that the items of a group show.
use memos_note.Common.{
  ◌==◌, if◌then◌else◌, Bool-cases, length, any, filter, find, Text, text_eq, text_eq_sound, ◌≡◌,
  refl, sym, ap, ◌∙◌, inl, inr, Bool, true, false, not, ◌||◌, Option, none, some, some-injective,
  List, [], ◌∷◌, ◌++◌, map, arith,
}
use memos_note.Api.{
  MotionMediaFamily, apple_live_photo, MotionMediaRole, still, MotionMedia, Attachment,
}
use memos_note.Media.Items.{
  AttachmentVisualItem, has, build_single_attachment_item, build_apple_motion_item, single_items,
  group_items,
}
use memos_note.Media.Types.{
  is_still, is_video, still_media, video_media, is_apple_live_photo_still,
  is_apple_live_photo_video,
}

-- An item of a list is for the attachment of a name.
abbrev pub shows : List AttachmentVisualItem → Text → Bool
shows items n = any (λ i. has n i.attachment_names) items

abbrev pub named : Text → List Attachment → Bool
named n list = any (λ b. text_eq n b.name) list

pub shows-append :
    (is js : List AttachmentVisualItem) (n : Text) → shows (is ++ js) n ≡ (shows is n || shows js n)
shows-append [] js n = refl
shows-append (i ∷ is) js n =
    ap (λ b. has n i.attachment_names || b) (shows-append is js n)
    ∙ or_assoc (has n i.attachment_names) (shows is n) (shows js n)
  where
    or_assoc : (p q r : Bool) → (p || (q || r)) ≡ ((p || q) || r)
    or_assoc true q r = refl
    or_assoc false q r = refl

never_both :
    (a : Attachment) → is_apple_live_photo_still a ≡ true → is_apple_live_photo_video a ≡ false
unfolding still_media video_media
never_both a h = go a.motion_media h
  where
    one : (f : MotionMediaFamily) (r : MotionMediaRole) → is_still f r ≡ true → is_video f r ≡ false
    one apple_live_photo still h = refl
    one f r h = cc

    go : (m : Option MotionMedia) → still_media m ≡ true → video_media m ≡ false
    go none h = refl
    go (some m) h = one m.family m.role h

-- A still and a video that are found in a group of two are its members.
pair-named :
    (n : Text) (group : List Attachment) (p v : Attachment)
    → (length group == 2) ≡ true
    → find is_apple_live_photo_still group ≡ some p
    → find is_apple_live_photo_video group ≡ some v
    → named n group ≡ true
    → has n (p.name ∷ v.name ∷ []) ≡ true
pair-named n [] p v l s w h = cc
pair-named n (x ∷ []) p v l s w h = cc
pair-named n (x ∷ y ∷ z ∷ group) p v l s w h = ground (arith, l)
pair-named n (x ∷ y ∷ []) p v l s w h =
    pick (is_apple_live_photo_still x) (is_apple_live_photo_still y) (is_apple_live_photo_video x)
      (is_apple_live_photo_video y) s w (never_both x) (never_both y) h
  where
    swapped : (a b : Bool) → (a || (b || false)) ≡ true → (b || (a || false)) ≡ true
    swapped a b h = ground (arith, h)

    chosen : Bool → Bool → Option Attachment
    chosen a b = if a then some x else (if b then some y else none)

    pick :
        (sx sy wx wy : Bool)
        → chosen sx sy ≡ some p
        → chosen wx wy ≡ some v
        → (sx ≡ true → wx ≡ false)
        → (sy ≡ true → wy ≡ false)
        → (text_eq n x.name || (text_eq n y.name || false)) ≡ true
        → (text_eq n p.name || (text_eq n v.name || false)) ≡ true
    pick true sy true wy s w k l h = let c = k refl in cc
    pick true sy false true s w k l h =
        rw (sym (some-injective x p s)) (rw (sym (some-injective y v w)) h)
    pick true sy false false s w k l h = cc
    pick false true true wy s w k l h =
        rw (sym (some-injective y p s))
          (rw (sym (some-injective x v w)) (swapped (text_eq n x.name) (text_eq n y.name) h))
    pick false true false true s w k l h = let c = l refl in cc
    pick false true false false s w k l h = cc
    pick false false wx wy s w k l h = cc

module _ (origin : Text) where
  others-show :
      (n : Text) (a : Attachment) (group : List Attachment)
      → text_eq n a.name ≡ false
      → named n group ≡ true
      → shows
          (map
            (build_single_attachment_item origin)
            (filter (λ m. not (text_eq m.name a.name)) group))
          n
        ≡ true
  unfolding build_single_attachment_item
  others-show n a [] e h = cc
  others-show n a (b ∷ group) e h = elim (Bool-cases (text_eq n b.name)) [
    | inl q ↦
        let kept : text_eq b.name a.name ≡ false =
          ap (λ t. text_eq t a.name) (sym (text_eq_sound n b.name q)) ∙ e in
        rw kept (rw q refl)
    | inr q ↦
        let rest = others-show n a group e (ap (λ x. x || named n group) (sym q) ∙ h) in
        elim (Bool-cases (text_eq b.name a.name)) [ inl r ↦ rw r rest | inr r ↦ rw r (rw q rest) ]
  ]

  single-shows :
      (n : Text) (a : Attachment) (group : List Attachment)
      → named n group ≡ true
      → shows (single_items origin a group) n ≡ true
  unfolding single_items build_single_attachment_item
  single-shows n a group h = elim (Bool-cases (text_eq n a.name)) [
    | inl e ↦ rw e refl
    | inr e ↦ rw e (others-show n a group e h)
  ]

  pub group_items-shows :
      (n : Text) (a : Attachment) (group : List Attachment)
      → named n group ≡ true
      → shows
          (group_items origin a group
            (find is_apple_live_photo_still group)
            (find is_apple_live_photo_video group))
          n
        ≡ true
  unfolding group_items build_apple_motion_item
  group_items-shows n a group h =
      go (find is_apple_live_photo_still group) (find is_apple_live_photo_video group) refl refl
    where
      alone : {b : Bool} → b ≡ true → (b || false) ≡ true
      alone h = ap (λ x. x || false) h

      go :
          (s v : Option Attachment)
          → find is_apple_live_photo_still group ≡ s
          → find is_apple_live_photo_video group ≡ v
          → shows (group_items origin a group s v) n ≡ true
      go none v e f = single-shows n a group h
      go (some p) none e f = single-shows n a group h
      go (some p) (some v) e f = elim (Bool-cases (length group == 2)) [
        | inl l ↦ rw l (alone (pair-named n group p v l e f h))
        | inr l ↦ rw l (single-shows n a group h)
      ]
