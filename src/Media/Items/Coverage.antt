-- ===== src/Media/Items/Coverage.antt =====
-- Every attachment is shown, and no item twice.
use memos_note.Common.{
  Bool-cases, any, All, Text, text_eq, text_eq_sound, text_eq_refl, ◌≡◌, refl, sym, ap, ap₂, ◌∙◌,
  inl, inr, Bool, true, false, not, ◌&&◌, ◌||◌, Option, none, some, List, [], ◌∷◌,
}
use memos_note.Api.{Attachment}
use memos_note.Media.Items.{
  AttachmentVisualItem, has, get_group, dedupe_visual_items, build_single_attachment_item,
  build_android_motion_item, visit_grouped, visit, visit_all,
}
use memos_note.Media.Items.Shown.{shows, named, shows-append, group_items-shows}
use memos_note.Media.Types.{get_attachment_motion_group_id, is_android_motion_container}

abbrev pub GroupList : Type 0
GroupList = List (Text × List Attachment)

-- Its group, if it has one, is not yet consumed.
abbrev pub is_open : List Text → Option Text → Bool
is_open consumed none = true
is_open consumed (some g) = not (has g consumed)

abbrev pub pending : Text → List Text → List Attachment → Bool
pending n consumed list =
    any (λ b. text_eq n b.name && is_open consumed (get_attachment_motion_group_id b)) list

-- What an attachment is a member of is in the table.
abbrev pub IsGrouped : GroupList → Attachment → Type 0
IsGrouped groups b =
    (g : Text)
    → get_attachment_motion_group_id b ≡ some g
    → named b.name (get_group g groups) ≡ true

pub or_true : (x : Bool) → (x || true) ≡ true
or_true true = refl
or_true false = refl

member :
    (groups : GroupList) (n h g : Text) (b : Attachment)
    → named b.name (get_group h groups) ≡ true
    → text_eq n b.name ≡ true
    → text_eq h g ≡ true
    → named n (get_group g groups) ≡ true
member groups n h g b m t e =
    ap₂ (λ x y. named x (get_group y groups)) (text_eq_sound n b.name t) (sym (text_eq_sound h g e))
    ∙ m

-- When a group is consumed: an attachment that waits is a member of it or waits on.
pending-consumed :
    (groups : GroupList) (n g : Text) (consumed : List Text) (list : List Attachment)
    → All (IsGrouped groups) list
    → pending n consumed list ≡ true
    → (named n (get_group g groups) || pending n (g ∷ consumed) list) ≡ true
pending-consumed groups n g consumed [] h p = cc
pending-consumed groups n g consumed (b ∷ list) (h, hs) p =
    waits (named n (get_group g groups)) (text_eq n b.name) (is_open consumed id)
      (is_open (g ∷ consumed) id) (pending n consumed list) (pending n (g ∷ consumed) list) p
      (pending-consumed groups n g consumed list hs) (still_open id refl)
  where
    id : Option Text
    id = get_attachment_motion_group_id b

    waits :
        (m t q q' r r' : Bool)
        → ((t && q) || r) ≡ true
        → (r ≡ true → (m || r') ≡ true)
        → (t ≡ true → q ≡ true → (m || q') ≡ true)
        → (m || ((t && q') || r')) ≡ true
    waits true t q q' r r' p k l = refl
    waits false true true q' r r' p k l = rw (l refl refl) refl
    waits false true false q' true r' p k l = ap (λ x. q' || x) (k refl) ∙ or_true q'
    waits false true false q' false r' p k l = cc
    waits false false q q' true r' p k l = k refl
    waits false false q q' false r' p k l = cc

    still_open :
        (o : Option Text)
        → id ≡ o
        → text_eq n b.name ≡ true
        → is_open consumed o ≡ true
        → (named n (get_group g groups) || is_open (g ∷ consumed) o) ≡ true
    still_open none e t q = or_true (named n (get_group g groups))
    still_open (some k) e t q = elim (Bool-cases (text_eq k g)) [
      | inl same ↦
          ap (λ x. x || is_open (g ∷ consumed) (some k)) (member groups n k g b (h k e) t same)
      | inr other ↦
          rw other
            (ap (λ x. named n (get_group g groups) || x) q ∙ or_true (named n (get_group g groups)))
    ]

module _ (origin : Text) where
  -- One round and what the later ones show.
  visit_grouped-shows :
      (groups : GroupList) (n : Text) (consumed : List Text) (b : Attachment)
      (list : List Attachment) (o : Option Text)
      → get_attachment_motion_group_id b ≡ o
      → IsGrouped groups b
      → All (IsGrouped groups) list
      → ((text_eq n b.name && is_open consumed o) || pending n consumed list) ≡ true
      → ((consumed' : List Text)
          → pending n consumed' list ≡ true
          → shows (visit_all origin groups consumed' list) n ≡ true)
      → let r = visit_grouped origin groups consumed b o in
        (shows r.0 n || shows (visit_all origin groups r.1 list) n) ≡ true
  unfolding visit_grouped build_single_attachment_item
  visit_grouped-shows groups n consumed b list none e h hs p k =
      alone (text_eq n b.name) (pending n consumed list)
        (shows (visit_all origin groups consumed list) n) p (k consumed)
    where
      alone :
          (t r s : Bool)
          → ((t && true) || r) ≡ true
          → (r ≡ true → s ≡ true)
          → ((t || false) || false || s) ≡ true
      alone true r s p k = refl
      alone false true s p k = k refl
      alone false false s p k = cc
  visit_grouped-shows groups n consumed b list (some g) e h hs p k =
      elim (Bool-cases (has g consumed)) [
        | inl q ↦
            rw q (
              k consumed (closed (text_eq n b.name) (has g consumed) (pending n consumed list) q p))
        | inr q ↦ rw q (
            either (text_eq n b.name) (not (has g consumed)) (pending n consumed list)
              (named n (get_group g groups)) (pending n (g ∷ consumed) list) _ _ p
              (λ t. member groups n g g b (h g e) t (text_eq_refl g))
              (pending-consumed groups n g consumed list hs)
              (group_items-shows origin n b (get_group g groups)) (k (g ∷ consumed)))
      ]
    where
      closed : (t q r : Bool) → q ≡ true → ((t && not q) || r) ≡ true → r ≡ true
      closed true true r e p = p
      closed false true r e p = p
      closed t false r e p = cc

      either :
          (t q r m r' x y : Bool)
          → ((t && q) || r) ≡ true
          → (t ≡ true → m ≡ true)
          → (r ≡ true → (m || r') ≡ true)
          → (m ≡ true → x ≡ true)
          → (r' ≡ true → y ≡ true)
          → (x || y) ≡ true
      either true q r m r' x y p f g h k = ap (λ z. z || y) (h (f refl))
      either false q true true r' x y p f g h k = ap (λ z. z || y) (h refl)
      either false q true false r' x y p f g h k = ap (λ z. x || z) (k (g refl)) ∙ or_true x
      either false q false m r' x y p f g h k = cc

  pub visit_all-shows :
      (groups : GroupList) (n : Text) (consumed : List Text) (list : List Attachment)
      → All (IsGrouped groups) list
      → pending n consumed list ≡ true
      → shows (visit_all origin groups consumed list) n ≡ true
  unfolding visit_all visit build_android_motion_item
  visit_all-shows groups n consumed [] h p = cc
  visit_all-shows groups n consumed (b ∷ list) (h, hs) p =
      elim (Bool-cases (is_android_motion_container b)) [
        | inl c ↦ rw c (
            first (text_eq n b.name) (is_open consumed (get_attachment_motion_group_id b))
              (pending n consumed list) (shows (visit_all origin groups consumed list) n) p
              (visit_all-shows groups n consumed list hs))
        | inr c ↦ rw c (
            shows-append
              (visit_grouped origin groups consumed b (get_attachment_motion_group_id b)).0 _ n
            ∙ visit_grouped-shows groups n consumed b list (get_attachment_motion_group_id b) refl h
                hs p (λ consumed'. visit_all-shows groups n consumed' list hs))
      ]
    where
      first :
          (t q r s : Bool)
          → ((t && q) || r) ≡ true
          → (r ≡ true → s ≡ true)
          → ((t || false) || s) ≡ true
      first true q r s p k = refl
      first false q true s p k = k refl
      first false q false s p k = cc

any-seen :
    (p : Text → Bool) (t : Text) (seen : List Text)
    → has t seen ≡ true
    → p t ≡ true
    → any p seen ≡ true
any-seen p t [] h k = cc
any-seen p t (s ∷ seen) h k = elim (Bool-cases (text_eq t s)) [
  | inl e ↦ rw (sym (text_eq_sound t s e)) (ap (λ b. b || any p seen) k)
  | inr e ↦
      ap (λ b. p s || b) (any-seen p t seen (ap (λ b. b || has t seen) (sym e) ∙ h) k)
      ∙ or_true (p s)
]

-- The items of one id are for the same attachments.
pub dedupe-shows :
    (f : Text → List Text) (n : Text) (seen : List Text) (items : List AttachmentVisualItem)
    → All (λ i. i.attachment_names ≡ f i.id) items
    → (shows items n || any (λ s. has n (f s)) seen) ≡ true
    → (shows (dedupe_visual_items seen items) n || any (λ s. has n (f s)) seen) ≡ true
unfolding dedupe_visual_items
dedupe-shows f n seen [] h p = p
dedupe-shows f n seen (i ∷ items) (h, hs) p = elim (Bool-cases (has i.id seen)) [
  | inl e ↦ rw e (
      dedupe-shows f n seen items hs (
        shown (has n i.attachment_names) (shows items n) _ p
          (λ q. any-seen (λ s. has n (f s)) i.id seen e (ap (has n) (sym h) ∙ q))))
  | inr e ↦ rw e (
      last (has n i.attachment_names) (has n (f i.id)) (shows items n) _ _ (ap (has n) h) p
        (dedupe-shows f n (i.id ∷ seen) items hs))
]
  where
    shown : (a b c : Bool) → ((a || b) || c) ≡ true → (a ≡ true → c ≡ true) → (b || c) ≡ true
    shown true b c p k = ap (λ x. b || x) (k refl) ∙ or_true b
    shown false b c p k = p

    last :
        (a a' b c d : Bool)
        → a ≡ a'
        → ((a || b) || c) ≡ true
        → ((b || (a' || c)) ≡ true → (d || (a' || c)) ≡ true)
        → ((a || d) || c) ≡ true
    last true a' b c d e p k = refl
    last false true b c d e p k = cc
    last false false b c d e p k = k p
