-- ===== src/Media/Entries/Laws.antt =====
-- Which attachments are listed.
use memos_note.Common.{
  ◌==◌, if◌then◌else◌, Bool-cases, both, neither, is_some, any, all, filter, Text, codes, text_eq,
  text_eq_sound, starts_with, ◌≡◌, refl, sym, ap, ap₂, ◌∙◌, inl, inr, Bool, true, false, not, ◌&&◌,
  ◌||◌, none, List, [], ◌∷◌, ◌++◌, map,
}
use memos_note.Api.{Attachment}
use memos_note.Media.Items.{
  AttachmentVisualItem, is_image_type, is_video_type, has, build_attachment_visual_items,
}
use memos_note.Media.Items.Shown.{shows, named}
use memos_note.Media.Entries.{
  image_file, audio_file, document_file, AttachmentItem, after, categorize_file,
  is_audio_or_document, visual_item_to_attachment_item, to_local_motion_items, is_visual,
  visual_ids, attachment_group_to_item, other_items, to_attachment_items,
}
use memos_note.Media.Types.{
  AttachmentType, includes, is_psd, is_image, is_midi_file, get_attachment_type,
}
use memos_note.Editor.State.{LocalFile}
use memos_note.Media.Items.Coverage.{or_true}
use memos_note.Media.Items.Complete.{apart, build_attachment_visual_items-shows}

-- An entry of a list is for the attachment of a name.
abbrev pub lists : List AttachmentItem → Text → Bool
lists items n = any (λ i. has n i.member_ids) items

lists-append :
    (is js : List AttachmentItem) (n : Text) → lists (is ++ js) n ≡ (lists is n || lists js n)
lists-append [] js n = refl
lists-append (i ∷ is) js n =
    ap (λ b. has n i.member_ids || b) (lists-append is js n)
    ∙ or_assoc (has n i.member_ids) (lists is n) (lists js n)
  where
    or_assoc : (p q r : Bool) → (p || (q || r)) ≡ ((p || q) || r)
    or_assoc true q r = refl
    or_assoc false q r = refl

visual-lists :
    (items : List AttachmentVisualItem) (n : Text)
    → lists (map visual_item_to_attachment_item items) n ≡ shows items n
unfolding visual_item_to_attachment_item
visual-lists [] n = refl
visual-lists (i ∷ items) n = ap (λ b. has n i.attachment_names || b) (visual-lists items n)

has-append : (n : Text) (s t : List Text) → has n (s ++ t) ≡ (has n s || has n t)
has-append n [] t = refl
has-append n (a ∷ s) t =
    ap (λ b. text_eq n a || b) (has-append n s t) ∙ or_assoc (text_eq n a) (has n s) (has n t)
  where
    or_assoc : (p q r : Bool) → (p || (q || r)) ≡ ((p || q) || r)
    or_assoc true q r = refl
    or_assoc false q r = refl

has-visual_ids :
    (items : List AttachmentVisualItem) (n : Text) → has n (visual_ids items) ≡ shows items n
has-visual_ids [] n = refl
has-visual_ids (i ∷ items) n =
    has-append n i.attachment_names (visual_ids items)
    ∙ ap (λ b. has n i.attachment_names || b) (has-visual_ids items n)

starts_with-append : (s p q : Text) → starts_with s (p ++ q) ≡ true → starts_with s p ≡ true
starts_with-append s [] q h = refl
starts_with-append [] (a ∷ p) q h = cc
starts_with-append (b ∷ s) (a ∷ p) q h =
    let (e, k) = both (b == a) (starts_with s (p ++ q)) h in
    ap₂ (λ x y. x && y) e (starts_with-append s p q k)

type_of_image :
    (t : Text)
    → is_psd t ≡ false
    → starts_with t (codes "image/") ≡ true
    → is_image_type (get_attachment_type t) ≡ true
unfolding get_attachment_type is_image
type_of_image t p e = rw e (rw p refl)

type_of_video :
    (t : Text)
    → starts_with t (codes "image/") ≡ false
    → starts_with t (codes "video/") ≡ true
    → is_video_type (get_attachment_type t) ≡ true
unfolding get_attachment_type is_image
type_of_video t e f = rw e (rw (starts_with-append t (codes "video") (codes "/") f) refl)

-- What is not shown as a medium, and is no Photoshop file, is sound or a document.
categorize_file_lem :
    (t : Text)
    → is_psd t ≡ false
    → is_image_type (get_attachment_type t) ≡ false
    → is_video_type (get_attachment_type t) ≡ false
    → is_audio_or_document (categorize_file t false) ≡ true
unfolding categorize_file
categorize_file_lem t p i v = elim (Bool-cases (starts_with t (codes "image/"))) [
  | inl e ↦ let c : true ≡ false = sym (type_of_image t p e) ∙ i in cc
  | inr e ↦ elim (Bool-cases (starts_with t (codes "video/"))) [
    | inl f ↦ let c : true ≡ false = sym (type_of_video t e f) ∙ v in cc
    | inr f ↦ rw e (rw f (sound_or_not (starts_with t (codes "audio/"))))
  ]
]
  where
    sound_or_not :
        (b : Bool) → is_audio_or_document (if b then audio_file else document_file) ≡ true
    sound_or_not true = refl
    sound_or_not false = refl

-- What the three types of Photoshop files come to.
psd_lem :
    (t : Text)
    → is_psd t ≡ true
    → (is_image_type (get_attachment_type t) ≡ false)
      × (is_video_type (get_attachment_type t) ≡ false)
      × (categorize_file t false ≡ image_file)
unfolding get_attachment_type is_image is_midi_file includes categorize_file
psd_lem t h = elim (Bool-cases (text_eq t (codes "image/vnd.adobe.photoshop"))) [
  | inl e ↦ rw (text_eq_sound t (codes "image/vnd.adobe.photoshop") e) (refl, refl, refl)
  | inr e ↦ elim (Bool-cases (text_eq t (codes "image/x-photoshop"))) [
    | inl f ↦ rw (text_eq_sound t (codes "image/x-photoshop") f) (refl, refl, refl)
    | inr f ↦
        let k : text_eq t (codes "image/photoshop") ≡ true =
          ap₂ (λ x y. x || y || text_eq t (codes "image/photoshop")) (sym e) (sym f) ∙ h in
        rw (text_eq_sound t (codes "image/photoshop") k) (refl, refl, refl)
  ]
]

not-true : (b : Bool) → not b ≡ true → b ≡ false
not-true true h = cc
not-true false h = refl

psd-visual : (a : Attachment) → is_psd a.type ≡ true → a.motion_media ≡ none → is_visual a ≡ false
unfolding is_visual
psd-visual a h m = let (i, v, _) = psd_lem a.type h in rw i (rw v (rw m refl))

filter-drops {ℓ} :
    {A : Type ℓ} (p : A → Bool) (before after : List A) (a : A)
    → p a ≡ false
    → filter p (before ++ a ∷ after) ≡ filter p (before ++ after)
filter-drops p [] after a h = rw h refl
filter-drops p (b ∷ before) after a h = elim (Bool-cases (p b)) [
  | inl e ↦ rw e (ap (λ l. b ∷ l) (filter-drops p before after a h))
  | inr e ↦ rw e (filter-drops p before after a h)
]

module _ (origin : Text) where
  -- An attachment that waits is listed, or the later ones are.
  other-lists :
      (ids : List Text) (n : Text) (list : List Attachment)
      → has n ids ≡ false
      → any (λ b. text_eq n b.name && not (is_visual b)) list ≡ true
      → all (λ a. not (is_psd a.type)) list ≡ true
      → lists (other_items origin ids list) n ≡ true
  unfolding other_items attachment_group_to_item is_visual
  other-lists ids n [] h k p = cc
  other-lists ids n (b ∷ list) h k p = elim (Bool-cases (text_eq n b.name && not (is_visual b))) [
    | inl t ↦
        let (same, unseen) = both (text_eq n b.name) (not (is_visual b)) t in
        let (media, _) =
          neither (is_image_type type || is_video_type type) (is_some b.motion_media)
            (not-true (is_visual b) unseen) in
        let (i, v) = neither (is_image_type type) (is_video_type type) media in
        let other = ap (λ x. has x ids) (sym (text_eq_sound n b.name same)) ∙ h in
        let sound = categorize_file_lem b.type (not-true (is_psd b.type) (both _ _ p).0) i v in
        rw other (rw sound (rw same refl))
    | inr t ↦
        let rest = other-lists ids n list h (ap (λ x. x || waiting) (sym t) ∙ k) (both _ _ p).1 in
        elim (Bool-cases (has b.name ids)) [
          | inl q ↦ rw q rest
          | inr q ↦ elim (Bool-cases (is_audio_or_document (categorize_file b.type false))) [
            | inl c ↦ rw q (
                rw c (
                  ap (λ x. text_eq n b.name || false || x) rest
                  ∙ or_true (text_eq n b.name || false)))
            | inr c ↦ rw q (rw c rest)
          ]
        ]
  ]
    where
      type : AttachmentType
      type = get_attachment_type b.type

      waiting : Bool
      waiting = any (λ a. text_eq n a.name && not (is_visual a)) list

  named-visual :
      (n : Text) (list : List Attachment)
      → named n list ≡ true
      → named n (filter is_visual list) ≡ false
      → any (λ b. text_eq n b.name && not (is_visual b)) list ≡ true
  named-visual n [] h k = cc
  named-visual n (b ∷ list) h k = elim (Bool-cases (is_visual b)) [
    | inl v ↦
        let k' =
          ap (λ x. named n (let rest = filter is_visual list in if x then b ∷ rest else rest))
            (sym v)
          ∙ k in
        let (t, r) = neither (text_eq n b.name) (named n (filter is_visual list)) k' in
        ap (λ x. (text_eq n b.name && not (is_visual b)) || x)
          (named-visual n list (ap (λ x. x || named n list) (sym t) ∙ h) r)
        ∙ or_true (text_eq n b.name && not (is_visual b))
    | inr v ↦
        let k' =
          ap (λ x. named n (let rest = filter is_visual list in if x then b ∷ rest else rest))
            (sym v)
          ∙ k in
        rw v (here (text_eq n b.name) (named n list) _ h (λ r. named-visual n list r k'))
  ]
    where
      here : (t r s : Bool) → (t || r) ≡ true → (r ≡ true → s ≡ true) → ((t && true) || s) ≡ true
      here true r s h f = refl
      here false r s h f = f h

  -- Any attachments and local files, if no attachment that is shown as a medium is named as a group of
  -- them is, and none is a Photoshop file: every attachment is in an entry of the editor's list.
  pub to_attachment_items-lists :
      (list : List Attachment) (files : List LocalFile) (n : Text)
      → apart (filter is_visual list) (filter is_visual list) ≡ true
      → all (λ a. not (is_psd a.type)) list ≡ true
      → named n list ≡ true
      → lists (to_attachment_items origin list files) n ≡ true
  unfolding to_attachment_items
  to_attachment_items-lists list files n a p h =
      lists-append (seen ++ others) (to_local_motion_items files) n
      ∙ ap (λ b. b || lists (to_local_motion_items files) n)
          (lists-append seen others n
            ∙ ap (λ b. b || lists others n) (visual-lists items n)
            ∙ shown_or_other)
    where
      items : List AttachmentVisualItem
      items = build_attachment_visual_items origin (filter is_visual list)

      seen : List AttachmentItem
      seen = map visual_item_to_attachment_item items

      others : List AttachmentItem
      others = other_items origin (visual_ids items) list

      shown_or_other : (shows items n || lists others n) ≡ true
      shown_or_other = elim (Bool-cases (shows items n)) [
        | inl e ↦ ap (λ b. b || lists others n) e
        | inr e ↦ elim (Bool-cases (named n (filter is_visual list))) [
          | inl v ↦
              let c : true ≡ false =
                sym ((build_attachment_visual_items-shows origin (filter is_visual list) n a v).0)
                ∙ e in
              cc
          | inr v ↦
              ap (λ b. shows items n || b)
                (other-lists (visual_ids items) n list (has-visual_ids items n ∙ e)
                  (named-visual n list h v) p)
              ∙ or_true (shows items n)
        ]
      ]

  others-psd :
      (ids : List Text) (before after : List Attachment) (a : Attachment)
      → is_psd a.type ≡ true
      → other_items origin ids (before ++ a ∷ after) ≡ other_items origin ids (before ++ after)
  unfolding other_items attachment_group_to_item
  others-psd ids [] after a h = elim (Bool-cases (has a.name ids)) [
    | inl e ↦ rw e refl
    | inr e ↦ let (_, _, c) = psd_lem a.type h in rw e (rw c refl)
  ]
  others-psd ids (b ∷ before) after a h =
      let rest = others-psd ids before after a h in
      elim (Bool-cases (has b.name ids)) [
        | inl e ↦ rw e rest
        | inr e ↦ elim (Bool-cases (is_audio_or_document (categorize_file b.type false))) [
          | inl c ↦ rw e (rw c (ap₂ (λ i is. i ∷ is) refl rest))
          | inr c ↦ rw e (rw c rest)
        ]
      ]

  -- A Photoshop file that is no part of a live photo, at any place among any attachments and with any
  -- local files: the editor's list is as it is without that file.
  pub to_attachment_items-psd :
      (before after : List Attachment) (a : Attachment) (files : List LocalFile)
      → is_psd a.type ≡ true
      → a.motion_media ≡ none
      → to_attachment_items origin (before ++ a ∷ after) files
        ≡ to_attachment_items origin (before ++ after) files
  unfolding to_attachment_items
  to_attachment_items-psd before after a files h m =
      ap (λ media. listed (before ++ a ∷ after) media)
        (filter-drops is_visual before after a (psd-visual a h m))
      ∙ ap (λ others. seen ++ others ++ to_local_motion_items files)
          (others-psd (visual_ids items) before after a h)
    where
      listed : List Attachment → List Attachment → List AttachmentItem
      listed list media =
          let items = build_attachment_visual_items origin media in
          map visual_item_to_attachment_item items
          ++ other_items origin (visual_ids items) list
          ++ to_local_motion_items files

      items : List AttachmentVisualItem
      items = build_attachment_visual_items origin (filter is_visual (before ++ after))

      seen : List AttachmentItem
      seen = map visual_item_to_attachment_item items
