-- ===== src/Media/Items.antt =====
-- The items that a view shows for attachments: web/src/utils/media-item.ts. A live photo, which is a
-- still and a video of one group, becomes one item.
pub mod Groups
pub mod Shown
pub mod Coverage
pub mod Naming
pub mod Complete
mod Samples
use memos_note.Common.{
  ◌==◌, if◌then◌else◌, length, get_or_else, any, filter, find, map_option, Text, text_eq, ℕ, ◌+◌,
  Bool, true, false, not, ◌||◌, Option, none, some, List, [], ◌∷◌, ◌++◌, map,
}
use memos_note.Api.{Attachment}
use memos_note.Media.Types.{
  AttachmentType, image_type, video_type, get_attachment_type, get_attachment_motion_group_id,
  is_apple_live_photo_still, is_apple_live_photo_video, is_android_motion_container,
  is_motion_attachment, get_attachment_url, get_attachment_thumbnail_url,
  get_attachment_motion_clip_url,
}

pub data VisualKind : Type 0 where
  image_kind video_kind motion_kind : VisualKind

-- `PreviewMediaItem`
pub record PreviewMediaItem : Type 0 where
  pub id : Text
  pub kind : VisualKind
  pub source_url : Option Text
  pub poster_url : Text
  pub motion_url : Option Text
  pub filename : Text
  pub presentation_timestamp_us : Option ℕ

pub record AttachmentVisualItem : Type 0 where
  pub id : Text
  pub kind : VisualKind
  pub filename : Text
  pub poster_url : Text
  pub source_url : Text
  pub attachment_names : List Text
  pub attachments : List Attachment
  pub preview_item : PreviewMediaItem
  pub mime_type : Text

abbrev pub is_image_type : AttachmentType → Bool
is_image_type image_type = true
is_image_type _ = false

abbrev pub is_video_type : AttachmentType → Bool
is_video_type video_type = true
is_video_type _ = false

abbrev pub has : Text → List Text → Bool
has t ts = any (text_eq t) ts

-- `attachmentsByGroup.set(groupId, [...group, attachment])`
unfoldable pub push_to : {A : Type 0} → Text → A → List (Text × List A) → List (Text × List A)
push_to g a [] = (g, a ∷ []) ∷ []
push_to g a ((h, group) ∷ groups) =
    let later = push_to g a groups in
    if text_eq g h then (h, group ++ (a ∷ [])) ∷ groups else (h, group) ∷ later

unfoldable pub add_to_groups :
    Option Text → Attachment → List (Text × List Attachment) → List (Text × List Attachment)
unfolding push_to
add_to_groups none a groups = groups
add_to_groups (some g) a groups = push_to g a groups

-- The first loop.
unfoldable pub attachments_by_group :
    List Attachment → List (Text × List Attachment) → List (Text × List Attachment)
unfolding add_to_groups get_attachment_motion_group_id
attachments_by_group [] groups = groups
attachments_by_group (a ∷ list) groups =
    attachments_by_group list (add_to_groups (get_attachment_motion_group_id a) a groups)

-- `attachmentsByGroup.get(groupId) ?? []`
unfoldable pub get_group : Text → List (Text × List Attachment) → List Attachment
get_group g [] = []
get_group g ((h, group) ∷ groups) =
    let later = get_group g groups in if text_eq g h then group else later

unfoldable pub dedupe_visual_items :
    List Text → List AttachmentVisualItem → List AttachmentVisualItem
dedupe_visual_items seen [] = []
dedupe_visual_items seen (item ∷ items) =
    let skipped = dedupe_visual_items seen items in
    let later = dedupe_visual_items (item.id ∷ seen) items in
    if has item.id seen then skipped else item ∷ later

module _ (origin : Text) where
  unfoldable pub build_single_attachment_item : Attachment → AttachmentVisualItem
  unfolding get_attachment_type
  build_single_attachment_item a =
      let type = get_attachment_type a.type in
      let source_url = get_attachment_url origin a in
      let poster_url =
        if is_image_type type then get_attachment_thumbnail_url origin a else source_url in
      let kind = if is_video_type type then video_kind else image_kind in
      record {
        id = a.name;
        kind = kind;
        filename = a.filename;
        poster_url = poster_url;
        source_url = source_url;
        attachment_names = a.name ∷ [];
        attachments = a ∷ [];
        preview_item = record {
          id = a.name;
          kind = kind;
          source_url = some source_url;
          poster_url = poster_url;
          motion_url = none;
          filename = a.filename;
          presentation_timestamp_us = none;
        };
        mime_type = a.type;
      }

  unfoldable pub build_apple_motion_item : Attachment → Attachment → AttachmentVisualItem
  unfolding get_attachment_motion_group_id
  build_apple_motion_item photo clip =
      let source_url = get_attachment_url origin clip in
      let poster_url = get_attachment_thumbnail_url origin photo in
      let id = get_or_else (get_attachment_motion_group_id photo) photo.name in
      record {
        id = id;
        kind = motion_kind;
        filename = photo.filename;
        poster_url = poster_url;
        source_url = source_url;
        attachment_names = photo.name ∷ clip.name ∷ [];
        attachments = photo ∷ clip ∷ [];
        preview_item = record {
          id = id;
          kind = motion_kind;
          source_url = none;
          poster_url = poster_url;
          motion_url = some source_url;
          filename = photo.filename;
          presentation_timestamp_us = none;
        };
        mime_type = photo.type;
      }

  unfoldable pub build_android_motion_item : Attachment → AttachmentVisualItem
  build_android_motion_item a = record {
    id = a.name;
    kind = motion_kind;
    filename = a.filename;
    poster_url = get_attachment_thumbnail_url origin a;
    source_url = get_attachment_motion_clip_url origin a;
    attachment_names = a.name ∷ [];
    attachments = a ∷ [];
    preview_item = record {
      id = a.name;
      kind = motion_kind;
      source_url = none;
      poster_url = get_attachment_thumbnail_url origin a;
      motion_url = some (get_attachment_motion_clip_url origin a);
      filename = a.filename;
      presentation_timestamp_us = map_option (λ m. m.presentation_timestamp_us) a.motion_media;
    };
    mime_type = a.type;
  }

  -- The attachment itself, and then the other members of its group.
  unfoldable pub single_items : Attachment → List Attachment → List AttachmentVisualItem
  unfolding build_single_attachment_item
  single_items a group =
      build_single_attachment_item a
      ∷ map build_single_attachment_item (filter (λ m. not (text_eq m.name a.name)) group)

  unfoldable pub group_items :
      Attachment
      → List Attachment
      → Option Attachment
      → Option Attachment
      → List AttachmentVisualItem
  unfolding single_items build_apple_motion_item
  group_items a group (some photo) (some clip) =
      if length group == 2 then build_apple_motion_item photo clip ∷ [] else single_items a group
  group_items a group _ _ = single_items a group

  -- One round of the second loop: the items, and the consumed groups.
  unfoldable pub visit_grouped :
      List (Text × List Attachment)
      → List Text
      → Attachment
      → Option Text
      → List AttachmentVisualItem × List Text
  unfolding build_single_attachment_item get_group group_items
  visit_grouped groups consumed a none = (build_single_attachment_item a ∷ [], consumed)
  visit_grouped groups consumed a (some g) =
      let group = get_group g groups in
      let items =
        group_items a group (find is_apple_live_photo_still group)
          (find is_apple_live_photo_video group) in
      if has g consumed then ([], consumed) else (items, g ∷ consumed)

  unfoldable pub visit :
      List (Text × List Attachment) → List Text → Attachment → List AttachmentVisualItem × List Text
  unfolding build_android_motion_item visit_grouped get_attachment_motion_group_id
  visit groups consumed a =
      if is_android_motion_container a
      then (build_android_motion_item a ∷ [], consumed)
      else visit_grouped groups consumed a (get_attachment_motion_group_id a)

  unfoldable pub visit_all :
      List (Text × List Attachment) → List Text → List Attachment → List AttachmentVisualItem
  unfolding visit
  visit_all groups consumed [] = []
  visit_all groups consumed (a ∷ list) =
      let (items, consumed') = visit groups consumed a in items ++ visit_all groups consumed' list

  unfoldable pub build_attachment_visual_items : List Attachment → List AttachmentVisualItem
  unfolding visit_all attachments_by_group dedupe_visual_items
  build_attachment_visual_items list =
      dedupe_visual_items [] (visit_all (attachments_by_group list []) [] list)

  unfoldable pub count_logical_attachment_items : List Attachment → ℕ
  unfolding build_attachment_visual_items get_attachment_type
  count_logical_attachment_items list =
      let visual =
        filter
          (λ a.
            is_image_type (get_attachment_type a.type)
            || is_video_type (get_attachment_type a.type)
            || is_motion_attachment a)
          list in
      let names = map (λ a. a.name) visual in
      length (build_attachment_visual_items visual)
      + length (filter (λ a. not (has a.name names)) list)
