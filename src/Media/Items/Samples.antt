-- ===== src/Media/Items/Samples.antt =====
-- The theorems on concrete attachments, and tests.
use memos_note.Common.{codes, ◌≡◌, refl, true, false, Option, none, some, List, [], ◌∷◌, map}
use memos_note.Api.{apple_live_photo, MotionMediaRole, still, video, MotionMedia, Attachment}
use memos_note.Media.Items.{
  push_to, add_to_groups, attachments_by_group, get_group, dedupe_visual_items,
  build_single_attachment_item, build_apple_motion_item, group_items, visit_grouped, visit,
  visit_all, build_attachment_visual_items, count_logical_attachment_items,
}
use memos_note.Media.Items.Complete.{distinct, build_attachment_visual_items-shows}
use memos_note.Media.Types.{
  includes, is_image, is_midi_file, get_attachment_type, get_attachment_motion_group_id,
  still_media, video_media, container_media,
}
use memos_note.Media.Items.Shown.{shows}

abbrev blank : Attachment
blank = record {
  name = [];
  create_time = none;
  filename = codes "f";
  content = [];
  external_link = [];
  type = codes "image/png";
  size = 1;
  memo = none;
  motion_media = none;
}

abbrev part : MotionMediaRole → Option MotionMedia
part role = some (record {
  family = apple_live_photo;
  role = role;
  group_id = codes "g";
  presentation_timestamp_us = 0;
  has_embedded_video = false;
})

abbrev three_files : List Attachment
three_files =
    record blank { name = codes "a"; motion_media = part still }
    ∷ record blank { name = codes "b" }
    ∷ record blank { name = codes "c"; type = codes "video/mp4"; motion_media = part video }
    ∷ []

ids_test :
    map (λ i. i.id) (build_attachment_visual_items (codes "o") three_files)
    ≡ codes "g" ∷ codes "b" ∷ []
unfolding build_attachment_visual_items visit_all visit visit_grouped attachments_by_group
    add_to_groups push_to get_attachment_motion_group_id dedupe_visual_items
    build_single_attachment_item get_group group_items build_apple_motion_item still_media
    video_media container_media
ids_test = refl

build_attachment_visual_items-shows_example :
    let items = build_attachment_visual_items (codes "o") three_files in
    (shows items (codes "c") ≡ true) × (distinct (map (λ i. i.id) items) ≡ true)
unfolding get_attachment_motion_group_id
build_attachment_visual_items-shows_example =
    build_attachment_visual_items-shows (codes "o") three_files (codes "c") refl refl

count_test : count_logical_attachment_items (codes "o") three_files ≡ 2
unfolding count_logical_attachment_items build_attachment_visual_items visit_all visit visit_grouped
    attachments_by_group add_to_groups push_to get_attachment_motion_group_id dedupe_visual_items
    build_single_attachment_item get_group group_items build_apple_motion_item still_media
    video_media container_media get_attachment_type is_image is_midi_file includes
count_test = refl
