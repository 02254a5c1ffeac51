-- ===== src/Media/Entries/Samples.antt =====
-- The theorems on concrete attachments, and tests.
use memos_note.Common.{Text, codes, ◌≡◌, refl, true, false, none, some, List, [], ◌∷◌, map}
use memos_note.Api.{apple_live_photo, MotionMediaRole, still, video, Attachment}
use memos_note.Editor.State.{LocalFile}
use memos_note.Media.Entries.{
  after, time_part, recording_time, time_label, get_audio_recording_time_label, file_to_item,
  add_file, files_by_group, group_to_items, grouped_items, to_local_motion_items, is_visual,
  to_attachment_items,
}
use memos_note.Media.Items.{push_to}
use memos_note.Media.Types.{
  is_image, get_attachment_type, get_attachment_motion_group_id, still_media, video_media,
}
use memos_note.Media.Entries.Laws.{lists, to_attachment_items-lists, to_attachment_items-psd}

abbrev attached : Text → Text → Attachment
attached name type = record {
  name = name;
  create_time = none;
  filename = codes "f";
  content = [];
  external_link = [];
  type = type;
  size = 1;
  memo = none;
  motion_media = none;
}

abbrev two_files : List Attachment
two_files =
    attached (codes "a") (codes "image/png") ∷ attached (codes "b") (codes "audio/midi") ∷ []

to_attachment_items-lists_example :
    lists (to_attachment_items (codes "o") two_files []) (codes "b") ≡ true
unfolding is_visual get_attachment_type is_image get_attachment_motion_group_id
to_attachment_items-lists_example =
    to_attachment_items-lists (codes "o") two_files [] (codes "b") refl refl refl

to_attachment_items-psd_example :
    let sheet = attached (codes "b") (codes "text/csv") in
    to_attachment_items
      (codes "o")
      (sheet ∷ attached (codes "a") (codes "image/x-photoshop") ∷ [])
      []
    ≡ to_attachment_items (codes "o") (sheet ∷ []) []
to_attachment_items-psd_example =
    to_attachment_items-psd (codes "o") (attached (codes "b") (codes "text/csv") ∷ []) []
      (attached (codes "a") (codes "image/x-photoshop")) [] refl refl

label_test :
    get_audio_recording_time_label (codes "Voice-Note-20240102-1234567.webm")
    ≡ some (codes "12:34:56")
unfolding recording_time time_part after time_label
label_test = refl

no_label_test : get_audio_recording_time_label (codes "audio-recording-20240102-12345") ≡ none
unfolding recording_time time_part after time_label
no_label_test = refl

abbrev local_part : Text → MotionMediaRole → LocalFile
local_part url role = record {
  file_name = codes "f";
  file_type = codes "image/heic";
  file_size = 2;
  file_content = 0;
  preview_url = url;
  is_audio_recording = false;
  duration_seconds = none;
  motion_media = some (record {
    family = apple_live_photo;
    role = role;
    group_id = codes "g";
    presentation_timestamp_us = 0;
    has_embedded_video = false;
  });
}

local_test :
    map
      (λ i. i.member_ids)
      (to_local_motion_items (local_part (codes "u") video ∷ local_part (codes "v") still ∷ []))
    ≡ (codes "v" ∷ codes "u" ∷ []) ∷ []
unfolding to_local_motion_items grouped_items files_by_group add_file push_to group_to_items
    file_to_item still_media video_media
local_test = refl
