-- ===== src/Media/Types.antt =====
-- The kinds and the addresses of an attachment: web/src/utils/attachment.ts.
use memos_note.Common.{
  if◌then◌else◌, Text, codes, text_eq, starts_with, Bool, true, false, not, ◌&&◌, ◌||◌, Option,
  none, some, [], ◌∷◌, ◌++◌,
}
use memos_note.Api.{
  MotionMediaFamily, apple_live_photo, android_motion_photo, MotionMediaRole, still, video,
  container, MotionMedia, Attachment,
}

-- The results of `getAttachmentType`.
pub data AttachmentType : Type 0 where
  image_type video_type audio_type text_type epub_type pdf_type : AttachmentType
  word_type excel_type zip_type java_archive_type octet_stream_type : AttachmentType

-- `s.includes(t)`
unfoldable pub includes : Text → Text → Bool
includes [] t = starts_with [] t
includes (c ∷ s) t = starts_with (c ∷ s) t || includes s t

abbrev pub is_psd : Text → Bool
is_psd t =
    text_eq t (codes "image/vnd.adobe.photoshop")
    || text_eq t (codes "image/x-photoshop")
    || text_eq t (codes "image/photoshop")

unfoldable pub is_image : Text → Bool
is_image t = starts_with t (codes "image/") && not (is_psd t)

unfoldable pub is_midi_file : Text → Bool
is_midi_file t =
    text_eq t (codes "audio/midi")
    || text_eq t (codes "audio/mid")
    || text_eq t (codes "audio/x-midi")
    || text_eq t (codes "application/x-midi")

-- `getAttachmentType`, which reads the MIME type only
unfoldable pub get_attachment_type : Text → AttachmentType
unfolding is_image is_midi_file includes
get_attachment_type t =
    if is_image t
    then image_type
    else if starts_with t (codes "video")
    then video_type
    else if starts_with t (codes "audio") && not (is_midi_file t)
    then audio_type
    else if starts_with t (codes "text")
    then text_type
    else if starts_with t (codes "application/epub+zip")
    then epub_type
    else if starts_with t (codes "application/pdf")
    then pdf_type
    else if includes t (codes "word")
    then word_type
    else if includes t (codes "excel")
    then excel_type
    else if starts_with t (codes "application/zip")
    then zip_type
    else if starts_with t (codes "application/x-java-archive")
    then java_archive_type
    else octet_stream_type

-- An empty group id is falsy.
abbrev pub group_of_media : Option MotionMedia → Option Text
group_of_media none = none
group_of_media (some m) = if text_eq m.group_id [] then none else some m.group_id

unfoldable pub get_attachment_motion_group_id : Attachment → Option Text
get_attachment_motion_group_id a = group_of_media a.motion_media

abbrev pub is_still : MotionMediaFamily → MotionMediaRole → Bool
is_still apple_live_photo still = true
is_still _ _ = false

abbrev pub is_video : MotionMediaFamily → MotionMediaRole → Bool
is_video apple_live_photo video = true
is_video _ _ = false

abbrev pub is_container : MotionMediaFamily → MotionMediaRole → Bool
is_container android_motion_photo container = true
is_container _ _ = false

unfoldable pub still_media : Option MotionMedia → Bool
still_media none = false
still_media (some m) = is_still m.family m.role

unfoldable pub video_media : Option MotionMedia → Bool
video_media none = false
video_media (some m) = is_video m.family m.role

unfoldable pub container_media : Option MotionMedia → Bool
container_media none = false
container_media (some m) = is_container m.family m.role && m.has_embedded_video

abbrev pub is_apple_live_photo_still : Attachment → Bool
unfolding still_media
is_apple_live_photo_still a = still_media a.motion_media

abbrev pub is_apple_live_photo_video : Attachment → Bool
unfolding video_media
is_apple_live_photo_video a = video_media a.motion_media

abbrev pub is_android_motion_container : Attachment → Bool
unfolding container_media
is_android_motion_container a = container_media a.motion_media

abbrev pub is_motion_attachment : Attachment → Bool
is_motion_attachment a =
    is_apple_live_photo_still a || is_apple_live_photo_video a || is_android_motion_container a

-- `window.location.origin` is a parameter.
module _ (origin : Text) where
  abbrev pub file_url : Attachment → Text
  file_url a = origin ++ codes "/file/" ++ a.name ++ codes "/" ++ a.filename

  abbrev pub get_attachment_url : Attachment → Text
  get_attachment_url a = if text_eq a.external_link [] then file_url a else a.external_link

  abbrev pub get_attachment_thumbnail_url : Attachment → Text
  get_attachment_thumbnail_url a = file_url a ++ codes "?thumbnail=true"

  abbrev pub get_attachment_motion_clip_url : Attachment → Text
  get_attachment_motion_clip_url a = file_url a ++ codes "?motion=true"
