-- ===== src/Media/Entries.antt =====
-- The entries that the editor lists for attachments and for files that are not yet uploaded:
-- web/src/components/MemoEditor/types/attachment.ts.
pub mod Laws
mod Samples
use memos_note.Common.{
  leb, ◌==◌, if◌then◌else◌, length, take, drop, is_some, get_or_else, or_else, all, filter, find,
  Text, codes, starts_with, slice, span, ℕ, ◌+◌, ◌-◌, Bool, true, false, not, ◌&&◌, ◌||◌, Option,
  none, some, List, [], ◌∷◌, ◌++◌, map,
}
use memos_note.Api.{Attachment}
use memos_note.Editor.State.{LocalFile}
use memos_note.Media.Items.{
  VisualKind, image_kind, video_kind, motion_kind, AttachmentVisualItem, is_image_type,
  is_video_type, has, push_to, build_attachment_visual_items,
}
use memos_note.Media.Types.{
  get_attachment_type, still_media, group_of_media, video_media, get_attachment_url,
  get_attachment_thumbnail_url,
}

pub data FileCategory : Type 0 where
  image_file video_file motion_file audio_file document_file : FileCategory

pub record AttachmentItem : Type 0 where
  pub id : Text
  pub member_ids : List Text
  pub filename : Text
  pub category : FileCategory
  pub mime_type : Text
  pub thumbnail_url : Text
  pub source_url : Text
  pub size : ℕ
  pub is_local : Bool
  pub is_voice_note : Bool
  -- `audioMeta.durationSeconds`
  pub audio_meta : Option ℕ

-- The flag `i`, for characters of ASCII.
abbrev pub lower : ℕ → ℕ
lower c = if leb b'A' c && leb c b'Z' then c + 32 else c

-- What follows a prefix, in any case.
unfoldable pub after : Text → Text → Option Text
after [] s = some s
after (p ∷ prefix) [] = none
after (p ∷ prefix) (c ∷ s) = let rest = after prefix s in if lower c == p then rest else none

abbrev pub is_digit : ℕ → Bool
is_digit c = leb b'0' c && leb c b'9'

-- `-(\d{8})-(\d{4,6})`: the second group
unfoldable pub time_part : Option Text → Option Text
time_part none = none
time_part (some s) =
    let (time, _) = span is_digit (drop 9 s) in
    if all is_digit (take 8 s) && starts_with (drop 8 s) (codes "-") && leb 4 (length time)
    then some (take 6 time)
    else none

-- The second group of `AUDIO_RECORDING_FILENAME_RE`.
unfoldable pub recording_time : Text → Option Text
unfolding after time_part
recording_time s = or_else (time_part (after (codes "voice-recording-") s)) (
    or_else (time_part (after (codes "voice-note-") s))
      (time_part (after (codes "audio-recording-") s)))

abbrev pub is_audio_recording_filename : Text → Bool
unfolding recording_time
is_audio_recording_filename s = is_some (recording_time s)

unfoldable pub time_label : Option Text → Option Text
time_label none = none
time_label (some t) =
    if length t == 4
    then some (slice t 0 2 ++ codes ":" ++ slice t 2 4)
    else if length t == 6
    then some (slice t 0 2 ++ codes ":" ++ slice t 2 4 ++ codes ":" ++ slice t 4 6)
    else none

abbrev pub get_audio_recording_time_label : Text → Option Text
unfolding time_label recording_time
get_audio_recording_time_label s = time_label (recording_time s)

-- `categorizeFile`, with whether there is `motionMedia`
unfoldable pub categorize_file : Text → Bool → FileCategory
categorize_file mime_type true = motion_file
categorize_file mime_type false =
    if starts_with mime_type (codes "image/")
    then image_file
    else if starts_with mime_type (codes "video/")
    then video_file
    else if starts_with mime_type (codes "audio/")
    then audio_file
    else document_file

abbrev pub is_audio : FileCategory → Bool
is_audio audio_file = true
is_audio _ = false

abbrev pub is_audio_or_document : FileCategory → Bool
is_audio_or_document audio_file = true
is_audio_or_document document_file = true
is_audio_or_document _ = false

unfoldable pub category_of_kind : VisualKind → FileCategory
category_of_kind image_kind = image_file
category_of_kind video_kind = video_file
category_of_kind motion_kind = motion_file

abbrev pub total_size : List Attachment → ℕ
total_size [] = 0
total_size (a ∷ list) = a.size + total_size list

unfoldable pub visual_item_to_attachment_item : AttachmentVisualItem → AttachmentItem
unfolding category_of_kind
visual_item_to_attachment_item i = record {
  id = i.id;
  member_ids = i.attachment_names;
  filename = i.filename;
  category = category_of_kind i.kind;
  mime_type = i.mime_type;
  thumbnail_url = i.poster_url;
  source_url = i.source_url;
  size = total_size i.attachments;
  is_local = false;
  is_voice_note = false;
  audio_meta = none;
}

-- `file.motionMedia?.groupId || …`
unfoldable pub file_to_item : LocalFile → AttachmentItem
unfolding categorize_file recording_time
file_to_item f =
    let category = categorize_file f.file_type (is_some f.motion_media) in
    record {
      id = get_or_else (group_of_media f.motion_media) f.preview_url;
      member_ids = f.preview_url ∷ [];
      filename = f.file_name;
      category = category;
      mime_type = f.file_type;
      thumbnail_url = f.preview_url;
      source_url = f.preview_url;
      size = f.file_size;
      is_local = true;
      is_voice_note =
          is_audio category && (f.is_audio_recording || is_audio_recording_filename f.file_name);
      audio_meta = f.duration_seconds;
    }

-- The first loop of `toLocalMotionItems`: the groups in the order of their first files.
unfoldable pub add_file :
    Option Text → LocalFile → List (Text × List LocalFile) → List (Text × List LocalFile)
unfolding push_to
add_file none f groups = groups
add_file (some g) f groups = push_to g f groups

unfoldable pub files_by_group :
    List LocalFile → List (Text × List LocalFile) → List (Text × List LocalFile)
unfolding add_file
files_by_group [] groups = groups
files_by_group (f ∷ files) groups =
    files_by_group files (add_file (group_of_media f.motion_media) f groups)

unfoldable pub group_to_items :
    Text → List LocalFile → Option LocalFile → Option LocalFile → List AttachmentItem
unfolding file_to_item
group_to_items g files (some photo) (some clip) =
    let pair : AttachmentItem = record {
      id = g;
      member_ids = photo.preview_url ∷ clip.preview_url ∷ [];
      filename = photo.file_name;
      category = motion_file;
      mime_type = photo.file_type;
      thumbnail_url = photo.preview_url;
      source_url = clip.preview_url;
      size = photo.file_size + clip.file_size;
      is_local = true;
      is_voice_note = false;
      audio_meta = none;
    } in
    if length files == 2 then pair ∷ [] else map file_to_item files
group_to_items g files _ _ = map file_to_item files

unfoldable pub grouped_items : List (Text × List LocalFile) → List AttachmentItem
unfolding group_to_items still_media video_media
grouped_items [] = []
grouped_items ((g, files) ∷ groups) =
    group_to_items g files (find (λ f. still_media f.motion_media) files)
      (find (λ f. video_media f.motion_media) files)
    ++ grouped_items groups

unfoldable pub to_local_motion_items : List LocalFile → List AttachmentItem
unfolding grouped_items files_by_group file_to_item
to_local_motion_items files =
    grouped_items (files_by_group files [])
    ++ map file_to_item (filter (λ f. not (is_some (group_of_media f.motion_media))) files)

unfoldable pub is_visual : Attachment → Bool
unfolding get_attachment_type
is_visual a =
    is_image_type (get_attachment_type a.type)
    || is_video_type (get_attachment_type a.type)
    || is_some a.motion_media

-- `attachmentVisualIds`
abbrev pub visual_ids : List AttachmentVisualItem → List Text
visual_ids [] = []
visual_ids (i ∷ items) = i.attachment_names ++ visual_ids items

module _ (origin : Text) where
  unfoldable pub attachment_group_to_item : Attachment → AttachmentItem
  unfolding get_attachment_type categorize_file recording_time
  attachment_group_to_item a =
      let source_url = get_attachment_url origin a in
      record {
        id = a.name;
        member_ids = a.name ∷ [];
        filename = a.filename;
        category = categorize_file a.type false;
        mime_type = a.type;
        thumbnail_url =
            if is_image_type (get_attachment_type a.type)
            then get_attachment_thumbnail_url origin a
            else source_url;
        source_url = source_url;
        size = a.size;
        is_local = false;
        is_voice_note =
            is_audio (categorize_file a.type false) && is_audio_recording_filename a.filename;
        audio_meta = none;
      }

  -- The attachments that no visual item is for, if they are sound or a document.
  unfoldable pub other_items : List Text → List Attachment → List AttachmentItem
  unfolding attachment_group_to_item
  other_items ids list =
      filter (λ i. is_audio_or_document i.category)
        (map attachment_group_to_item (filter (λ a. not (has a.name ids)) list))

  unfoldable pub to_attachment_items : List Attachment → List LocalFile → List AttachmentItem
  unfolding is_visual build_attachment_visual_items visual_item_to_attachment_item other_items
      to_local_motion_items
  to_attachment_items list files =
      let items = build_attachment_visual_items origin (filter is_visual list) in
      map visual_item_to_attachment_item items
      ++ other_items (visual_ids items) list
      ++ to_local_motion_items files

unfoldable pub separate_media_and_docs :
    List AttachmentItem → List AttachmentItem × List AttachmentItem
separate_media_and_docs [] = ([], [])
separate_media_and_docs (i ∷ items) =
    let (media, docs) = separate_media_and_docs items in
    if is_audio_or_document i.category then (media, i ∷ docs) else (i ∷ media, docs)
