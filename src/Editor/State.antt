-- ===== src/Editor/State.antt =====
-- web/src/components/MemoEditor/state/{types,actions,reducer}.ts, editorMode.ts and
-- services/validationService.ts. A `Partial` is a record of optional fields; the location, which
-- may be absent itself, is then twice optional.
pub mod Laws
mod Samples
use memos_note.Common.{
  if◌then◌else◌, get_or_else, filter, Text, codes, text_eq, is_blank, ℕ, Bool, true, false, not,
  ◌&&◌, Option, none, some, List, [], ◌∷◌, ◌++◌,
}
use memos_note.Api.{Visibility, private, MotionMedia, Attachment, MemoRelation, Location}

pub data EditorMode : Type 0 where
  wysiwyg raw : EditorMode

pub data LoadingKey : Type 0 where
  saving uploading loading : LoadingKey

-- A file that is not uploaded yet. What is in it is named by a number.
pub record LocalFile : Type 0 where
  pub file_name : Text
  pub file_type : Text
  pub file_size : ℕ
  pub file_content : ℕ
  pub preview_url : Text
  pub is_audio_recording : Bool
  pub duration_seconds : Option ℕ
  pub motion_media : Option MotionMedia

pub record Metadata : Type 0 where
  pub visibility : Visibility
  pub attachments : List Attachment
  pub relations : List MemoRelation
  pub location : Option Location

pub record MetadataPatch : Type 0 where
  pub visibility : Option Visibility
  pub attachments : Option (List Attachment)
  pub relations : Option (List MemoRelation)
  pub location : Option (Option Location)

pub record Loading : Type 0 where
  pub is_saving : Bool
  pub is_uploading : Bool
  pub is_loading : Bool

pub record Ui : Type 0 where
  pub is_focus_mode : Bool
  pub loading_flags : Loading
  pub editor_mode : EditorMode

-- Dates in milliseconds.
pub record Timestamps : Type 0 where
  pub create_time : Option ℕ
  pub update_time : Option ℕ

pub record TimestampsPatch : Type 0 where
  pub create_time : Option (Option ℕ)
  pub update_time : Option (Option ℕ)

pub record EditorState : Type 0 where
  pub content : Text
  pub metadata : Metadata
  pub ui : Ui
  pub timestamps : Timestamps
  pub local_files : List LocalFile
  pub recorder_busy : Bool

pub data EditorAction : Type 0 where
  init_memo : Text → Metadata → Timestamps → EditorAction
  update_content : Text → EditorAction
  set_metadata : MetadataPatch → EditorAction
  add_local_file : LocalFile → EditorAction
  remove_local_file : Text → EditorAction
  set_local_files : List LocalFile → EditorAction
  toggle_focus_mode : EditorAction
  set_loading : LoadingKey → Bool → EditorAction
  set_timestamps : TimestampsPatch → EditorAction
  set_recorder_busy : Bool → EditorAction
  set_editor_mode : EditorMode → EditorAction
  reset : EditorAction

-- What `localStorage` holds for the mode: `none` where reading throws, then the entry or `null`.
unfoldable pub get_preferred_editor_mode : Option (Option Text) → EditorMode
get_preferred_editor_mode none = wysiwyg
get_preferred_editor_mode (some none) = wysiwyg
get_preferred_editor_mode (some (some mode)) = if text_eq mode (codes "raw") then raw else wysiwyg

abbrev pub default_state : EditorState
default_state = record {
  content = [];
  metadata = record { visibility = private; attachments = []; relations = []; location = none };
  ui = record {
    is_focus_mode = false;
    loading_flags = record { is_saving = false; is_uploading = false; is_loading = false };
    editor_mode = wysiwyg;
  };
  timestamps = record { create_time = none; update_time = none };
  local_files = [];
  recorder_busy = false;
}

unfoldable pub create_initial_state : Option (Option Text) → EditorState
unfolding get_preferred_editor_mode
create_initial_state stored = record default_state {
  ui = record (default_state.ui) { editor_mode = get_preferred_editor_mode stored };
}

abbrev pub patch_metadata : MetadataPatch → Metadata → Metadata
patch_metadata p m = record {
  visibility = get_or_else p.visibility m.visibility;
  attachments = get_or_else p.attachments m.attachments;
  relations = get_or_else p.relations m.relations;
  location = get_or_else p.location m.location;
}

abbrev pub patch_timestamps : TimestampsPatch → Timestamps → Timestamps
patch_timestamps p t = record {
  create_time = get_or_else p.create_time t.create_time;
  update_time = get_or_else p.update_time t.update_time;
}

abbrev pub set_flag : LoadingKey → Bool → Loading → Loading
set_flag saving value l = record l { is_saving = value }
set_flag uploading value l = record l { is_uploading = value }
set_flag loading value l = record l { is_loading = value }

-- `stored` is what the storage holds for the mode when the action is handled.
unfoldable pub editor_reducer : Option (Option Text) → EditorState → EditorAction → EditorState
unfolding create_initial_state
editor_reducer stored s (init_memo content metadata timestamps) = record s {
  content = content;
  metadata = metadata;
  timestamps = timestamps;
}
editor_reducer stored s (update_content content) = record s { content = content }
editor_reducer stored s (set_metadata p) = record s { metadata = patch_metadata p s.metadata }
editor_reducer stored s (add_local_file f) = record s { local_files = s.local_files ++ f ∷ [] }
editor_reducer stored s (remove_local_file url) = record s {
  local_files = filter (λ f. not (text_eq f.preview_url url)) s.local_files;
}
editor_reducer stored s (set_local_files files) = record s { local_files = files }
editor_reducer stored s toggle_focus_mode = record s {
  ui = record (s.ui) { is_focus_mode = not (s.ui).is_focus_mode };
}
editor_reducer stored s (set_loading key value) = record s {
  ui = record (s.ui) { loading_flags = set_flag key value (s.ui).loading_flags };
}
editor_reducer stored s (set_timestamps p) = record s {
  timestamps = patch_timestamps p s.timestamps;
}
editor_reducer stored s (set_recorder_busy value) = record s { recorder_busy = value }
editor_reducer stored s (set_editor_mode mode) = record s {
  ui = record (s.ui) { editor_mode = mode };
}
editor_reducer stored s reset = create_initial_state stored

pub data Reason : Type 0 where
  loading_content content_required wait_for_upload finish_recording save_in_progress : Reason

abbrev pub is_nil {ℓ} : {A : Type ℓ} → List A → Bool
is_nil [] = true
is_nil (_ ∷ _) = false

-- `canSave`: why not, or `none`.
unfoldable pub can_save : EditorState → Option Reason
can_save s =
    let flags = (s.ui).loading_flags in
    if flags.is_loading
    then some loading_content
    else (if is_blank s.content && (is_nil (s.metadata).attachments && is_nil s.local_files)
        then some content_required
        else (if flags.is_uploading
            then some wait_for_upload
            else (if s.recorder_busy
                then some finish_recording
                else (if flags.is_saving then some save_in_progress else none))))
