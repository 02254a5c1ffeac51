-- ===== src/Editor/State/Samples.antt =====
-- The theorems on the editor's state at a small editor.
use memos_note.Common.{codes, ◌≡◌, refl, false, none}
use memos_note.Editor.State.{LocalFile, EditorState, default_state, can_save}

abbrev photo : LocalFile
photo = record {
  file_name = codes "a.png";
  file_type = codes "image/png";
  file_size = 3;
  file_content = 7;
  preview_url = codes "blob:1";
  is_audio_recording = false;
  duration_seconds = none;
  motion_media = none;
}

abbrev draft : EditorState
draft = record default_state { content = codes "hi" }

draft_can_be_saved : can_save draft ≡ none
unfolding can_save
draft_can_be_saved = refl
