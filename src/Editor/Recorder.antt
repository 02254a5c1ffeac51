-- ===== src/Editor/Recorder.antt =====
-- The audio recorder: `useAudioRecorder` of
-- web/src/components/MemoEditor/hooks/useAudioRecorder.ts. The browser's part of the state is what
-- it has been asked for and not answered, and the streams whose tracks run; a stream has the number
-- of the request that it answers. A chunk of a recording stands for its size. Whether the browser
-- can record, and which types it supports, are parameters.
pub mod Events
pub mod Sound
pub mod Microphone
pub mod Answers
pub mod Takes
mod Samples
use memos_note.Common.{
  leb, ◌==◌, if◌then◌else◌, get_or_else, filter, find, Text, codes, starts_with, ℕ, zero, suc, ◌+◌,
  ◌-◌, ◌/◌, Bool, true, false, not, ◌&&◌, ◌||◌, Option, none, some, List, [], ◌∷◌, ◌++◌,
}

pub data Status : Type 0 where
  idle requesting_permission recording error unsupported : Status

pub data CompleteMode : Type 0 where
  attach transcribe : CompleteMode

pub data Problem : Type 0 where
  not_supported permission_denied failed_to_start : Problem

pub record Completed : Type 0 where
  pub chunks : List ℕ
  pub mime_type : Text
  pub extension : Text
  pub duration_seconds : ℕ
  pub mode : CompleteMode

pub record Recorder : Type 0 where
  pub status : Status
  pub elapsed_seconds : ℕ
  pub problem : Option Problem
  pub recording_stream : Option ℕ
  -- Whether the recorder is active.
  pub media_recorder : Option Bool
  pub media_stream : Option ℕ
  pub chunks : List ℕ
  pub started_at : Option ℕ
  pub timer_runs : Bool
  pub mime_type : Text
  pub completion_mode : CompleteMode
  pub start_request_id : ℕ
  pub completed : List Completed
  pub empty : List CompleteMode
  pub asked : List ℕ
  pub live_streams : List ℕ

abbrev pub fallback_audio_mime_type : Text
fallback_audio_mime_type = codes "audio/webm"

abbrev pub audio_mime_type_candidates : List Text
audio_mime_type_candidates =
    codes "audio/webm;codecs=opus"
    ∷ codes "audio/webm"
    ∷ codes "audio/mp4"
    ∷ codes "audio/ogg;codecs=opus"
    ∷ []

abbrev pub includes : Text → Text → Bool
includes [] p = starts_with [] p
includes (c ∷ s) p = starts_with (c ∷ s) p || includes s p

unfoldable pub get_file_extension : Text → Text
get_file_extension mime_type =
    if includes mime_type (codes "ogg")
    then codes "ogg"
    else (if includes mime_type (codes "mp4") then codes "m4a" else codes "webm")

abbrev pub without : ℕ → List ℕ → List ℕ
without i is = filter (λ j. not (j == i)) is

unfoldable pub stop_tracks : Option ℕ → List ℕ → List ℕ
stop_tracks none live = live
stop_tracks (some i) live = without i live

unfoldable pub cleanup_timer : Recorder → Recorder
cleanup_timer r = record r { timer_runs = false }

unfoldable pub cleanup_stream : Recorder → Recorder
cleanup_stream r = record r {
  live_streams = stop_tracks r.media_stream r.live_streams;
  media_stream = none;
  recording_stream = none;
}

unfoldable pub reset_recorder_refs : Recorder → Recorder
unfolding cleanup_timer cleanup_stream
reset_recorder_refs r = record (cleanup_stream (cleanup_timer r)) {
  media_recorder = none;
  chunks = [];
  started_at = none;
}

unfoldable pub is_busy : Status → Bool
is_busy recording = true
is_busy requesting_permission = true
is_busy _ = false

-- The size of a blob is that of its chunks.
abbrev pub blob_size : List ℕ → ℕ
blob_size [] = 0
blob_size (n ∷ ns) = n + blob_size ns

-- `startedAtRef.current ? ... : 0`, with `Math.round`
abbrev pub seconds_since : Option ℕ → ℕ → ℕ
seconds_since none now = 0
seconds_since (some zero) now = 0
seconds_since (some (suc ms)) now = (now - suc ms + 500) / 1000

-- The `stop` listener of the current request.
unfoldable pub complete : ℕ → Recorder → Recorder
unfolding reset_recorder_refs get_file_extension
complete now r =
    let done =
      reset_recorder_refs (record r {
        completion_mode = attach;
        elapsed_seconds = 0;
        problem = none;
        status = idle;
      }) in
    if blob_size r.chunks == 0
    then record done { empty = r.completion_mode ∷ r.empty }
    else record done {
      completed =
          record {
            chunks = r.chunks;
            mime_type = r.mime_type;
            extension = get_file_extension r.mime_type;
            duration_seconds = seconds_since r.started_at now;
            mode = r.completion_mode;
          }
          ∷ r.completed;
    }

unfoldable pub on_stop : ℕ → ℕ → Recorder → Recorder
unfolding complete
on_stop i now r = if r.start_request_id == i then complete now r else r

unfoldable pub on_data_available : ℕ → ℕ → Recorder → Recorder
on_data_available i size r =
    if (r.start_request_id == i) && leb 1 size
    then record r { chunks = r.chunks ++ (size ∷ []) }
    else r

-- The `catch` of the current request.
unfoldable pub fail : Problem → Recorder → Recorder
unfolding reset_recorder_refs
fail p r = reset_recorder_refs (record r { status = error; problem = some p })

unfoldable pub stop_active : Option Bool → CompleteMode → Recorder → Recorder × Bool
unfolding cleanup_timer
stop_active (some true) mode r = (
  record (cleanup_timer (record r { completion_mode = mode })) { media_recorder = some false },
  true,
)
stop_active _ mode r = (r, false)

-- `stopRecording`, with what it returns
unfoldable pub stop_recording : CompleteMode → Recorder → Recorder × Bool
unfolding stop_active
stop_recording mode r = stop_active r.media_recorder mode r

unfoldable pub reset_recording : Recorder → Recorder
unfolding reset_recorder_refs
reset_recording r =
    record (reset_recorder_refs
      (record r { start_request_id = suc r.start_request_id; completion_mode = attach })) {
        elapsed_seconds = 0;
        problem = none;
        status = idle;
      }

-- The callback of the interval.
unfoldable pub tick : ℕ → Recorder → Recorder
tick now r = elim r.started_at [
  | none ↦ r
  | some zero ↦ r
  | some (suc ms) ↦ if r.timer_runs then record r { elapsed_seconds = (now - suc ms) / 1000 } else r
]

module _ (can_record : Bool) (is_type_supported : Text → Bool) where
  unfoldable pub get_supported_audio_mime_type : Option Text
  get_supported_audio_mime_type =
      if can_record then find is_type_supported audio_mime_type_candidates else none

  -- `startRecording` up to its `await`.
  unfoldable pub start_recording : Recorder → Recorder
  start_recording r =
      let r' = record r { start_request_id = suc r.start_request_id } in
      if can_record
      then record r' {
        problem = none;
        status = requesting_permission;
        elapsed_seconds = 0;
        asked = r'.start_request_id ∷ r.asked;
      }
      else record r' { status = unsupported; problem = some not_supported }

  -- `startRecording` after a stream was granted: whether the recorder can be made, and started.
  unfoldable pub begin_recording : ℕ → Bool → Bool → ℕ → Recorder → Recorder
  unfolding fail get_supported_audio_mime_type
  begin_recording i builds begins now r =
      let r' = record r {
        mime_type = get_or_else get_supported_audio_mime_type fallback_audio_mime_type;
        media_stream = some i;
        recording_stream = some i;
        media_recorder = some begins;
        chunks = [];
      } in
      if builds
      then (if begins
          then record r' { started_at = some now; status = recording; timer_runs = true }
          else fail failed_to_start r')
      else fail failed_to_start r

  unfoldable pub grant : ℕ → Bool → Bool → ℕ → Recorder → Recorder
  unfolding begin_recording
  grant i builds begins now r =
      let r' = record r { asked = without i r.asked; live_streams = i ∷ r.live_streams } in
      if r.start_request_id == i
      then begin_recording i builds begins now r'
      else record r' { live_streams = without i r'.live_streams }

  unfoldable pub refuse : ℕ → Bool → Recorder → Recorder
  unfolding fail
  refuse i denied r =
      let r' = record r { asked = without i r.asked } in
      if r.start_request_id == i
      then fail (if denied then permission_denied else failed_to_start) r'
      else r'
