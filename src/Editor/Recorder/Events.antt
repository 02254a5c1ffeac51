-- ===== src/Editor/Recorder/Events.antt =====
-- Runs of a recorder: clicks, answers of the browser and events of its recorder.
use memos_note.Common.{
  ◌==◌, if◌then◌else◌, is_some, any, All, Text, ℕ, ◌≤◌, ◌≡◌, Bool, true, false, Option, none, some,
  List, [], ◌∷◌,
}
use memos_note.Editor.Recorder.{
  Status, idle, requesting_permission, recording, CompleteMode, attach, Recorder,
  fallback_audio_mime_type, is_busy, on_stop, on_data_available, stop_recording, reset_recording,
  tick, start_recording, grant, refuse,
}

-- Requests are answered by their number; `granted` also says whether the recorder is made and
-- started.
pub data Event : Type 0 where
  clicks resets : Event
  granted : ℕ → Bool → Bool → ℕ → Event
  refused : ℕ → Bool → Event
  data_available stopped : ℕ → ℕ → Event
  stops : CompleteMode → Event
  ticks : ℕ → Event

-- Whether an answer brings a recorder that can be made, if it brings a stream.
abbrev pub builds_recorder : Event → Bool
builds_recorder (granted i builds begins now) = builds
builds_recorder _ = true

abbrev pub is_recording : Status → Bool
is_recording recording = true
is_recording _ = false

abbrev pub is_requesting : Status → Bool
is_requesting requesting_permission = true
is_requesting _ = false

abbrev pub has : ℕ → List ℕ → Bool
has i is = any (λ j. j == i) is

abbrev pub first_recorder : Recorder
first_recorder = record {
  status = idle;
  elapsed_seconds = 0;
  problem = none;
  recording_stream = none;
  media_recorder = none;
  media_stream = none;
  chunks = [];
  started_at = none;
  timer_runs = false;
  mime_type = fallback_audio_mime_type;
  completion_mode = attach;
  start_request_id = 0;
  completed = [];
  empty = [];
  asked = [];
  live_streams = [];
}

-- Of the parts of a recorder: its status, the number of the last request, the recorder and the
-- stream that it holds, the streams that run, and the requests that wait for an answer.
pub record IsSoundAt (status : Status) (id : ℕ) (recorder : Option Bool) (stream : Option ℕ)
    (live asked : List ℕ) : Type 0 where
  pub held : stream ≡ (if is_recording status then some id else none)
  pub has_recorder : is_some recorder ≡ is_recording status
  pub running : live ≡ (if is_recording status then id ∷ [] else [])
  pub waiting : has id asked ≡ is_requesting status
  pub issued : All (λ i. i ≤ id) asked

abbrev pub IsSound : Recorder → Type 0
IsSound r =
    IsSoundAt r.status r.start_request_id r.media_recorder r.media_stream r.live_streams r.asked

module _ (can_record : Bool) (is_type_supported : Text → Bool) where
  -- The editor's button does nothing while the recorder is busy. A request is answered once, and a
  -- recorder stops while there is one.
  abbrev pub step : Event → Recorder → Recorder
  step clicks r = if is_busy r.status then r else start_recording can_record is_type_supported r
  step resets r = reset_recording r
  step (granted i builds begins now) r =
      if has i r.asked then grant can_record is_type_supported i builds begins now r else r
  step (refused i denied) r =
      if has i r.asked then refuse can_record is_type_supported i denied r else r
  step (data_available i size) r = on_data_available i size r
  step (stopped i now) r = if is_some r.media_recorder then on_stop i now r else r
  step (stops mode) r = (stop_recording mode r).0
  step (ticks now) r = tick now r

  abbrev pub steps : List Event → Recorder → Recorder
  steps [] r = r
  steps (e ∷ es) r = steps es (step e r)
