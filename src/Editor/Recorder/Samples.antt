-- ===== src/Editor/Recorder/Samples.antt =====
-- A recorder that is clicked and granted a stream.
use memos_note.Common.{
  ◌==◌, if◌then◌else◌, get_or_else, Text, codes, ◌≡◌, refl, Bool, true, false, none, some, List, [],
  ◌∷◌, ◌++◌, arith,
}
use memos_note.Editor.Recorder.{
  idle, requesting_permission, error, attach, transcribe, Recorder, fallback_audio_mime_type,
  get_file_extension, cleanup_timer, cleanup_stream, reset_recorder_refs, is_busy, blob_size,
  seconds_since, complete, on_stop, on_data_available, stop_active, stop_recording, reset_recording,
  get_supported_audio_mime_type, start_recording, begin_recording, grant,
}
use memos_note.Editor.Recorder.Events.{
  Event, clicks, resets, granted, first_recorder, IsSound, step, steps,
}
use memos_note.Editor.Recorder.Answers.{grant-unbuilt}
use memos_note.Editor.Recorder.Microphone.{steps-IsSound}
use memos_note.Editor.Recorder.Takes.{take_events, steps-take_events_completes}

abbrev clicked : Recorder
clicked = record first_recorder {
  status = requesting_permission;
  start_request_id = 1;
  asked = 1 ∷ [];
}

abbrev any_type : Text → Bool
any_type type = true

two_takes : List Event
two_takes =
    clicks
    ∷ (take_events true any_type 1 10 2010 attach (4 ∷ 0 ∷ []) (3 ∷ [])
        ++ (clicks ∷ resets ∷ granted 2 true true 3000 ∷ []))

recorded_two :
    (steps true any_type two_takes first_recorder).completed
    ≡ record {
      chunks = 4 ∷ 3 ∷ [];
      mime_type = codes "audio/webm;codecs=opus";
      extension = codes "webm";
      duration_seconds = 2;
      mode = attach;
    }
      ∷ []
unfolding two_takes start_recording is_busy grant begin_recording on_data_available stop_recording
    stop_active on_stop complete reset_recording reset_recorder_refs cleanup_stream cleanup_timer
    get_file_extension get_supported_audio_mime_type
recorded_two = refl

clicked-IsSound : IsSound clicked
clicked-IsSound = record {
  held = refl;
  has_recorder = refl;
  running = refl;
  waiting = refl;
  issued = (omega arith, tt);
}

steps-IsSound_example : IsSound (steps true any_type two_takes first_recorder)
unfolding two_takes
steps-IsSound_example = steps-IsSound true any_type two_takes refl

grant-unbuilt_example :
    let r' = step true any_type (granted 1 false true 9) clicked in
    (r'.status ≡ error)
    × (r'.media_stream ≡ none)
    × (r'.live_streams ≡ 1 ∷ [])
    × ((step true any_type resets r').live_streams ≡ 1 ∷ [])
grant-unbuilt_example = grant-unbuilt true any_type clicked 1 9 true clicked-IsSound refl refl

steps-take_events_completes_example :
    let r' =
      steps true any_type
        (take_events true any_type 1 10 2010 transcribe (4 ∷ []) (3 ∷ []))
        clicked in
    let type = get_or_else (get_supported_audio_mime_type true any_type) fallback_audio_mime_type in
    (r'.status ≡ idle)
    × (r'.live_streams ≡ [])
    × (r'.completed ≡ (
        if blob_size (4 ∷ 3 ∷ []) == 0
        then []
        else record {
          chunks = 4 ∷ 3 ∷ [];
          mime_type = type;
          extension = get_file_extension type;
          duration_seconds = seconds_since (some 10) 2010;
          mode = transcribe;
        }
          ∷ []))
    × (r'.empty ≡ (if blob_size (4 ∷ 3 ∷ []) == 0 then transcribe ∷ [] else []))
steps-take_events_completes_example =
    steps-take_events_completes true any_type clicked 10 2010 transcribe (4 ∷ []) (3 ∷ [])
      clicked-IsSound refl
