-- ===== src/Editor/Recorder/Takes.antt =====
-- What comes of one request to record.
use memos_note.Common.{
  leb, ◌==◌, if◌then◌else◌, Bool-cases, get_or_else, filter, filter-append, Text, ℕ, ◌≡◌, refl, sym,
  ap, ◌∙◌, inl, inr, Bool, true, false, some, List, [], ◌∷◌, ◌++◌, append-nil, append_assoc, arith,
}
use memos_note.Editor.Recorder.{
  idle, recording, CompleteMode, Recorder, fallback_audio_mime_type, get_file_extension, without,
  stop_tracks, cleanup_timer, cleanup_stream, reset_recorder_refs, blob_size, seconds_since,
  complete, on_stop, on_data_available, stop_active, stop_recording, get_supported_audio_mime_type,
  begin_recording, grant,
}
use memos_note.Editor.Recorder.Events.{
  Event, granted, data_available, stopped, stops, has, IsSound, step, steps,
}
use memos_note.Editor.Recorder.Sound.{only_mine, none_held}
use memos_note.Editor.Recorder.Answers.{own_request}

-- The chunks that a recorder delivers.
abbrev pub delivered : ℕ → List ℕ → List Event
delivered i [] = []
delivered i (n ∷ ns) = data_available i n ∷ delivered i ns

blob_size-filter : (ns : List ℕ) → blob_size (filter (leb 1) ns) ≡ blob_size ns
blob_size-filter [] = refl
blob_size-filter (n ∷ ns) = ground (arith, blob_size-filter ns)

appended :
    (cs : List ℕ) (n : ℕ) (ns : List ℕ)
    → (if leb 1 n then cs ++ (n ∷ []) else cs) ++ filter (leb 1) ns ≡ cs ++ filter (leb 1) (n ∷ ns)
appended cs n ns = elim (Bool-cases (leb 1 n)) [
  | inl e ↦ rw e (append_assoc cs (n ∷ []) (filter (leb 1) ns))
  | inr e ↦ rw e refl
]

module _ (can_record : Bool) (is_type_supported : Text → Bool) where
  steps-append :
      (es fs : List Event) (r : Recorder)
      → steps can_record is_type_supported (es ++ fs) r
        ≡ steps can_record is_type_supported fs (steps can_record is_type_supported es r)
  steps-append [] fs r = refl
  steps-append (e ∷ es) fs r = steps-append es fs (step can_record is_type_supported e r)

  data-own :
      (n : ℕ) (r : Recorder)
      → on_data_available r.start_request_id n r
        ≡ record r { chunks = if leb 1 n then r.chunks ++ (n ∷ []) else r.chunks }
  unfolding on_data_available
  data-own n r = elim (Bool-cases (leb 1 n)) [
    | inl e ↦ rw (own_request r.start_request_id) (rw e refl)
    | inr e ↦ rw (own_request r.start_request_id) (rw e refl)
  ]

  steps-delivered :
      (ns : List ℕ) (r : Recorder)
      → steps can_record is_type_supported (delivered r.start_request_id ns) r
        ≡ record r { chunks = r.chunks ++ filter (leb 1) ns }
  steps-delivered [] r = rw (append-nil r.chunks) refl
  steps-delivered (n ∷ ns) r =
      ap (steps can_record is_type_supported (delivered r.start_request_id ns)) (data-own n r)
      ∙ (steps-delivered ns
            (record r { chunks = if leb 1 n then r.chunks ++ (n ∷ []) else r.chunks })
          ∙ ap (λ c. record r { chunks = c }) (appended r.chunks n ns))

  -- The recorder of the last request, once it is granted and started.
  started : ℕ → Recorder → Recorder
  started now r = record r {
    status = recording;
    recording_stream = some r.start_request_id;
    media_recorder = some true;
    media_stream = some r.start_request_id;
    chunks = [];
    started_at = some now;
    timer_runs = true;
    mime_type =
        get_or_else (get_supported_audio_mime_type can_record is_type_supported)
          fallback_audio_mime_type;
    asked = without r.start_request_id r.asked;
    live_streams = r.start_request_id ∷ r.live_streams;
  }

  -- That recorder with chunks, after it was told to stop.
  told : ℕ → CompleteMode → List ℕ → Recorder → Recorder
  unfolding started
  told now mode cs r = record (started now r) {
    chunks = cs;
    completion_mode = mode;
    timer_runs = false;
    media_recorder = some false;
  }

  step-granted :
      (r : Recorder) (now : ℕ)
      → has r.start_request_id r.asked ≡ true
      → step can_record is_type_supported (granted r.start_request_id true true now) r
        ≡ started now r
  unfolding grant begin_recording started
  step-granted r now h = rw h (rw (own_request r.start_request_id) refl)

  step-stopped :
      (r : Recorder) (t0 t1 : ℕ) (mode : CompleteMode) (cs : List ℕ)
      → step can_record is_type_supported (stopped r.start_request_id t1) (told t0 mode cs r)
        ≡ complete t1 (told t0 mode cs r)
  unfolding told started on_stop
  step-stopped r t0 t1 mode cs = rw (own_request r.start_request_id) refl

  step-stops :
      (r : Recorder) (t0 : ℕ) (mode : CompleteMode) (cs : List ℕ)
      → step can_record is_type_supported (stops mode) (record (started t0 r) { chunks = cs })
        ≡ told t0 mode cs r
  unfolding told started stop_recording stop_active cleanup_timer
  step-stops r t0 mode cs = refl

  delivered-started :
      (r : Recorder) (t0 : ℕ) (ns : List ℕ)
      → steps can_record is_type_supported (delivered r.start_request_id ns) (started t0 r)
        ≡ record (started t0 r) { chunks = filter (leb 1) ns }
  unfolding started
  delivered-started r t0 ns = steps-delivered ns (started t0 r)

  delivered-told :
      (r : Recorder) (t0 : ℕ) (mode : CompleteMode) (cs ns : List ℕ)
      → steps can_record is_type_supported (delivered r.start_request_id ns) (told t0 mode cs r)
        ≡ told t0 mode (cs ++ filter (leb 1) ns) r
  unfolding told started
  delivered-told r t0 mode cs ns = steps-delivered ns (told t0 mode cs r)

  -- The events of a take: granted at a time, told to stop, stopped at a time, with chunks delivered
  -- before and after it was told.
  abbrev pub take_events : ℕ → ℕ → ℕ → CompleteMode → List ℕ → List ℕ → List Event
  take_events id t0 t1 mode before after =
      granted id true true t0
      ∷ (delivered id before ++ (stops mode ∷ (delivered id after ++ (stopped id t1 ∷ []))))

  steps-take_events :
      (r : Recorder) (t0 t1 : ℕ) (mode : CompleteMode) (before after : List ℕ)
      → has r.start_request_id r.asked ≡ true
      → steps can_record is_type_supported
          (take_events r.start_request_id t0 t1 mode before after)
          r
        ≡ complete t1 (told t0 mode (filter (leb 1) before ++ filter (leb 1) after) r)
  steps-take_events r t0 t1 mode before after h =
      let id = r.start_request_id in
      let run : List Event → Recorder → Recorder = steps can_record is_type_supported in
      let end : List Event = delivered id after ++ (stopped id t1 ∷ []) in
      let cs = filter (leb 1) before in
      ap (run (delivered id before ++ (stops mode ∷ end))) (step-granted r t0 h)
      ∙ (steps-append (delivered id before) (stops mode ∷ end) (started t0 r)
          ∙ (ap (run (stops mode ∷ end)) (delivered-started r t0 before)
              ∙ (ap (run end) (step-stops r t0 mode cs)
                  ∙ (steps-append (delivered id after) (stopped id t1 ∷ []) (told t0 mode cs r)
                      ∙ (ap (run (stopped id t1 ∷ [])) (delivered-told r t0 mode cs after)
                          ∙ step-stopped r t0 t1 mode (cs ++ filter (leb 1) after))))))

  complete-told :
      (r : Recorder) (t0 t1 : ℕ) (mode : CompleteMode) (cs : List ℕ) (size : ℕ)
      → stop_tracks (some r.start_request_id) (r.start_request_id ∷ r.live_streams) ≡ []
      → blob_size cs ≡ size
      → let r' = complete t1 (told t0 mode cs r) in
        let type =
          get_or_else
            (get_supported_audio_mime_type can_record is_type_supported)
            fallback_audio_mime_type in
        (r'.status ≡ idle)
        × (r'.live_streams ≡ [])
        × (r'.completed ≡ (
            if size == 0
            then r.completed
            else record {
              chunks = cs;
              mime_type = type;
              extension = get_file_extension type;
              duration_seconds = seconds_since (some t0) t1;
              mode = mode;
            }
              ∷ r.completed))
        × (r'.empty ≡ (if size == 0 then mode ∷ r.empty else r.empty))
  unfolding complete reset_recorder_refs cleanup_stream cleanup_timer told started
  complete-told r t0 t1 mode cs size off h = rw h (elim (Bool-cases (size == 0)) [
    | inl e ↦ rw e (rw off (refl, refl, refl, refl))
    | inr e ↦ rw e (rw off (refl, refl, refl, refl))
  ])

  -- On a sound recorder whose last request waits, and is granted, recorded, told to stop and stopped:
  -- the recorder is idle, the microphone is off, and one recording is handed on that has every chunk
  -- but the empty ones, in order, and was made for what it was stopped for; if there were only empty
  -- chunks it is reported as empty instead.
  pub steps-take_events_completes :
      (r : Recorder) (t0 t1 : ℕ) (mode : CompleteMode) (before after : List ℕ)
      → IsSound r
      → has r.start_request_id r.asked ≡ true
      → let r' =
          steps can_record is_type_supported
            (take_events r.start_request_id t0 t1 mode before after)
            r in
        let chunks = filter (leb 1) (before ++ after) in
        let type =
          get_or_else
            (get_supported_audio_mime_type can_record is_type_supported)
            fallback_audio_mime_type in
        (r'.status ≡ idle)
        × (r'.live_streams ≡ [])
        × (r'.completed ≡ (
            if blob_size (before ++ after) == 0
            then r.completed
            else record {
              chunks = chunks;
              mime_type = type;
              extension = get_file_extension type;
              duration_seconds = seconds_since (some t0) t1;
              mode = mode;
            }
              ∷ r.completed))
        × (r'.empty ≡ (if blob_size (before ++ after) == 0 then mode ∷ r.empty else r.empty))
  steps-take_events_completes r t0 t1 mode before after s h =
      rw (steps-take_events r t0 t1 mode before after h) (
        rw (sym (filter-append (leb 1) before after)) (
          complete-told r t0 t1 mode (filter (leb 1) (before ++ after))
            (blob_size (before ++ after))
            (only_mine r.start_request_id r.live_streams
              (none_held r r.start_request_id s h (own_request r.start_request_id)).1)
            (blob_size-filter (before ++ after))))
