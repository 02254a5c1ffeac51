-- ===== src/Editor/Recorder/Microphone.antt =====
-- When the microphone is on, over any run of clicks, answers and recorder events.
use memos_note.Common.{
  ◌==◌, if◌then◌else◌, ==_iff, Bool-cases, is_some, get_or_else, all, All, Text, ℕ, suc, ◌≤◌, ◌≡◌,
  refl, sym, ap, ◌∙◌, inl, inr, Bool, true, false, ◌&&◌, none, some, List, [], ◌∷◌,
}
use memos_note.Editor.Recorder.{
  idle, error, Problem, permission_denied, failed_to_start, Recorder, fallback_audio_mime_type,
  without, stop_tracks, cleanup_timer, cleanup_stream, reset_recorder_refs, is_busy, blob_size,
  complete, on_stop, fail, reset_recording, get_supported_audio_mime_type, start_recording,
  begin_recording, grant, refuse,
}
use memos_note.Editor.Recorder.Events.{
  Event, clicks, resets, granted, refused, data_available, stopped, stops, ticks, builds_recorder,
  has, first_recorder, IsSoundAt, IsSound, step, steps,
}
use memos_note.Editor.Recorder.Sound.{
  data-IsSound, has-fresh, issued_suc, issued_without, other-IsSoundAt, refused-IsSoundAt, answered,
  not_requesting, settled-IsSoundAt, started-IsSoundAt, stop_tracks-nil, only_mine, none_held,
  tick-IsSound, stop-IsSound,
}

module _ (can_record : Bool) (is_type_supported : Text → Bool) where
  start-IsSound :
      (r : Recorder)
      → IsSound r
      → is_busy r.status ≡ false
      → IsSound (start_recording can_record is_type_supported r)
  unfolding start_recording
  start-IsSound r s h =
      let (waits, stays) =
        started-IsSoundAt r.status r.start_request_id r.media_recorder r.media_stream r.live_streams
          r.asked s h in
      elim (Bool-cases can_record) [ inl e ↦ rw e waits | inr e ↦ rw e stays ]

  reset-IsSound : (r : Recorder) → IsSound r → IsSound (reset_recording r)
  unfolding reset_recording reset_recorder_refs cleanup_stream cleanup_timer is_busy
  reset-IsSound r s =
      rw
        (stop_tracks-nil r.status r.start_request_id r.media_recorder r.media_stream r.live_streams
          r.asked s)
        (settled-IsSoundAt idle (suc r.start_request_id) r.asked refl
          (has-fresh r.start_request_id r.asked s.issued)
          (issued_suc r.start_request_id r.asked s.issued))

  -- Giving up once nothing is held but what is stopped now.
  fail-IsSound :
      (p : Problem) (r : Recorder)
      → stop_tracks r.media_stream r.live_streams ≡ []
      → has r.start_request_id r.asked ≡ false
      → All (λ i. i ≤ r.start_request_id) r.asked
      → IsSound (fail p r)
  unfolding fail reset_recorder_refs cleanup_stream cleanup_timer is_busy
  fail-IsSound p r n h a = rw n (settled-IsSoundAt error r.start_request_id r.asked refl h a)

  complete-IsSound :
      (now : ℕ) (r : Recorder)
      → IsSound r
      → is_some r.media_recorder ≡ true
      → IsSound (complete now r)
  unfolding complete reset_recorder_refs cleanup_stream cleanup_timer is_busy
  complete-IsSound now r s h =
      let done : IsSoundAt idle r.start_request_id none none
          (stop_tracks r.media_stream r.live_streams) r.asked =
        rw
          (stop_tracks-nil r.status r.start_request_id r.media_recorder r.media_stream
            r.live_streams r.asked s)
          (settled-IsSoundAt idle r.start_request_id r.asked refl
            (s.waiting ∙ not_requesting r.status (sym s.has_recorder ∙ h)) s.issued) in
      elim (Bool-cases (blob_size r.chunks == 0)) [ inl e ↦ rw e done | inr e ↦ rw e done ]

  on_stop-IsSound :
      (i now : ℕ) (r : Recorder)
      → IsSound r
      → is_some r.media_recorder ≡ true
      → IsSound (on_stop i now r)
  unfolding on_stop
  on_stop-IsSound i now r s h = elim (Bool-cases (r.start_request_id == i)) [
    | inl e ↦ rw e (complete-IsSound now r s h)
    | inr e ↦ rw e s
  ]

  refuse-IsSound :
      (i : ℕ) (denied : Bool) (r : Recorder)
      → IsSound r
      → has i r.asked ≡ true
      → IsSound (refuse can_record is_type_supported i denied r)
  unfolding refuse
  refuse-IsSound i denied r s h = elim (Bool-cases (r.start_request_id == i)) [
    | inl e ↦ rw e (
        fail-IsSound (if denied then permission_denied else failed_to_start)
          (record r { asked = without i r.asked })
          (stop_tracks-nil r.status r.start_request_id r.media_recorder r.media_stream
            r.live_streams r.asked s)
          (answered r.start_request_id i r.asked e)
          (issued_without r.start_request_id i r.asked s.issued))
    | inr e ↦ rw e (
        refused-IsSoundAt r.status r.start_request_id i r.media_recorder r.media_stream
          r.live_streams r.asked s e)
  ]

  grant-IsSound :
      (i : ℕ) (begins : Bool) (now : ℕ) (r : Recorder)
      → IsSound r
      → has i r.asked ≡ true
      → IsSound (grant can_record is_type_supported i true begins now r)
  unfolding grant begin_recording
  grant-IsSound i begins now r s h = elim (Bool-cases (r.start_request_id == i)) [
    | inl e ↦ rw e (begun r s begins h e)
    | inr e ↦ rw e (
        other-IsSoundAt r.status r.start_request_id i r.media_recorder r.media_stream r.live_streams
          r.asked s e)
  ]
    where
      begun :
          (r : Recorder)
          → IsSound r
          → (begins : Bool) → has i r.asked ≡ true
          → (r.start_request_id == i) ≡ true
          → IsSound (
              begin_recording can_record is_type_supported i true begins now
                (record r { asked = without i r.asked; live_streams = i ∷ r.live_streams }))
      begun r s true h e =
          let id-i = (==_iff r.start_request_id i).0 e in
          record {
            held = ap some (sym id-i);
            has_recorder = refl;
            running = ap (λ live. i ∷ live) (none_held r i s h e).1 ∙ ap (λ j. j ∷ []) (sym id-i);
            waiting = answered r.start_request_id i r.asked e;
            issued = issued_without r.start_request_id i r.asked s.issued;
          }
      begun r s false h e =
          fail-IsSound failed_to_start
            (record r {
              asked = without i r.asked;
              live_streams = i ∷ r.live_streams;
              mime_type =
                  get_or_else (get_supported_audio_mime_type can_record is_type_supported)
                    fallback_audio_mime_type;
              media_stream = some i;
              recording_stream = some i;
              media_recorder = some false;
              chunks = [];
            })
            (only_mine i r.live_streams (none_held r i s h e).1)
            (answered r.start_request_id i r.asked e)
            (issued_without r.start_request_id i r.asked s.issued)

  step-IsSound :
      (e : Event) (r : Recorder)
      → builds_recorder e ≡ true
      → IsSound r
      → IsSound (step can_record is_type_supported e r)
  step-IsSound clicks r b s = elim (Bool-cases (is_busy r.status)) [
    | inl e ↦ rw e s
    | inr e ↦ rw e (start-IsSound r s e)
  ]
  step-IsSound resets r b s = reset-IsSound r s
  step-IsSound (granted i builds begins now) r b s = elim (Bool-cases (has i r.asked)) [
    | inl e ↦ rw b (rw e (grant-IsSound i begins now r s e))
    | inr e ↦ rw e s
  ]
  step-IsSound (refused i denied) r b s = elim (Bool-cases (has i r.asked)) [
    | inl e ↦ rw e (refuse-IsSound i denied r s e)
    | inr e ↦ rw e s
  ]
  step-IsSound (data_available i size) r b s = data-IsSound i size r s
  step-IsSound (stopped i now) r b s = elim (Bool-cases (is_some r.media_recorder)) [
    | inl e ↦ rw e (on_stop-IsSound i now r s e)
    | inr e ↦ rw e s
  ]
  step-IsSound (stops mode) r b s = stop-IsSound mode r s
  step-IsSound (ticks now) r b s = tick-IsSound now r s

  -- From a fresh recorder, whatever is clicked, granted, refused, recorded and stopped, in whatever
  -- order, with no recorder that cannot be made: the microphone is on exactly while the status says
  -- that it records, with the stream of the last request alone, and that stream is the one held.
  pub steps-IsSound :
      (es : List Event)
      → all builds_recorder es ≡ true
      → IsSound (steps can_record is_type_supported es first_recorder)
  steps-IsSound es h =
      go es first_recorder h
        (record { held = refl; has_recorder = refl; running = refl; waiting = refl; issued = tt })
    where
      go :
          (es : List Event) (r : Recorder)
          → all builds_recorder es ≡ true
          → IsSound r
          → IsSound (steps can_record is_type_supported es r)
      go [] r h s = s
      go (e ∷ es) r h s = elim (Bool-cases (builds_recorder e)) [
        | inl b ↦
            go es (step can_record is_type_supported e r)
              (ap (λ x. x && all builds_recorder es) (sym b) ∙ h) (step-IsSound e r b s)
        | inr b ↦ let q : false ≡ true = ap (λ x. x && all builds_recorder es) (sym b) ∙ h in cc
      ]
