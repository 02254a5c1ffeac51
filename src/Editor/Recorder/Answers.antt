-- ===== src/Editor/Recorder/Answers.antt =====
-- What the answers to a request come to that is not the last one, or whose recorder fails.
use memos_note.Common.{
  ◌==◌, if◌then◌else◌, Bool-cases, is_some, Text, ℕ, ◌≡◌, refl, ap, inl, inr, Bool, true, false,
  none, [], ◌∷◌, arith,
}
use memos_note.Editor.Recorder.{
  error, Recorder, without, stop_tracks, cleanup_timer, cleanup_stream, reset_recorder_refs,
  on_stop, on_data_available, fail, reset_recording, begin_recording, grant,
}
use memos_note.Editor.Recorder.Events.{resets, granted, data_available, stopped, has, IsSound, step}
use memos_note.Editor.Recorder.Sound.{none_held}

pub own_request : (i : ℕ) → (i == i) ≡ true
own_request i = ground arith

kept {ℓ} : {A : Type ℓ} (b : Bool) (x : A) → (if b then x else x) ≡ x
kept true x = refl
kept false x = refl

without_own :
    (r : Recorder) (i : ℕ)
    → IsSound r
    → (r.start_request_id == i) ≡ false
    → without i (i ∷ r.live_streams) ≡ r.live_streams
without_own r i s h = rw s.running (ground arith)

module _ (can_record : Bool) (is_type_supported : Text → Bool) where
  -- On a sound recorder, events of a request that is not the last one: its recorder changes nothing,
  -- its stream is stopped as it is granted, and nothing else changes but that it no longer waits.
  pub step-superseded :
      (r : Recorder) (i size now : ℕ) (builds begins : Bool)
      → IsSound r
      → (r.start_request_id == i) ≡ false
      → (step can_record is_type_supported (data_available i size) r ≡ r)
        × (step can_record is_type_supported (stopped i now) r ≡ r)
        × (step can_record is_type_supported (granted i builds begins now) r
            ≡ record r { asked = if has i r.asked then without i r.asked else r.asked })
  unfolding on_data_available on_stop grant
  step-superseded r i size now builds begins s h = (
    rw h refl,
    rw h (kept (is_some r.media_recorder) r),
    elim (Bool-cases (has i r.asked)) [
      | inl e ↦ rw e (
          rw h (
            ap (λ l. record r { asked = without i r.asked; live_streams = l })
              (without_own r i s h)))
      | inr e ↦ rw e refl
    ],
  )

  -- On a sound recorder whose last request waits: when a stream is granted and the recorder of the
  -- browser cannot be made, the status is an error and no stream is held, but the stream runs; and it
  -- runs on after a reset.
  pub grant-unbuilt :
      (r : Recorder) (i now : ℕ) (begins : Bool)
      → IsSound r
      → has i r.asked ≡ true
      → (r.start_request_id == i) ≡ true
      → let r' = step can_record is_type_supported (granted i false begins now) r in
        (r'.status ≡ error)
        × (r'.media_stream ≡ none)
        × (r'.live_streams ≡ i ∷ [])
        × ((step can_record is_type_supported resets r').live_streams ≡ i ∷ [])
  unfolding grant begin_recording fail reset_recording reset_recorder_refs cleanup_stream
      cleanup_timer stop_tracks
  grant-unbuilt r i now begins s w h =
      let (no_stream, no_live) = none_held r i s w h in
      rw w (rw h (rw no_stream (rw no_live (refl, refl, refl, refl))))
