-- ===== src/Editor/Recorder/Sound.antt =====
-- What an answer, a start and a clean-up do to the parts of a sound recorder.
use memos_note.Common.{
  leb, ◌==◌, if◌then◌else◌, ==_iff, Bool-cases, is_some, All, ℕ, zero, suc, ◌-◌, ◌/◌, ◌≤◌, ◌≡◌,
  refl, sym, ap, ◌∙◌, inl, inr, Bool, true, false, not, ◌&&◌, Option, none, some, List, [], ◌∷◌,
  arith,
}
use memos_note.Editor.Recorder.{
  Status, idle, requesting_permission, recording, error, unsupported, CompleteMode, Recorder,
  without, stop_tracks, cleanup_timer, is_busy, on_data_available, stop_active, stop_recording,
  tick,
}
use memos_note.Editor.Recorder.Events.{is_recording, is_requesting, has, IsSoundAt, IsSound}

pub has-fresh : (n : ℕ) (is : List ℕ) → All (λ i. i ≤ n) is → has (suc n) is ≡ false
has-fresh n [] h = refl
has-fresh n (i ∷ is) (h, hs) = ground (arith, has-fresh n is hs)

pub issued_suc : (n : ℕ) (is : List ℕ) → All (λ i. i ≤ n) is → All (λ i. i ≤ suc n) is
issued_suc n [] h = tt
issued_suc n (i ∷ is) (h, hs) = (omega arith, issued_suc n is hs)

pub issued_without : (n i : ℕ) (is : List ℕ) → All (λ j. j ≤ n) is → All (λ j. j ≤ n) (without i is)
issued_without n i [] h = tt
issued_without n i (j ∷ is) (h, hs) = ground (arith, issued_without n i is hs)

pub has-without : (n i : ℕ) (is : List ℕ) → has n (without i is) ≡ (has n is && not (n == i))
has-without n i [] = refl
has-without n i (j ∷ is) = ground (arith, has-without n i is)

-- A request that is answered and is not the last one.
pub other-IsSoundAt :
    (status : Status) (id i : ℕ) (recorder : Option Bool) (stream : Option ℕ) (live asked : List ℕ)
    → IsSoundAt status id recorder stream live asked
    → (id == i) ≡ false
    → IsSoundAt status id recorder stream (without i (i ∷ live)) (without i asked)
other-IsSoundAt status id i recorder stream live asked s h = record {
  held = s.held;
  has_recorder = s.has_recorder;
  running = rw s.running (ground arith);
  waiting = rw (has-without id i asked) (rw s.waiting (rw h (ground arith)));
  issued = issued_without id i asked s.issued;
}

pub refused-IsSoundAt :
    (status : Status) (id i : ℕ) (recorder : Option Bool) (stream : Option ℕ) (live asked : List ℕ)
    → IsSoundAt status id recorder stream live asked
    → (id == i) ≡ false
    → IsSoundAt status id recorder stream live (without i asked)
refused-IsSoundAt status id i recorder stream live asked s h = record {
  held = s.held;
  has_recorder = s.has_recorder;
  running = s.running;
  waiting = rw (has-without id i asked) (rw s.waiting (rw h (ground arith)));
  issued = issued_without id i asked s.issued;
}

pub answered : (id i : ℕ) (asked : List ℕ) → (id == i) ≡ true → has id (without i asked) ≡ false
answered id i asked h = rw (has-without id i asked) (rw h (ground arith))

pub not_requesting : (status : Status) → is_recording status ≡ true → is_requesting status ≡ false
not_requesting recording h = refl
not_requesting idle h = refl
not_requesting error h = refl
not_requesting unsupported h = refl
not_requesting requesting_permission h = cc

pub not_recording : (status : Status) → is_requesting status ≡ true → is_recording status ≡ false
not_recording recording h = cc
not_recording idle h = refl
not_recording error h = refl
not_recording unsupported h = refl
not_recording requesting_permission h = refl

-- Nothing is held and nothing runs, and the last request does not wait.
pub settled-IsSoundAt :
    (status : Status) (id : ℕ) (asked : List ℕ)
    → is_busy status ≡ false
    → has id asked ≡ false
    → All (λ i. i ≤ id) asked
    → IsSoundAt status id none none [] asked
unfolding is_busy
settled-IsSoundAt idle id asked h k a = record {
  held = refl;
  has_recorder = refl;
  running = refl;
  waiting = k;
  issued = a;
}
settled-IsSoundAt error id asked h k a = record {
  held = refl;
  has_recorder = refl;
  running = refl;
  waiting = k;
  issued = a;
}
settled-IsSoundAt unsupported id asked h k a = record {
  held = refl;
  has_recorder = refl;
  running = refl;
  waiting = k;
  issued = a;
}
settled-IsSoundAt recording id asked h k a = cc
settled-IsSoundAt requesting_permission id asked h k a = cc

pub started-IsSoundAt :
    (status : Status) (id : ℕ) (recorder : Option Bool) (stream : Option ℕ) (live asked : List ℕ)
    → IsSoundAt status id recorder stream live asked
    → is_busy status ≡ false
    → IsSoundAt requesting_permission (suc id) recorder stream live (suc id ∷ asked)
      × IsSoundAt unsupported (suc id) recorder stream live asked
unfolding is_busy
started-IsSoundAt status id recorder stream live asked s h =
    let idle : is_recording status ≡ false = ground arith in
    let none_held : stream ≡ none = s.held ∙ rw idle refl in
    let none_made : is_some recorder ≡ false = s.has_recorder ∙ idle in
    let none_runs : live ≡ [] = s.running ∙ rw idle refl in
    (
      record {
        held = none_held;
        has_recorder = none_made;
        running = none_runs;
        waiting = ground arith;
        issued = (omega arith, issued_suc id asked s.issued);
      },
      record {
        held = none_held;
        has_recorder = none_made;
        running = none_runs;
        waiting = has-fresh id asked s.issued;
        issued = issued_suc id asked s.issued;
      },
    )

pub stop_tracks-nil :
    (status : Status) (id : ℕ) (recorder : Option Bool) (stream : Option ℕ) (live asked : List ℕ)
    → IsSoundAt status id recorder stream live asked
    → stop_tracks stream live ≡ []
unfolding stop_tracks
stop_tracks-nil status id recorder stream live asked s = elim (Bool-cases (is_recording status)) [
  | inl h ↦ rw s.held (rw s.running (rw h (ground arith)))
  | inr h ↦ rw s.held (rw s.running (rw h refl))
]

pub only_mine : (i : ℕ) (live : List ℕ) → live ≡ [] → stop_tracks (some i) (i ∷ live) ≡ []
unfolding stop_tracks
only_mine i live h = rw h (ground arith)

-- While the last request waits nothing is held and nothing runs.
pub none_held :
    (r : Recorder) (i : ℕ)
    → IsSound r
    → has i r.asked ≡ true
    → (r.start_request_id == i) ≡ true
    → (r.media_stream ≡ none) × (r.live_streams ≡ [])
none_held r i s h e =
    let id-i = (==_iff r.start_request_id i).0 e in
    let waits : has r.start_request_id r.asked ≡ true = ap (λ j. has j r.asked) id-i ∙ h in
    let off = not_recording r.status (sym s.waiting ∙ waits) in
    (s.held ∙ rw off refl, s.running ∙ rw off refl)

pub data-IsSound : (i size : ℕ) (r : Recorder) → IsSound r → IsSound (on_data_available i size r)
unfolding on_data_available
data-IsSound i size r s = elim (Bool-cases ((r.start_request_id == i) && leb 1 size)) [
  | inl e ↦ rw e s
  | inr e ↦ rw e s
]

pub tick-IsSound : (now : ℕ) (r : Recorder) → IsSound r → IsSound (tick now r)
unfolding tick
tick-IsSound now r s = go r.started_at
  where
    go :
        (o : Option ℕ)
        → IsSound (elim o [
          | none ↦ r
          | some zero ↦ r
          | some (suc ms) ↦
              if r.timer_runs then record r { elapsed_seconds = (now - suc ms) / 1000 } else r
        ])
    go none = s
    go (some zero) = s
    go (some (suc ms)) = elim (Bool-cases r.timer_runs) [ inl e ↦ rw e s | inr e ↦ rw e s ]

pub stop-IsSound :
    (mode : CompleteMode) (r : Recorder) → IsSound r → IsSound (stop_recording mode r).0
unfolding stop_recording stop_active cleanup_timer
stop-IsSound mode r s = go r.media_recorder s.has_recorder
  where
    go : (o : Option Bool) → is_some o ≡ is_recording r.status → IsSound (stop_active o mode r).0
    go none h = s
    go (some false) h = s
    go (some true) h = record {
      held = s.held;
      has_recorder = h;
      running = s.running;
      waiting = s.waiting;
      issued = s.issued;
    }
