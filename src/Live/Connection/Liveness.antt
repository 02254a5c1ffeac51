-- ===== src/Live/Connection/Liveness.antt =====
-- The connection goes on being tried, with longer and longer delays, and can be had again.
use memos_note.Common.{
  Bool-cases, is_some, all, Text, ℕ, zero, suc, ◌*◌, ◌≡◌, refl, sym, ap, ◌∙◌, inl, inr, Bool, true,
  false, not, ◌&&◌, Option, some, List, [], ◌∷◌, ◌++◌, arith,
}
use memos_note.Live.Stream.{ChangeEvent}
use memos_note.Live.Connection.{
  connected, retry_backoff_multiplier, Phase, waiting_token, fetching, refreshing,
  waiting_new_token, fetching_again, reading, waiting_timer, ended, Live, Event, token_given,
  refreshed, responded, failed, timer_fires, unmounts, min_delay, finish, give_up, truthy, connect,
  fetch_first, fetch_again, open_stream, accept, read_chunk, step, run, start,
}
use memos_note.Live.Connection.Retry.{IsSound, run-IsSound}

abbrev pub power : ℕ → ℕ
power zero = 1
power (suc n) = 2 * power n

-- Some attempts that fail, each up to the next one.
abbrev pub failures : ℕ → Text → List Event
failures zero token = []
failures (suc n) token = token_given (some token) ∷ failed false ∷ timer_fires ∷ failures n token

-- An event after which the connection is tried on.
abbrev pub goes_on : Event → Bool
goes_on (token_given token) = is_some (truthy token)
goes_on (failed aborted) = not aborted
goes_on unmounts = false
goes_on _ = true

abbrev pub is_ended : Phase → Bool
is_ended ended = true
is_ended _ = false

-- What brings the connection back.
abbrev pub recovery : Text → Phase → List Event
recovery token waiting_token =
    token_given (some token) ∷ responded (record { status = 200; has_body = true }) ∷ []
recovery token fetching = responded (record { status = 200; has_body = true }) ∷ []
recovery token refreshing =
    refreshed ∷ token_given (some token) ∷ responded (record { status = 200; has_body = true }) ∷ []
recovery token waiting_new_token =
    token_given (some token) ∷ responded (record { status = 200; has_body = true }) ∷ []
recovery token fetching_again = responded (record { status = 200; has_body = true }) ∷ []
recovery token reading = []
recovery token waiting_timer =
    timer_fires
    ∷ token_given (some token)
    ∷ responded (record { status = 200; has_body = true })
    ∷ []
recovery token ended = []

min_delay-doubled : (d : ℕ) → min_delay (min_delay d * retry_backoff_multiplier) ≡ min_delay (2 * d)
unfolding min_delay
min_delay-doubled d = ground arith

module _ (parse : Text → Option ChangeEvent) (current_user_name : Option Text) where
  live_on :
      (p : Phase) (e : Event) (l : Live)
      → l.phase ≡ p
      → is_some (truthy current_user_name) ≡ true
      → goes_on e ≡ true
      → l.mounted ≡ true
      → is_ended l.phase ≡ false
      → ((step parse current_user_name p e l).mounted ≡ true)
        × (is_ended (step parse current_user_name p e l).phase ≡ false)
  unfolding step connect finish fetch_first fetch_again read_chunk accept open_stream give_up
  live_on waiting_token unmounts l h u g m k = cc
  live_on p e l h u g m k = ground (arith, h)

  recovers :
      (p : Phase) (c : ℕ) (s : Text) (l : Live)
      → l.phase ≡ p
      → is_some (truthy current_user_name) ≡ true
      → l.mounted ≡ true
      → is_ended p ≡ false
      → IsSound l
      → let l' = run parse current_user_name (recovery (c ∷ s) p) l in
        (l'.phase ≡ reading) × (l'.status ≡ connected)
  unfolding step connect finish fetch_first fetch_again read_chunk accept open_stream
  recovers waiting_token c s l h u m k w = ground (arith, h)
  recovers reading c s l h u m k w = ground (arith, h, w.reads)
  recovers p c s l h u m k w = ground (arith, h)

  stays_alive :
      (es : List Event) (l : Live)
      → is_some (truthy current_user_name) ≡ true
      → all goes_on es ≡ true
      → l.mounted ≡ true
      → is_ended l.phase ≡ false
      → ((run parse current_user_name es l).mounted ≡ true)
        × (is_ended (run parse current_user_name es l).phase ≡ false)
  stays_alive [] l u g m k = (m, k)
  stays_alive (e ∷ es) l u g m k = elim (Bool-cases (goes_on e)) [
    | inl h ↦
        let (m', k') = live_on l.phase e l refl u h m k in
        stays_alive es _ u (ap (λ b. b && all goes_on es) (sym h) ∙ g) m' k'
    | inr h ↦ let q : false ≡ true = ap (λ b. b && all goes_on es) (sym h) ∙ g in cc
  ]

  starts :
      is_some (truthy current_user_name) ≡ true
      → ((start parse current_user_name).mounted ≡ true)
        × (is_ended (start parse current_user_name).phase ≡ false)
  unfolding connect
  starts u = ground arith

  starts_waiting :
      is_some (truthy current_user_name) ≡ true
      → ((start parse current_user_name).phase ≡ waiting_token)
        × ((start parse current_user_name).mounted ≡ true)
        × ((start parse current_user_name).retry_delay ≡ 1000)
  unfolding connect
  starts_waiting u = ground arith

  -- For a signed-in user, after any events with no missing token, no abort and no clean-up, failures
  -- of every other kind among them: three events at most bring the connection back, if the next
  -- request for the stream is answered; `connect` never returns without another attempt to come.
  pub run-recovery :
      (es : List Event) (c : ℕ) (s : Text)
      → is_some (truthy current_user_name) ≡ true
      → all goes_on es ≡ true
      → let l = run parse current_user_name es (start parse current_user_name) in
        let l' = run parse current_user_name (recovery (c ∷ s) l.phase) l in
        (l'.phase ≡ reading) × (l'.status ≡ connected)
  run-recovery es c s u g =
      let (m, k) = stays_alive es (start parse current_user_name) u g (starts u).0 (starts u).1 in
      recovers (run parse current_user_name es (start parse current_user_name)).phase c s _ refl u m
        k (run-IsSound parse current_user_name es)

  failing :
      (c : ℕ) (s : Text) (l : Live)
      → is_some (truthy current_user_name) ≡ true
      → l.phase ≡ waiting_token
      → l.mounted ≡ true
      → let l' = run parse current_user_name (failures 1 (c ∷ s)) l in
        (l'.phase ≡ waiting_token)
        × (l'.mounted ≡ true)
        × (l'.retry_delay ≡ min_delay (l.retry_delay * retry_backoff_multiplier))
  unfolding step connect finish fetch_first give_up
  failing c s l u h m = ground (arith, h)

  set_delay : (c : ℕ) (s : Text) → ℕ → Live → Option ℕ
  set_delay c s n l =
      (run parse current_user_name
        (failures n (c ∷ s) ++ (token_given (some (c ∷ s)) ∷ failed false ∷ [])) l).retry_timeout

  -- The delay that is set after some failures and one more, from where the delay is known.
  delay_after :
      (n : ℕ) (c : ℕ) (s : Text) (d : ℕ) (l : Live)
      → is_some (truthy current_user_name) ≡ true
      → l.phase ≡ waiting_token
      → l.mounted ≡ true
      → l.retry_delay ≡ min_delay d
      → set_delay c s n l ≡ some (min_delay (d * power n))
  unfolding set_delay step finish fetch_first give_up
  delay_after zero c s d l u h m e = rw h (rw m (ap some (e ∙ ap min_delay (times_one d))))
    where
      times_one : (d : ℕ) → d ≡ d * 1
      times_one d = omega arith
  delay_after (suc n) c s d l u h m e =
      let (h', m', e') = failing c s l u h m in
      delay_after n c s (2 * d) (run parse current_user_name (failures 1 (c ∷ s)) l) u h' m'
        (e' ∙ (ap (λ x. min_delay (x * retry_backoff_multiplier)) e ∙ min_delay-doubled d))
      ∙ ap (λ x. some (min_delay x)) (regroup d (power n))
    where
      regroup : (d p : ℕ) → 2 * d * p ≡ d * (2 * p)
      regroup d p = grind arith

  -- For a signed-in user, after any number of requests that fail one after another from the start and
  -- one more: the next attempt is set for a second, doubled as often as there were failures before,
  -- but for no more than half a minute.
  pub failures-min_delay :
      (n : ℕ) (c : ℕ) (s : Text)
      → is_some (truthy current_user_name) ≡ true
      → (run parse current_user_name
          (failures n (c ∷ s) ++ (token_given (some (c ∷ s)) ∷ failed false ∷ []))
          (start parse current_user_name)).retry_timeout
        ≡ some (min_delay (1000 * power n))
  unfolding min_delay set_delay
  failures-min_delay n c s u =
      let (h, m, e) = starts_waiting u in
      delay_after n c s 1000 (start parse current_user_name) u h m e
