-- ===== src/Live/Connection/Retry.antt =====
-- Trying again: the delays, and that it goes on.
use memos_note.Common.{
  leb, ◌==◌, Bool-cases, is_some, Text, ℕ, ◌≡◌, refl, ap, inl, inr, Bool, true, false, not, ◌&&◌,
  Option, none, some, List, [], ◌∷◌, arith,
}
use memos_note.Live.Stream.{ChangeEvent}
use memos_note.Live.Connection.{
  Status, connected, initial_retry_delay_ms, max_retry_delay_ms, Phase, waiting_token, fetching,
  refreshing, waiting_new_token, fetching_again, reading, waiting_timer, Live, Response, is_ok,
  Event, token_given, refreshed, refresh_failed, responded, chunk_read, failed, stream_ended,
  timer_fires, unmounts, min_delay, finish, give_up, mounting, connect, fetch_first, fetch_again,
  open_stream, accept, read_chunk, cleanup, step, run, start,
}

abbrev pub is_reading : Phase → Bool
is_reading reading = true
is_reading _ = false

abbrev pub is_waiting_timer : Phase → Bool
is_waiting_timer waiting_timer = true
is_waiting_timer _ = false

abbrev pub is_connected : Status → Bool
is_connected connected = true
is_connected _ = false

abbrev pub is_in_range : ℕ → Bool
is_in_range d = leb initial_retry_delay_ms d && leb d max_retry_delay_ms

abbrev pub in_range_if : Option ℕ → Bool
in_range_if none = true
in_range_if (some d) = is_in_range d

-- The delays stay between the first and the longest; a timer is set exactly while one is waited
-- for, which is only while the effect is mounted; and while it is, the status is connected exactly
-- while the stream is read.
pub record IsSound (l : Live) : Type 0 where
  pub delay : is_in_range l.retry_delay ≡ true
  pub timer : is_some l.retry_timeout ≡ is_waiting_timer l.phase
  pub timer_delay : in_range_if l.retry_timeout ≡ true
  pub timer_mounted : (is_waiting_timer l.phase && not l.mounted) ≡ false
  pub reads : (l.mounted && not (is_connected l.status)) ≡ (l.mounted && not (is_reading l.phase))

finish-IsSound :
    (l : Live) → is_in_range l.retry_delay ≡ true → l.retry_timeout ≡ none → IsSound (finish l)
unfolding finish min_delay
finish-IsSound l h n = ground (arith)

give_up-IsSound :
    (aborted : Bool) (l : Live)
    → is_in_range l.retry_delay ≡ true
    → l.retry_timeout ≡ none
    → IsSound (give_up aborted l)
unfolding give_up
give_up-IsSound false l h n = finish-IsSound l h n
give_up-IsSound true l h n = ground arith

-- What is waited for is no timer.
no_timer : (l : Live) → IsSound l → is_waiting_timer l.phase ≡ false → l.retry_timeout ≡ none
no_timer l s h = ground (arith, s.timer)

module _ (parse : Text → Option ChangeEvent) (current_user_name : Option Text) where
  connect-IsSound :
      (l : Live)
      → is_in_range l.retry_delay ≡ true
      → l.retry_timeout ≡ none
      → (l.mounted && is_connected l.status) ≡ false
      → IsSound (connect parse current_user_name l)
  unfolding connect
  connect-IsSound l h n d = ground arith

  open_stream-IsSound :
      (l : Live)
      → is_in_range l.retry_delay ≡ true
      → l.retry_timeout ≡ none
      → IsSound (open_stream parse current_user_name l)
  unfolding open_stream finish min_delay
  open_stream-IsSound l h n = ground arith

  accept-IsSound :
      (r : Response) (l : Live)
      → is_in_range l.retry_delay ≡ true
      → l.retry_timeout ≡ none
      → IsSound (accept parse current_user_name r l)
  unfolding accept
  accept-IsSound r l h n = elim (Bool-cases (is_ok r && r.has_body)) [
    | inl e ↦ rw e (open_stream-IsSound l h n)
    | inr e ↦ rw e (finish-IsSound l h n)
  ]

  step-IsSound :
      (p : Phase) (e : Event) (l : Live)
      → l.phase ≡ p
      → IsSound l
      → IsSound (step parse current_user_name p e l)
  unfolding step fetch_first fetch_again read_chunk cleanup
  step-IsSound waiting_token (token_given token) l h s = (ground (arith, h))
  step-IsSound fetching (responded r) l h s = elim (Bool-cases (r.status == 401)) [
    | inl e ↦ rw e (ground (arith, h))
    | inr e ↦ rw e (accept-IsSound r l s.delay (no_timer l s (ap is_waiting_timer h)))
  ]
  step-IsSound fetching (failed aborted) l h s =
      give_up-IsSound aborted l s.delay (no_timer l s (ap is_waiting_timer h))
  step-IsSound refreshing refreshed l h s = (ground (arith, h))
  step-IsSound refreshing refresh_failed l h s =
      finish-IsSound l s.delay (no_timer l s (ap is_waiting_timer h))
  step-IsSound waiting_new_token (token_given token) l h s = (ground (arith, h))
  step-IsSound fetching_again (responded r) l h s =
      accept-IsSound r l s.delay (no_timer l s (ap is_waiting_timer h))
  step-IsSound fetching_again (failed aborted) l h s =
      give_up-IsSound aborted l s.delay (no_timer l s (ap is_waiting_timer h))
  step-IsSound reading (chunk_read chunk) l h s = elim (Bool-cases l.mounted) [
    | inl m ↦ rw m (ground (arith, h))
    | inr m ↦ rw m (ground (arith, h))
  ]
  step-IsSound reading stream_ended l h s =
      finish-IsSound l s.delay (no_timer l s (ap is_waiting_timer h))
  step-IsSound reading (failed aborted) l h s =
      give_up-IsSound aborted l s.delay (no_timer l s (ap is_waiting_timer h))
  step-IsSound waiting_timer timer_fires l h s =
      connect-IsSound (record l { retry_timeout = none }) s.delay refl (ground (arith, h))
  step-IsSound p unmounts l h s = ground (arith, h)
  step-IsSound p e l h s = s

  -- From the start of the effect, whatever is given, answered, read, failed, waited for and cleaned up:
  -- the delays stay between one second and thirty; a timer is set exactly while one is waited for,
  -- and never after the clean-up; and while the effect is mounted the status is connected exactly
  -- while the stream is read.
  pub run-IsSound :
      (es : List Event) → IsSound (run parse current_user_name es (start parse current_user_name))
  unfolding connect
  run-IsSound es = go es (start parse current_user_name) (connect-IsSound mounting refl refl refl)
    where
      go : (es : List Event) (l : Live) → IsSound l → IsSound (run parse current_user_name es l)
      go [] l s = s
      go (e ∷ es) l s = go es _ (step-IsSound l.phase e l refl s)
