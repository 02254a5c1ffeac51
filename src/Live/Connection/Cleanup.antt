-- ===== src/Live/Connection/Cleanup.antt =====
-- After the clean-up of the effect.
use memos_note.Common.{
  Text, ℕ, ◌≡◌, refl, Bool, true, false, Option, none, some, List, [], ◌∷◌, arith,
}
use memos_note.Live.Connection.{
  disconnected, connecting, initial_retry_delay_ms, Phase, waiting_token, Live, Event, token_given,
  unmounts, finish, give_up, fetch_first, fetch_again, open_stream, accept, read_chunk, cleanup,
  step, run,
}
use memos_note.Live.Stream.{ChangeEvent}
use memos_note.Live.Connection.Retry.{is_waiting_timer}

abbrev pub is_waiting_token : Phase → Bool
is_waiting_token waiting_token = true
is_waiting_token _ = false

-- What holds from the clean-up on, if `connect` did not wait for its first token.
record IsOver (l : Live) : Type 0 where
  unmounted : l.mounted ≡ false
  off : l.status ≡ disconnected
  no_timer : l.retry_timeout ≡ none
  first_delay : l.retry_delay ≡ initial_retry_delay_ms
  no_token : is_waiting_token l.phase ≡ false
  no_wait : is_waiting_timer l.phase ≡ false

module _ (parse : Text → Option ChangeEvent) (current_user_name : Option Text) where
  cleanup-IsOver :
      (p : Phase) (l : Live)
      → l.phase ≡ p
      → is_waiting_token p ≡ false
      → IsOver (step parse current_user_name p unmounts l)
  unfolding step cleanup
  cleanup-IsOver p l h n = ground (arith, h)

  step-IsOver :
      (p : Phase) (e : Event) (l : Live)
      → l.phase ≡ p
      → IsOver l
      → IsOver (step parse current_user_name p e l)
  unfolding step cleanup finish fetch_again accept open_stream give_up read_chunk
  step-IsOver p e l h o =
      ground (arith, h, o.unmounted, o.off, o.no_timer, o.first_delay, o.no_token, o.no_wait)

  -- After the clean-up in any state but one where `connect` waits for its first token, whatever comes:
  -- the status is disconnected, no timer is set, and the delay is the first one again.
  pub run-unmounts :
      (es : List Event) (l : Live)
      → is_waiting_token l.phase ≡ false
      → let l' = run parse current_user_name (unmounts ∷ es) l in
        (l'.status ≡ disconnected)
        × (l'.retry_timeout ≡ none)
        × (l'.retry_delay ≡ initial_retry_delay_ms)
  run-unmounts es l n = go es _ (cleanup-IsOver l.phase l refl n)
    where
      go :
          (es : List Event) (l : Live)
          → IsOver l
          → let l' = run parse current_user_name es l in
            (l'.status ≡ disconnected)
            × (l'.retry_timeout ≡ none)
            × (l'.retry_delay ≡ initial_retry_delay_ms)
      go [] l o = (o.off, o.no_timer, o.first_delay)
      go (e ∷ es) l o = go es _ (step-IsOver l.phase e l refl o)

  -- After the clean-up in a state where `connect` waits for its first token, when that is given: the
  -- status is set to connecting and a request is sent, though the effect is not mounted.
  pub run-unmounts_waiting :
      (c : ℕ) (s : Text) (l : Live)
      → l.phase ≡ waiting_token
      → let l' = run parse current_user_name (unmounts ∷ token_given (some (c ∷ s)) ∷ []) l in
        (l'.mounted ≡ false) × (l'.status ≡ connecting) × (l'.fetches ≡ (c ∷ s) ∷ l.fetches)
  unfolding step cleanup fetch_first
  run-unmounts_waiting c s l h = ground (arith, h)
