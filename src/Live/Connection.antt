-- ===== src/Live/Connection.antt =====
-- The connection: the effect of `useLiveMemoRefresh` in web/src/hooks/useLiveMemoRefresh.ts for one
-- user. One `connect` runs at a time; each event is what one of its `await`s comes to, the timer for
-- the next attempt, or the clean-up of the effect. The requests and the calls on the cache are
-- recorded; `JSON.parse` is a parameter.
pub mod Retry
pub mod Liveness
pub mod Reading
pub mod Cleanup
mod Samples
use memos_note.Common.{
  leb, ◌==◌, if◌then◌else◌, is_some, Text, ℕ, ◌*◌, Bool, true, false, ◌&&◌, Option, none, some,
  List, [], ◌∷◌, ◌++◌,
}
use memos_note.Live.Stream.{receive, ChangeEvent, events_of_messages}
use memos_note.Live.Events.{all_memos, user_stats, CacheCall, invalidate_active, handle_sse_events}

pub data Status : Type 0 where
  connected disconnected connecting : Status

abbrev pub initial_retry_delay_ms : ℕ
initial_retry_delay_ms = 1000

abbrev pub max_retry_delay_ms : ℕ
max_retry_delay_ms = 30000

abbrev pub retry_backoff_multiplier : ℕ
retry_backoff_multiplier = 2

-- Where `connect` waits; `ended` when it has returned and set no timer.
pub data Phase : Type 0 where
  waiting_token fetching refreshing waiting_new_token fetching_again reading waiting_timer ended :
      Phase

pub record Live : Type 0 where
  pub mounted : Bool
  pub status : Status
  pub retry_delay : ℕ
  pub has_connected_once : Bool
  pub retry_timeout : Option ℕ
  pub phase : Phase
  pub buffer : Text
  pub calls : List CacheCall
  pub fetches : List Text

-- The answer of the server to the request for the stream.
pub record Response : Type 0 where
  pub status : ℕ
  pub has_body : Bool

-- `response.ok`
abbrev pub is_ok : Response → Bool
is_ok r = leb 200 r.status && leb r.status 299

pub data Event : Type 0 where
  token_given : Option Text → Event
  refreshed refresh_failed : Event
  responded : Response → Event
  chunk_read : Text → Event
  -- `true` for an abort.
  failed : Bool → Event
  stream_ended timer_fires unmounts : Event

unfoldable pub min_delay : ℕ → ℕ
min_delay d = if leb d max_retry_delay_ms then d else max_retry_delay_ms

-- What follows the `try`.
unfoldable pub finish : Live → Live
unfolding min_delay
finish l =
    if l.mounted
    then record l {
      status = disconnected;
      retry_delay = min_delay (l.retry_delay * retry_backoff_multiplier);
      retry_timeout = some l.retry_delay;
      phase = waiting_timer;
    }
    else record l { status = disconnected; phase = ended }

-- An abort is not tried again.
unfoldable pub give_up : Bool → Live → Live
unfolding finish
give_up aborted l = if aborted then record l { status = disconnected; phase = ended } else finish l

-- `if (!token)`: an empty token is falsy.
abbrev pub truthy : Option Text → Option Text
truthy none = none
truthy (some []) = none
truthy (some (c ∷ s)) = some (c ∷ s)

-- The effect is mounted. The delay is that of the hook, which the last clean-up has reset.
abbrev pub mounting : Live
mounting = record {
  mounted = true;
  status = disconnected;
  retry_delay = initial_retry_delay_ms;
  has_connected_once = false;
  retry_timeout = none;
  phase = ended;
  buffer = [];
  calls = [];
  fetches = [];
}

module _ (parse : Text → Option ChangeEvent) (current_user_name : Option Text) where
  -- `connect` up to its first `await`.
  unfoldable pub connect : Live → Live
  connect l =
      if l.mounted
      then (if is_some (truthy current_user_name)
          then record l { phase = waiting_token }
          else record l { status = disconnected; phase = ended })
      else record l { phase = ended }

  unfoldable pub fetch_first : Option Text → Live → Live
  fetch_first none l = record l { status = disconnected; phase = ended }
  fetch_first (some token) l = record l {
    status = connecting;
    phase = fetching;
    fetches = token ∷ l.fetches;
  }

  unfoldable pub fetch_again : Option Text → Live → Live
  unfolding finish
  fetch_again none l = finish l
  fetch_again (some token) l = record l { phase = fetching_again; fetches = token ∷ l.fetches }

  -- The reading begins, unless the effect was cleaned up.
  unfoldable pub open_stream : Live → Live
  unfolding finish
  open_stream l =
      let opened = record l {
        retry_delay = initial_retry_delay_ms;
        status = connected;
        has_connected_once = true;
        calls =
            if l.has_connected_once
            then l.calls ++ (invalidate_active all_memos ∷ invalidate_active user_stats ∷ [])
            else l.calls;
        buffer = [];
        phase = reading;
      } in
      if l.mounted then opened else finish opened

  unfoldable pub accept : Response → Live → Live
  unfolding open_stream finish
  accept r l = if is_ok r && r.has_body then open_stream l else finish l

  -- A chunk, and the test of the loop.
  unfoldable pub read_chunk : Text → Live → Live
  unfolding finish
  read_chunk chunk l =
      let (messages, buffer') = receive chunk l.buffer in
      let l' = record l {
        buffer = buffer';
        calls = l.calls ++ handle_sse_events (events_of_messages parse messages);
      } in
      if l.mounted then l' else finish l'

  unfoldable pub cleanup : Live → Live
  cleanup l = record l {
    mounted = false;
    status = disconnected;
    retry_delay = initial_retry_delay_ms;
    retry_timeout = none;
    phase = elim l.phase [ waiting_timer ↦ ended | p ↦ p ];
  }

  -- An event that does not fit what `connect` waits for does not happen.
  unfoldable pub step : Phase → Event → Live → Live
  unfolding connect fetch_first fetch_again accept read_chunk cleanup give_up finish
  step waiting_token (token_given token) l = fetch_first (truthy token) l
  step fetching (responded r) l =
      if r.status == 401 then record l { phase = refreshing } else accept r l
  step fetching (failed aborted) l = give_up aborted l
  step refreshing refreshed l = record l { phase = waiting_new_token }
  step refreshing refresh_failed l = finish l
  step waiting_new_token (token_given token) l = fetch_again (truthy token) l
  step fetching_again (responded r) l = accept r l
  step fetching_again (failed aborted) l = give_up aborted l
  step reading (chunk_read chunk) l = read_chunk chunk l
  step reading stream_ended l = finish l
  step reading (failed aborted) l = give_up aborted l
  step waiting_timer timer_fires l = connect (record l { retry_timeout = none })
  step p unmounts l = cleanup l
  step p e l = l

  abbrev pub run : List Event → Live → Live
  run [] l = l
  run (e ∷ es) l = run es (step l.phase e l)

  abbrev pub start : Live
  start = connect mounting
