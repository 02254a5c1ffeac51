-- ===== src/Auth/Connect.antt =====
-- web/src/connect.ts and `redirectOnAuthFailure` of web/src/utils/auth-redirect.ts: the token of a
-- request, the refresh of a token, and the interceptor that retries a request once. The servers
-- are parameters: what the n-th refresh is answered, and what a request is answered after those
-- that were sent before it, with the time that the answer takes.
pub mod Requests
pub mod Retry
mod Samples
use memos_note.Common.{
  if◌then◌else◌, Text, starts_with, ℕ, suc, ◌+◌, String, Bool, true, false, not, ◌||◌, Option, none,
  some, List, ◌∷◌, ◌++◌,
}
use memos_note.Auth.Redirect.{auth_route, is_public_route, build_auth_route}
use memos_note.Auth.Session.{
  Date, DateTexts, Session, request_token_expiry_buffer_ms, is_truthy, is_token_expired,
  has_stored_token, clear_access_token, get_access_token, set_access_token,
}

pub data Code : Type 0 where
  unauthenticated internal : Code
  another_code : ℕ → Code

pub data Error : Type 0 where
  connect_error : Code → Error
  another_error : ℕ → Error

pub data Result {ℓ} (A : Type ℓ) : Type ℓ where
  ok : A → Result A
  throw : Error → Result A

-- The answer of the refresh endpoint: an access token and perhaps a date.
pub data RefreshReply : Type 0 where
  granted : String → Option Date → RefreshReply
  refused : Error → RefreshReply

-- The headers that the interceptor reads and writes.
pub record Header : Type 0 where
  pub authorization : Option String
  pub retry : Bool

pub record Location : Type 0 where
  pub pathname : Text
  pub search : Text
  pub hash : Text

pub record World : Type 0 where
  pub session : Session
  pub now : ℕ
  pub refreshes : ℕ
  pub sent : List Header
  pub location : Location
  pub replaced : Option Text

-- What the interceptor cannot see into.
pub record Servers (Response : Type 0) : Type 0 where
  pub dates : DateTexts
  pub print_search : List (Text × Text) → Text
  pub refresh_reply : ℕ → RefreshReply
  pub refresh_time : ℕ → ℕ
  pub next : List Header → Result Response

-- `Authorization` is kept as the token behind "Bearer ".
abbrev pub set_authorization_header : Option String → Header → Header
set_authorization_header token header =
    if is_truthy token then record header { authorization = token } else header

abbrev pub should_handle_unauthenticated_retry : Error → Bool → Bool
should_handle_unauthenticated_retry (connect_error unauthenticated) is_retry_attempt =
    not is_retry_attempt
should_handle_unauthenticated_retry _ is_retry_attempt = false

module _ {Response : Type 0} (servers : Servers Response) where
  open servers use {dates, print_search, refresh_reply, refresh_time, next}

  -- `redirectOnAuthFailure()`, with no options
  unfoldable pub redirect_on_auth_failure : World → World
  redirect_on_auth_failure w =
      if starts_with (w.location).pathname auth_route || is_public_route (w.location).pathname
      then w
      else record w {
        session = clear_access_token w.session;
        replaced = some (
            build_auth_route print_search (record {
              redirect = some ((w.location).pathname ++ (w.location).search ++ (w.location).hash);
              reason = none;
            }));
      }

  grant : RefreshReply → World → World × Result (Unit {0})
  grant (refused e) w = (w, throw e)
  grant (granted token date) w =
      if is_truthy (some token)
      then (record w { session = set_access_token dates (some token) date w.session }, ok tt)
      else (w, throw (connect_error internal))

  -- `doRefreshAccessToken`
  unfoldable pub refresh_access_token : World → World × Result (Unit {0})
  unfolding grant
  refresh_access_token w =
      grant (refresh_reply w.refreshes)
        (record w { refreshes = suc w.refreshes; now = w.now + refresh_time w.refreshes })

  -- `getAccessToken()`, with what it does to the session
  abbrev pub read_token : World → World
  read_token w = record w { session = get_access_token dates w.now w.session }

  have_token : Option String → World → World × Result String
  have_token none w = (w, throw (connect_error internal))
  have_token (some token) w =
      if is_truthy (some token) then (w, ok token) else (w, throw (connect_error internal))

  unfoldable pub refresh_and_get_access_token : World → World × Result String
  unfolding refresh_access_token have_token
  refresh_and_get_access_token w =
      let (w', r) = refresh_access_token w in
      elim r [
        | throw e ↦ (w', throw e)
        | ok _ ↦ have_token ((read_token w').session).access_token (read_token w')
      ]

  -- `catch` around a refresh: the token that there was instead.
  abbrev pub token_or : Option String → World × Result String → World × Option String
  token_or old (w, ok token) = (w, some token)
  token_or old (w, throw e) = (w, old)

  unfoldable pub get_request_token : World → World × Option String
  unfolding refresh_and_get_access_token
  get_request_token w =
      let w' = read_token w in
      if is_truthy (w'.session).access_token
      then (if is_token_expired request_token_expiry_buffer_ms w'.now w'.session
          then token_or (w'.session).access_token (refresh_and_get_access_token w')
          else (w', (w'.session).access_token))
      else (if has_stored_token w'.session
          then token_or none (refresh_and_get_access_token w')
          else (w', none))

  -- `next(req)`
  abbrev pub send : Header → World → World × Result Response
  send header w = let w' = record w { sent = header ∷ w.sent } in (w', next w'.sent)

  unfoldable pub or_redirect : World × Result Response → World × Result Response
  or_redirect (w, ok response) = (w, ok response)
  or_redirect (w, throw e) = (redirect_on_auth_failure w, throw e)

  -- The retry, inside its own `try`.
  unfoldable pub retry_with : Header → World × Result String → World × Result Response
  retry_with header (w, throw e) = (redirect_on_auth_failure w, throw e)
  retry_with header (w, ok token) =
      or_redirect (send (record (set_authorization_header (some token) header) { retry = true }) w)

  unfoldable pub after_first : Header → World × Result Response → World × Result Response
  unfolding retry_with
  after_first header (w, ok response) = (w, ok response)
  after_first header (w, throw e) =
      if should_handle_unauthenticated_retry e header.retry
      then retry_with header (refresh_and_get_access_token w)
      else (w, throw e)

  unfoldable pub auth_interceptor : Header → World → World × Result Response
  unfolding after_first
  auth_interceptor header w =
      let (w', token) = get_request_token w in
      let header' = set_authorization_header token header in after_first header' (send header' w')
