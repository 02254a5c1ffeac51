-- ===== src/Auth/Connect/Requests.antt =====
-- The token of a request.
use memos_note.Common.{
  if◌then◌else◌, suc, ◌+◌, String, ◌≡◌, Bool, true, not, ◌&&◌, ◌||◌, Option, none, some, arith,
}
use memos_note.Auth.Session.{
  Date, Session, request_token_expiry_buffer_ms, is_truthy, is_token_expired, has_stored_token,
  get_access_token, set_access_token,
}
use memos_note.Auth.Session.Laws.{access_token-set_access_token, get_access_token_of_truthy}
use memos_note.Auth.Connect.{
  Error, ok, throw, granted, refused, World, Servers, read_token, refresh_and_get_access_token,
  get_request_token,
}

module _ {Response : Type 0} (servers : Servers Response) where
  open servers use {dates, refresh_reply, refresh_time}

  pub refresh_and_get_access_token-granted :
      (w : World) (token : String) (date : Option Date)
      → refresh_reply w.refreshes ≡ granted token date
      → is_truthy (some token) ≡ true
      → refresh_and_get_access_token servers w ≡ (
        record w {
          session = set_access_token dates (some token) date w.session;
          refreshes = suc w.refreshes;
          now = w.now + refresh_time w.refreshes;
        },
        ok token,
      )
  unfolding refresh_and_get_access_token
  refresh_and_get_access_token-granted w token date reply h = ground (
    arith,
    access_token-set_access_token dates token date w.session,
    get_access_token_of_truthy dates (w.now + refresh_time w.refreshes)
        (set_access_token dates (some token) date w.session),
  )

  pub refresh_and_get_access_token-refused :
      (w : World) (e : Error)
      → refresh_reply w.refreshes ≡ refused e
      → refresh_and_get_access_token servers w ≡ (
        record w { refreshes = suc w.refreshes; now = w.now + refresh_time w.refreshes },
        throw e,
      )
  unfolding refresh_and_get_access_token
  refresh_and_get_access_token-refused w e reply = ground arith

  -- A refresh sends one request to the refresh endpoint, and does not touch what was sent or where
  -- the page is.
  pub refresh_and_get_access_token-counts :
      (w : World)
      → let w' = (refresh_and_get_access_token servers w).0 in
        (w'.refreshes ≡ suc w.refreshes)
        × (w'.sent ≡ w.sent)
        × (w'.replaced ≡ w.replaced)
        × (w'.location ≡ w.location)
  unfolding refresh_and_get_access_token
  refresh_and_get_access_token-counts w = ground arith

  -- Whether a request asks for a refresh before it is sent: a token was stored or is in memory, and
  -- there is none that lasts longer than the buffer.
  unfoldable pub needs_refresh : World → Bool
  needs_refresh w =
      let s = (read_token servers w).session in
      has_stored_token s
      && (not (is_truthy s.access_token) || is_token_expired request_token_expiry_buffer_ms w.now s)

  truthy_stored : (s : Session) → is_truthy s.access_token ≡ true → has_stored_token s ≡ true
  unfolding has_stored_token
  truthy_stored s h = ground arith

  -- Before a request at most one refresh is asked for, exactly when it is needed, and nothing is
  -- sent to the service itself, nor does the page change.
  pub get_request_token_lem :
      (w : World)
      → let (w', token) = get_request_token servers w in
        (w'.refreshes ≡ (if needs_refresh w then suc w.refreshes else w.refreshes))
        × (w'.sent ≡ w.sent)
        × (w'.replaced ≡ w.replaced)
        × (w'.location ≡ w.location)
  unfolding get_request_token needs_refresh
  get_request_token_lem w = ground (
    arith,
    refresh_and_get_access_token-counts (read_token servers w),
    truthy_stored (get_access_token dates w.now w.session),
  )

  -- When a refresh is needed and granted, the request goes out with the new token.
  pub get_request_token-granted :
      (w : World) (token : String) (date : Option Date)
      → needs_refresh w ≡ true
      → refresh_reply w.refreshes ≡ granted token date
      → is_truthy (some token) ≡ true
      → (get_request_token servers w).1 ≡ some token
  unfolding get_request_token needs_refresh
  get_request_token-granted w token date needed reply h = ground (
    arith,
    refresh_and_get_access_token-granted (read_token servers w) token date,
    truthy_stored (get_access_token dates w.now w.session),
  )

  -- When a refresh is needed and refused, the request goes out with the token that was at hand, out
  -- of date as it is, or with none if there was none; and nothing is forgotten.
  pub get_request_token-refused :
      (w : World) (e : Error)
      → needs_refresh w ≡ true
      → refresh_reply w.refreshes ≡ refused e
      → let s = get_access_token dates w.now w.session in
        let (w', token) = get_request_token servers w in
        (w'.session ≡ s) × (token ≡ (if is_truthy s.access_token then s.access_token else none))
  unfolding get_request_token needs_refresh
  get_request_token-refused w e needed reply = ground (
    arith,
    refresh_and_get_access_token-refused (read_token servers w) e,
    truthy_stored (get_access_token dates w.now w.session),
  )
