-- ===== src/Auth/Connect/Retry.antt =====
-- The interceptor's retry.
use memos_note.Common.{
  if◌then◌else◌, length, Text, codes, starts_with, suc, ◌+◌, ◌≤◌, String, ◌≡◌, refl, ap, ◌∙◌, Bool,
  true, false, ◌||◌, Option, none, some, ◌∷◌, ◌++◌, arith,
}
use memos_note.Auth.Connect.{
  unauthenticated, Error, connect_error, Result, ok, throw, granted, refused, Header, Location,
  World, Servers, set_authorization_header, should_handle_unauthenticated_retry,
  redirect_on_auth_failure, refresh_and_get_access_token, get_request_token, send, or_redirect,
  retry_with, after_first, auth_interceptor,
}
use memos_note.Auth.Connect.Requests.{
  refresh_and_get_access_token-granted, refresh_and_get_access_token-refused,
  refresh_and_get_access_token-counts, get_request_token_lem,
}
use memos_note.Auth.Session.{
  Date, is_truthy, has_stored_token, clear_access_token, set_access_token,
}
use memos_note.Auth.Redirect.{auth_route, is_public_route, AuthOptions, build_auth_route}
use memos_note.Auth.Session.Laws.{get_access_token-clear_access_token}

module _ {Response : Type 0} (servers : Servers Response) where
  open servers use {dates, print_search, refresh_reply, refresh_time, next}

  -- The headers of the first attempt, and the world once it is sent.
  unfoldable pub first_header : Header → World → Header
  first_header header w = set_authorization_header (get_request_token servers w).1 header

  unfoldable pub first_sent : Header → World → World
  unfolding first_header
  first_sent header w = (send servers (first_header header w) (get_request_token servers w).0).0

  redirect-keeps :
      (w : World)
      → ((redirect_on_auth_failure servers w).sent ≡ w.sent)
        × ((redirect_on_auth_failure servers w).refreshes ≡ w.refreshes)
  unfolding redirect_on_auth_failure
  redirect-keeps w = ground arith

  retry-set_authorization_header :
      (token : Option String) (header : Header)
      → (set_authorization_header token header).retry ≡ header.retry
  retry-set_authorization_header token header = ground arith

  -- Whether an answer makes the interceptor try once more.
  abbrev pub is_retried : Result Response → Bool → Bool
  is_retried (ok response) is_retry_attempt = false
  is_retried (throw e) is_retry_attempt = should_handle_unauthenticated_retry e is_retry_attempt

  after_first-passes_on :
      (header : Header) (w : World) (r : Result Response)
      → is_retried r header.retry ≡ false
      → after_first servers header (w, r) ≡ (w, r)
  unfolding after_first
  after_first-passes_on header w (ok response) h = refl
  after_first-passes_on header w (throw e) h = rw h

  -- An answer that is no error, and an error other than an unauthenticated one, come back as they
  -- are; so does every error of a request that is marked as a retry. One request is sent, and the
  -- session and the page are as they were then.
  pub auth_interceptor-passes_on :
      (header : Header) (w : World)
      → is_retried (next (first_sent header w).sent) header.retry ≡ false
      → auth_interceptor servers header w ≡ (first_sent header w, next (first_sent header w).sent)
  unfolding auth_interceptor first_sent first_header
  auth_interceptor-passes_on header w h =
      after_first-passes_on (set_authorization_header (get_request_token servers w).1 header) _ _
        (rw (retry-set_authorization_header (get_request_token servers w).1 header) h)

  retry_with-bounds :
      (header : Header) (w : World) (r : Result String)
      → let w' = (retry_with servers header (w, r)).0 in
        (length w'.sent ≤ suc (length w.sent)) × (w'.refreshes ≡ w.refreshes)
  unfolding retry_with or_redirect
  retry_with-bounds header w (throw e) = ground (arith, redirect-keeps w)
  retry_with-bounds header w (ok token) = ground (
    arith,
    redirect-keeps
        (send servers (record (set_authorization_header (some token) header) { retry = true }) w).0,
  )

  after_first-bounds :
      (header : Header) (w : World) (r : Result Response)
      → let w' = (after_first servers header (w, r)).0 in
        (length w'.sent ≤ length w.sent + (if header.retry then 0 else 1))
        × (w'.refreshes ≤ w.refreshes + (if header.retry then 0 else 1))
  unfolding after_first
  after_first-bounds header w (ok response) = ground arith
  after_first-bounds header w (throw e) =
      let (w', token) = refresh_and_get_access_token servers w in
      ground
        (arith, refresh_and_get_access_token-counts servers w, retry_with-bounds header w' token)

  -- A request is sent at most twice, and at most two refreshes are asked for, whatever the servers
  -- answer; for a request that is marked as a retry it is once, and one refresh.
  pub auth_interceptor_bounds :
      (header : Header) (w : World)
      → let w' = (auth_interceptor servers header w).0 in
        (length w'.sent ≤ length w.sent + (if header.retry then 1 else 2))
        × (w'.refreshes ≤ w.refreshes + (if header.retry then 1 else 2))
  unfolding auth_interceptor
  auth_interceptor_bounds header w =
      let (w', token) = get_request_token servers w in
      let header' = set_authorization_header token header in
      let sent = send servers header' w' in
      ground (
        arith,
        get_request_token_lem servers w,
        retry-set_authorization_header token header,
        after_first-bounds header' sent.0 sent.1,
      )

  after_first-retried :
      (header : Header) (w : World)
      → header.retry ≡ false
      → after_first servers header (w, throw (connect_error unauthenticated))
        ≡ retry_with servers header (refresh_and_get_access_token servers w)
  unfolding after_first
  after_first-retried header w h = rw h

  retry_header :
      (header : Header) (token : String)
      → is_truthy (some token) ≡ true
      → ◌≡◌ {A = Header}
          (record (set_authorization_header (some token) header) { retry = true })
          (record { authorization = some token; retry = true })
  retry_header header token h = rw h

  retry_with-ok :
      (header : Header) (w : World) (token : String)
      → is_truthy (some token) ≡ true
      → retry_with servers header (w, ok token)
        ≡ or_redirect servers (send servers (record { authorization = some token; retry = true }) w)
  unfolding retry_with
  retry_with-ok header w token h =
      ap (λ sent. or_redirect servers (send servers sent w)) (retry_header header token h)

  auth_interceptor-retry_with :
      (header : Header) (w : World)
      → next (first_sent header w).sent ≡ throw (connect_error unauthenticated)
      → header.retry ≡ false
      → auth_interceptor servers header w
        ≡ retry_with servers
            (first_header header w)
            (refresh_and_get_access_token servers (first_sent header w))
  unfolding auth_interceptor first_sent first_header
  auth_interceptor-retry_with header w first no_retry =
      let (w', token) = get_request_token servers w in
      let header' = set_authorization_header token header in
      rw first (
        after_first-retried header' (send servers header' w').0
          (retry-set_authorization_header token header ∙ no_retry))

  first_sent-location : (header : Header) (w : World) → (first_sent header w).location ≡ w.location
  unfolding first_sent
  first_sent-location header w = (get_request_token_lem servers w).3

  -- The world once the second attempt is sent, and its answer.
  unfoldable second_sent : Header → World → String → Option Date → World
  second_sent header w token date =
      let w1 = first_sent header w in
      record w1 {
        session = set_access_token dates (some token) date w1.session;
        refreshes = suc w1.refreshes;
        now = w1.now + refresh_time w1.refreshes;
        sent = record { authorization = some token; retry = true } ∷ w1.sent;
      }

  abbrev second_answer : Header → World → String → Result Response
  second_answer header w token =
      next (record { authorization = some token; retry = true } ∷ (first_sent header w).sent)

  retried-or_redirect :
      (header : Header) (w : World) (token : String) (date : Option Date)
      → next (first_sent header w).sent ≡ throw (connect_error unauthenticated)
      → header.retry ≡ false
      → refresh_reply (first_sent header w).refreshes ≡ granted token date
      → is_truthy (some token) ≡ true
      → auth_interceptor servers header w
        ≡ or_redirect servers (second_sent header w token date, second_answer header w token)
  unfolding second_sent
  retried-or_redirect header w token date first no_retry reply h =
      let granted =
        refresh_and_get_access_token-granted servers (first_sent header w) token date reply h in
      auth_interceptor-retry_with header w first no_retry
      ∙ rw granted (retry_with-ok (first_header header w) _ token h)

  -- Whether an answer leaves the page where it is: no error, or a page that wants no sign-in.
  abbrev pub stays : Result Response → Text → Bool
  stays (ok response) pathname = true
  stays (throw e) pathname = starts_with pathname (codes "/auth") || is_public_route pathname

  or_redirect-stays :
      (w : World) (r : Result Response)
      → stays r (w.location).pathname ≡ true
      → or_redirect servers (w, r) ≡ (w, r)
  unfolding or_redirect redirect_on_auth_failure
  or_redirect-stays w (ok response) h = refl
  or_redirect-stays w (throw e) h = rw h

  second_sent-location :
      (header : Header) (w : World) (token : String) (date : Option Date)
      → (second_sent header w token date).location ≡ w.location
  unfolding second_sent
  second_sent-location header w token date = first_sent-location header w

  -- An unauthenticated answer to a request that is no retry, a refresh that is granted, and a second
  -- attempt that is answered without an error, or on a page that wants no sign-in: the answer to the
  -- second attempt is the answer of all. It is one more request, with the new token and the mark of
  -- a retry, after one more refresh; the new token is kept, and the page stays.
  pub auth_interceptor-retries :
      (header : Header) (w : World) (token : String) (date : Option Date)
      → next (first_sent header w).sent ≡ throw (connect_error unauthenticated)
      → header.retry ≡ false
      → refresh_reply (first_sent header w).refreshes ≡ granted token date
      → is_truthy (some token) ≡ true
      → let second : Header = record { authorization = some token; retry = true } in
        let w1 = first_sent header w in
        stays (next (second ∷ w1.sent)) (w.location).pathname ≡ true
        → auth_interceptor servers header w ≡ (
          record w1 {
            session = set_access_token dates (some token) date w1.session;
            refreshes = suc w1.refreshes;
            now = w1.now + refresh_time w1.refreshes;
            sent = second ∷ w1.sent;
          },
          next (second ∷ w1.sent),
        )
  unfolding second_sent
  auth_interceptor-retries header w token date first no_retry reply h s =
      retried-or_redirect header w token date first no_retry reply h
      ∙ or_redirect-stays (second_sent header w token date) (second_answer header w token) (
          ap (λ (l : Location). stays (second_answer header w token) l.pathname)
            (first_sent-location header w)
          ∙ s)

  -- If the refresh fails, its error is the answer, one request was sent, and the page is sent to
  -- the auth page.
  pub auth_interceptor-refused :
      (header : Header) (w : World) (e : Error)
      → next (first_sent header w).sent ≡ throw (connect_error unauthenticated)
      → header.retry ≡ false
      → refresh_reply (first_sent header w).refreshes ≡ refused e
      → let w1 = (refresh_and_get_access_token servers (first_sent header w)).0 in
        auth_interceptor servers header w ≡ (redirect_on_auth_failure servers w1, throw e)
  unfolding retry_with
  auth_interceptor-refused header w e first no_retry reply =
      auth_interceptor-retry_with header w first no_retry
      ∙ rw (refresh_and_get_access_token-refused servers (first_sent header w) e reply)

  or_redirect-throw :
      (w : World) (e : Error)
      → starts_with (w.location).pathname auth_route ≡ false
      → is_public_route (w.location).pathname ≡ false
      → or_redirect servers (w, throw e) ≡ (
        record w {
          session = clear_access_token w.session;
          replaced = some (
              build_auth_route print_search (record {
                redirect = some ((w.location).pathname ++ (w.location).search ++ (w.location).hash);
                reason = none;
              }));
        },
        throw e,
      )
  unfolding or_redirect redirect_on_auth_failure
  or_redirect-throw w e h k = rw h (rw k refl)

  build_auth_route-starts :
      (options : AuthOptions)
      → starts_with (build_auth_route print_search options) (codes "/auth") ≡ true
  unfolding build_auth_route
  build_auth_route-starts options = ground arith

  -- An unauthenticated answer to a request that is no retry, a refresh that is granted, and any error
  -- of the second attempt, one that has nothing to do with the token too, on a page that wants a
  -- sign-in: the error is the answer, the token that was just granted is forgotten, and the page is
  -- replaced by what `buildAuthRoute` gives for a way back to where the page was, which begins with
  -- `/auth`.
  pub auth_interceptor-signs_out :
      (header : Header) (w : World) (token : String) (date : Option Date) (e : Error)
      → next (first_sent header w).sent ≡ throw (connect_error unauthenticated)
      → header.retry ≡ false
      → refresh_reply (first_sent header w).refreshes ≡ granted token date
      → is_truthy (some token) ≡ true
      → next (record { authorization = some token; retry = true } ∷ (first_sent header w).sent)
        ≡ throw e
      → starts_with (w.location).pathname auth_route ≡ false
      → is_public_route (w.location).pathname ≡ false
      → let (w', r) = auth_interceptor servers header w in
        let page : Text = build_auth_route print_search (record {
          redirect = some ((w.location).pathname ++ (w.location).search ++ (w.location).hash);
          reason = none;
        }) in
        (r ≡ throw e)
        × (has_stored_token w'.session ≡ false)
        × (w'.replaced ≡ some page)
        × (starts_with page (codes "/auth") ≡ true)
  unfolding second_sent
  auth_interceptor-signs_out header w token date e first no_retry reply h second h1 h2 =
      let same_page = first_sent-location header w in
      let out =
        or_redirect-throw (second_sent header w token date) e
          (ap (λ (l : Location). starts_with l.pathname auth_route) same_page ∙ h1)
          (ap (λ (l : Location). is_public_route l.pathname) same_page ∙ h2) in
      rw (retried-or_redirect header w token date first no_retry reply h) (
        rw second (
          rw out (
            refl,
            (get_access_token-clear_access_token dates w.now
                (second_sent header w token date).session).1,
            ap
                (λ (l : Location). some (
                  build_auth_route print_search
                    (record { redirect = some (l.pathname ++ l.search ++ l.hash); reason = none })))
                same_page,
            build_auth_route-starts _,
          )))
