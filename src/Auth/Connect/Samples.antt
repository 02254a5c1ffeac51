-- ===== src/Auth/Connect/Samples.antt =====
-- Servers that answer the first request unauthenticated, and the theorems on requests there.
use memos_note.Common.{
  length, Text, codes, starts_with, ℕ, zero, suc, ◌+◌, ◌≡◌, refl, true, false, none, some, List, [],
  ◌∷◌,
}
use memos_note.Auth.Session.{
  at, Session, is_token_expired, has_stored_token, get_access_token, set_access_token,
}
use memos_note.Auth.Connect.{
  unauthenticated, another_code, connect_error, Result, ok, throw, RefreshReply, granted, refused,
  Header, World, Servers, get_request_token, auth_interceptor,
}
use memos_note.Auth.Session.Samples.{unary_dates, fresh}
use memos_note.Auth.Connect.Retry.{
  first_header, first_sent, auth_interceptor-retries, auth_interceptor-signs_out,
}
use memos_note.Auth.Redirect.{is_public_route, build_auth_route}

-- The n-th refresh is granted the token "new", which lasts until 900000.
abbrev answer_from : (ℕ → Result ℕ) → List Header → Result ℕ
answer_from answers sent = answers (length sent)

abbrev servers_with : (ℕ → RefreshReply) → (ℕ → Result ℕ) → Servers ℕ
servers_with replies answers = record {
  dates = unary_dates;
  print_search = λ ps. [];
  refresh_reply = replies;
  refresh_time = λ n. 3;
  next = answer_from answers;
}

abbrev grants : ℕ → RefreshReply
grants n = granted "new" none

abbrev refuses : ℕ → RefreshReply
refuses n = refused (connect_error unauthenticated)

-- The first request is unauthenticated, every later one is not found.
abbrev not_found_later : ℕ → Result ℕ
not_found_later zero = ok 0
not_found_later (suc zero) = throw (connect_error unauthenticated)
not_found_later (suc (suc n)) = throw (connect_error (another_code 5))

abbrev signed_in : Session
signed_in = record fresh { access_token = some "old"; token_expires_at = some (at 50000) }

abbrev expiring : Session
expiring = record fresh { access_token = some "old"; token_expires_at = some (at 20000) }

abbrev world_of : Session → World
world_of s = record {
  session = s;
  now = 10;
  refreshes = 0;
  sent = [];
  location = record { pathname = codes "/inbox"; search = []; hash = [] };
  replaced = none;
}

abbrev header : Header
header = record { authorization = none; retry = false }

abbrev granting : Servers ℕ
granting = servers_with grants not_found_later

abbrev refusing : Servers ℕ
refusing = servers_with refuses not_found_later

-- The first request is unauthenticated, every later one is answered.
abbrev answered_later : ℕ → Result ℕ
answered_later zero = ok 0
answered_later (suc zero) = throw (connect_error unauthenticated)
answered_later (suc (suc n)) = ok 7

abbrev answering : Servers ℕ
answering = servers_with grants answered_later

auth_interceptor-retries_example :
    let second : Header = record { authorization = some "new"; retry = true } in
    let w1 = first_sent answering header (world_of signed_in) in
    auth_interceptor answering header (world_of signed_in) ≡ (
      record w1 {
        session = set_access_token (answering.dates) (some "new") none w1.session;
        refreshes = suc w1.refreshes;
        now = w1.now + answering.refresh_time w1.refreshes;
        sent = second ∷ w1.sent;
      },
      answering.next (second ∷ w1.sent),
    )
unfolding first_sent first_header get_request_token get_access_token is_token_expired
auth_interceptor-retries_example =
    auth_interceptor-retries answering header (world_of signed_in) "new" none refl refl refl refl
      refl

auth_interceptor-signs_out_example :
    let (w', r) = auth_interceptor granting header (world_of signed_in) in
    let page : Text =
      build_auth_route granting.print_search
        (record { redirect = some (codes "/inbox"); reason = none }) in
    (r ≡ throw (connect_error (another_code 5)))
    × (has_stored_token w'.session ≡ false)
    × (w'.replaced ≡ some page)
    × (starts_with page (codes "/auth") ≡ true)
unfolding first_sent first_header get_request_token get_access_token is_token_expired
    is_public_route
auth_interceptor-signs_out_example =
    auth_interceptor-signs_out granting header (world_of signed_in) "new" none
      (connect_error (another_code 5)) refl refl refl refl refl refl refl
