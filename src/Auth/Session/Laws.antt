-- ===== src/Auth/Session/Laws.antt =====
-- What the operations on the token do to one another.
use memos_note.Common.{ℕ, ◌+◌, ◌<◌, String, ◌≡◌, true, false, Option, none, some, [], ◌∷◌, arith}
use memos_note.Auth.Session.{
  Date, at, DateTexts, Message, Session, is_truthy, is_token_expired, has_stored_token,
  clear_access_token, on_message, get_access_token, set_access_token,
}

-- A tab that is loaded anew, over the same storage.
pub reload : Session → Session
reload s = record s { access_token = none; token_expires_at = none; posted = [] }

abbrev pub IsUsable : Session → Type 0
IsUsable s = (s.storage.blocked ≡ false) × (s.storage.full ≡ false)

module _ (dates : DateTexts) where
  open dates use {to_iso, parse}

  -- A token that is set with a date in the future, where the storage can be written, is the token
  -- of a tab that is loaded later, up to that date; and until a buffer before it the later tab
  -- does not take it to be expired.
  pub get_access_token-set_access_token :
      (s : Session) (token : String) (ms now buffer : ℕ)
      → IsUsable s
      → is_truthy (some token) ≡ true
      → now + buffer < ms
      → let later =
          get_access_token dates now
            (reload (set_access_token dates (some token) (some (at ms)) s)) in
        (later.access_token ≡ some token) × (is_token_expired buffer now later ≡ false)
  unfolding get_access_token set_access_token reload is_token_expired
  get_access_token-set_access_token s token ms now buffer usable h later =
      ground (arith, dates.parse-to_iso ms, dates.to_iso-ne ms)

  -- Another tab that receives what was posted has the same token and date, and does not look at
  -- the storage for it.
  pub on_message-set_access_token :
      (s other : Session) (token : String) (ms now : ℕ)
      → IsUsable s
      → s.channel_open ≡ true
      → is_truthy (some token) ≡ true
      → (m : Message) × ((set_access_token dates (some token) (some (at ms)) s).posted
          ≡ m ∷ s.posted)
        × (get_access_token dates now (on_message dates m other)
            ≡ record other { access_token = some token; token_expires_at = some (at ms) })
  unfolding get_access_token set_access_token on_message
  on_message-set_access_token s other token ms now usable is_open h = (
    record { token = token; expires_at = to_iso ms },
    ground arith,
    ground (arith, dates.parse-to_iso ms, dates.to_iso-ne ms),
  )

  -- Reading the token leaves the storage as it is, also when the stored token is out of date; so
  -- whether there is a token to refresh does not change by reading.
  pub get_access_token-keeps :
      (now : ℕ) (s : Session)
      → ((get_access_token dates now s).storage ≡ s.storage)
        × (has_stored_token (get_access_token dates now s) ≡ has_stored_token s)
  unfolding get_access_token has_stored_token
  get_access_token-keeps now s = ground arith

  -- After clearing there is no token to read or to refresh, at any time, in a tab whose storage
  -- can be reached and in one whose storage cannot.
  pub get_access_token-clear_access_token :
      (now : ℕ) (s : Session)
      → ((get_access_token dates now (clear_access_token s)).access_token ≡ none)
        × (has_stored_token (clear_access_token s) ≡ false)
  unfolding get_access_token clear_access_token has_stored_token
  get_access_token-clear_access_token now s = ground arith

  -- A token that is set with no date is kept in memory alone: it counts as expired under every
  -- buffer, and a tab that is loaded later has none.
  pub set_access_token-without_date :
      (s : Session) (token : String) (buffer now : ℕ)
      → s.storage.blocked ≡ false
      → is_truthy (some token) ≡ true
      → let s' = set_access_token dates (some token) none s in
        (s'.access_token ≡ some token)
        × (is_token_expired buffer now s' ≡ true)
        × ((get_access_token dates now (reload s')).access_token ≡ none)
  unfolding get_access_token set_access_token reload is_token_expired
  set_access_token-without_date s token buffer now reachable h = ground arith

  pub access_token-set_access_token :
      (token : String) (date : Option Date) (s : Session)
      → (set_access_token dates (some token) date s).access_token ≡ some token
  unfolding set_access_token
  access_token-set_access_token token date s = ground arith

  pub get_access_token_of_truthy :
      (now : ℕ) (s : Session) → is_truthy s.access_token ≡ true → get_access_token dates now s ≡ s
  unfolding get_access_token
  get_access_token_of_truthy now s h = ground arith
