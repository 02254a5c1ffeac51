-- ===== src/Auth/Session.antt =====
-- web/src/auth-state.ts: the access token of a tab, in memory and in the browser's storage. How
-- dates are written as texts is an interface, `DateTexts`; an empty text is as good as none, as
-- in the source's tests.
pub mod Laws
pub mod Samples
use memos_note.Common.{
  ltb, leb, if◌then◌else◌, ℕ, ◌+◌, ◌*◌, String, ◌≡◌, Bool, true, false, not, ◌&&◌, ◌||◌, Option,
  none, some, List, ◌∷◌, str_eq,
}

-- A date; `new Date("nonsense")` is invalid, and every comparison with it is false.
pub data Date : Type 0 where
  invalid : Date
  at : ℕ → Date

-- `toISOString` and `new Date` for the dates that a token can have.
pub record DateTexts : Type 0 where
  pub to_iso : ℕ → String
  pub parse : String → Date
  pub parse-to_iso : (ms : ℕ) → parse (to_iso ms) ≡ at ms
  pub to_iso-ne : (ms : ℕ) → str_eq (to_iso ms) "" ≡ false

-- `localStorage`: its two entries, whether every access throws, and whether writes throw.
pub record Storage : Type 0 where
  pub blocked : Bool
  pub full : Bool
  pub token : Option String
  pub expires : Option String

pub record Message : Type 0 where
  pub token : String
  pub expires_at : String

-- The module's variables, the storage, and what the tab has posted to the others.
pub record Session : Type 0 where
  pub access_token : Option String
  pub token_expires_at : Option Date
  pub storage : Storage
  pub channel_open : Bool
  pub posted : List Message

abbrev pub request_token_expiry_buffer_ms : ℕ
request_token_expiry_buffer_ms = 30 * 1000

abbrev pub focus_token_expiry_buffer_ms : ℕ
focus_token_expiry_buffer_ms = 2 * 60 * 1000

abbrev pub is_truthy : Option String → Bool
is_truthy none = false
is_truthy (some s) = not (str_eq s "")

-- `expiresAt > new Date()`
abbrev pub is_after : Date → ℕ → Bool
is_after invalid now = false
is_after (at ms) now = ltb now ms

-- `new Date() >= new Date(expiry - buffer)`, over integers
abbrev pub is_reached : Date → ℕ → ℕ → Bool
is_reached invalid buffer now = false
is_reached (at ms) buffer now = leb ms (now + buffer)

unfoldable pub is_token_expired : ℕ → ℕ → Session → Bool
is_token_expired buffer now s = elim s.token_expires_at [
  | none ↦ true
  | some date ↦ is_reached date buffer now
]

unfoldable pub has_stored_token : Session → Bool
has_stored_token s =
    if is_truthy s.access_token
    then true
    else (if s.storage.blocked then false else is_truthy s.storage.token)

unfoldable pub clear_access_token : Session → Session
clear_access_token s = record s {
  access_token = none;
  token_expires_at = none;
  storage =
      if s.storage.blocked then s.storage else record (s.storage) { token = none; expires = none };
}

module _ (dates : DateTexts) where
  open dates use {to_iso, parse}

  -- `tokenChannel.onmessage`
  unfoldable pub on_message : Message → Session → Session
  on_message m s =
      if is_truthy (some m.token) && is_truthy (some m.expires_at)
      then record s { access_token = some m.token; token_expires_at = some (parse m.expires_at) }
      else s

  adopt_stored : ℕ → Option String → Option String → Session → Session
  adopt_stored now (some token) (some expires) s =
      if is_truthy (some token) && (is_truthy (some expires) && is_after (parse expires) now)
      then record s { access_token = some token; token_expires_at = some (parse expires) }
      else s
  adopt_stored now token expires s = s

  -- The session afterwards; the result is its `access_token`.
  unfoldable pub get_access_token : ℕ → Session → Session
  unfolding adopt_stored
  get_access_token now s =
      if is_truthy s.access_token || s.storage.blocked
      then s
      else adopt_stored now s.storage.token s.storage.expires s

  -- Writing both entries and posting: the first write that throws ends it. An invalid date throws
  -- when it is printed, after the token has been written.
  store_token : String → Date → Session → Session
  store_token token invalid s = record s { storage = record (s.storage) { token = some token } }
  store_token token (at ms) s = record s {
    storage = record (s.storage) { token = some token; expires = some (to_iso ms) };
    posted =
        if s.channel_open
        then record { token = token; expires_at = to_iso ms } ∷ s.posted
        else s.posted;
  }

  forget_stored : Session → Session
  forget_stored s = record s { storage = record (s.storage) { token = none; expires = none } }

  write_token : Option String → Option Date → Session → Session
  unfolding store_token forget_stored
  write_token (some token) (some date) s =
      if not (is_truthy (some token))
      then forget_stored s
      else (if s.storage.full then s else store_token token date s)
  write_token token date s = forget_stored s

  unfoldable pub set_access_token : Option String → Option Date → Session → Session
  unfolding write_token
  set_access_token token date s =
      let s' = record s { access_token = token; token_expires_at = date } in
      if s.storage.blocked then s' else write_token token date s'
