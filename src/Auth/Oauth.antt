-- ===== src/Auth/Oauth.antt =====
-- The state of a sign-in with another provider: web/src/utils/oauth.ts. What the browser's random
-- numbers and its digest give are arguments, `none` where there is no digest or it fails;
-- `JSON.stringify` and `JSON.parse` are parameters, `none` where the text cannot be parsed. The entry
-- is taken to be one that this code wrote, so that what is parsed has a time; an entry of another
-- shape, which the code would not notice, is outside the model.
pub mod Laws
mod Samples
use memos_note.Common.{
  ltb, if◌then◌else◌, get_or_else, map_option, Text, text_eq, ℕ, ◌-◌, ◌*◌, Bool, not, Option, none,
  some, [], ◌∷◌,
}

abbrev pub state_expiry_ms : ℕ
state_expiry_ms = 10 * 60 * 1000

pub data OauthFlowMode : Type 0 where
  signin link : OauthFlowMode

-- `OAuthState`; what is parsed may have no mode.
pub record OauthState : Type 0 where
  pub state : Text
  pub identity_provider_name : Text
  pub flow_mode : Option OauthFlowMode
  pub timestamp : ℕ
  pub return_url : Option Text
  pub linking_user_name : Option Text
  pub code_verifier : Option Text

-- The verifier and the challenge.
pub record Pkce : Type 0 where
  pub verifier : Text
  pub challenge : Text

-- The entry of `sessionStorage`, and whether it can be written.
pub record Storage : Type 0 where
  pub entry : Option Text
  pub writable : Bool

pub record Stored : Type 0 where
  pub state : Text
  pub code_challenge : Option Text

pub record Validated : Type 0 where
  pub identity_provider_name : Text
  pub flow_mode : OauthFlowMode
  pub return_url : Option Text
  pub linking_user_name : Option Text
  pub code_verifier : Option Text

-- What the caller of `storeOAuthState` gives.
pub record Request : Type 0 where
  pub identity_provider_name : Text
  pub flow_mode : OauthFlowMode
  pub return_url : Option Text
  pub linking_user_name : Option Text

abbrev pub is_expired : ℕ → OauthState → Bool
is_expired now s = ltb state_expiry_ms (now - s.timestamp)

unfoldable pub state_data : Request → Text → Option Pkce → ℕ → OauthState
state_data r random pkce now = record {
  state = random;
  identity_provider_name = r.identity_provider_name;
  flow_mode = some r.flow_mode;
  timestamp = now;
  return_url = r.return_url;
  linking_user_name = r.linking_user_name;
  code_verifier = map_option (λ p. p.verifier) pkce;
}

unfoldable pub result_of : OauthState → Validated
result_of s = record {
  identity_provider_name = s.identity_provider_name;
  flow_mode = get_or_else s.flow_mode signin;
  return_url = s.return_url;
  linking_user_name = s.linking_user_name;
  code_verifier = s.code_verifier;
}

abbrev pub removed : Storage → Storage
removed s = record s { entry = none }

module _ (stringify : OauthState → Text) (parse : Text → Option OauthState) where
  -- `none` where it throws.
  unfoldable pub store_oauth_state :
      Request → Text → Option Pkce → ℕ → Storage → Storage × Option Stored
  unfolding state_data
  store_oauth_state r random pkce now s =
      let stored : Stored = record {
        state = random;
        code_challenge = map_option (λ p. p.challenge) pkce;
      } in
      if s.writable
      then (record s { entry = some (stringify (state_data r random pkce now)) }, some stored)
      else (s, none)

  -- After `JSON.parse`.
  unfoldable pub validate_parsed :
      Text → ℕ → Storage → Option OauthState → Storage × Option Validated
  unfolding result_of
  validate_parsed state_param now s none = (removed s, none)
  validate_parsed state_param now s (some data') =
      if is_expired now data'
      then (removed s, none)
      else if not (text_eq data'.state state_param)
      then (removed s, none)
      else (removed s, some (result_of data'))

  -- `if (!storedData)`: an empty text is falsy.
  unfoldable pub validate_entry : Text → ℕ → Storage → Option Text → Storage × Option Validated
  unfolding validate_parsed
  validate_entry state_param now s none = (s, none)
  validate_entry state_param now s (some []) = (s, none)
  validate_entry state_param now s (some (c ∷ t)) =
      validate_parsed state_param now s (parse (c ∷ t))

  unfoldable pub validate_oauth_state : Text → ℕ → Storage → Storage × Option Validated
  unfolding validate_entry
  validate_oauth_state state_param now s = validate_entry state_param now s s.entry

  unfoldable pub cleanup_parsed : ℕ → Storage → Option OauthState → Storage
  cleanup_parsed now s none = removed s
  cleanup_parsed now s (some data') = if is_expired now data' then removed s else s

  unfoldable pub cleanup_entry : ℕ → Storage → Option Text → Storage
  unfolding cleanup_parsed
  cleanup_entry now s none = s
  cleanup_entry now s (some []) = s
  cleanup_entry now s (some (c ∷ t)) = cleanup_parsed now s (parse (c ∷ t))

  unfoldable pub cleanup_expired_oauth_state : ℕ → Storage → Storage
  unfolding cleanup_entry
  cleanup_expired_oauth_state now s = cleanup_entry now s s.entry
