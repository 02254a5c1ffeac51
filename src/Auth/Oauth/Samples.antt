-- ===== src/Auth/Oauth/Samples.antt =====
-- The theorems on a concrete sign-in, and tests.
use memos_note.Common.{
  length, Text, codes, ◌-◌, ◌≤◌, ◌≡◌, refl, true, Option, none, some, [], ◌∷◌, arith,
}
use memos_note.Auth.Oauth.{
  state_expiry_ms, link, OauthState, Pkce, Storage, Validated, Request, state_data, result_of,
  store_oauth_state, validate_parsed, validate_entry, validate_oauth_state,
  cleanup_expired_oauth_state,
}
use memos_note.Auth.Oauth.Laws.{
  validate_oauth_state_lem, calls, validate_oauth_state-store_oauth_state, cleans, validates,
  length-calls,
}

abbrev request : Request
request = record {
  identity_provider_name = codes "idp";
  flow_mode = link;
  return_url = some (codes "/explore");
  linking_user_name = some (codes "users/1");
}

abbrev pkce : Option Pkce
pkce = some (record { verifier = codes "v"; challenge = codes "c" })

-- The one object that is printed and parsed here.
abbrev begun : OauthState
begun = record {
  state = codes "r";
  identity_provider_name = codes "idp";
  flow_mode = some link;
  timestamp = 1000;
  return_url = some (codes "/explore");
  linking_user_name = some (codes "users/1");
  code_verifier = some (codes "v");
}

abbrev stringify : OauthState → Text
stringify _ = codes "{}"

abbrev parse : Text → Option OauthState
parse [] = none
parse (_ ∷ _) = some begun

abbrev stored : Storage
stored = record { entry = some (codes "{}"); writable = true }

abbrev validated : Validated
validated = record {
  identity_provider_name = codes "idp";
  flow_mode = link;
  return_url = some (codes "/explore");
  linking_user_name = some (codes "users/1");
  code_verifier = some (codes "v");
}

length-calls_example :
    length (
      calls stringify parse
        (cleans 2000 ∷ validates (codes "r") 3000 ∷ validates (codes "r") 3000 ∷ [])
        stored)
    ≤ 1
length-calls_example =
    length-calls stringify parse
      (cleans 2000 ∷ validates (codes "r") 3000 ∷ validates (codes "r") 3000 ∷ []) stored

validate_oauth_state_lem_example :
    ((validate_oauth_state stringify parse (codes "r") 3000 stored).0.entry ≡ none)
    × ((t : Text) × (data' : OauthState) × (stored.entry ≡ some t)
        × (parse t ≡ some data')
        × (data'.state ≡ codes "r")
        × (3000 - data'.timestamp ≤ state_expiry_ms)
        × (validated ≡ result_of data'))
unfolding validate_oauth_state validate_entry validate_parsed result_of
validate_oauth_state_lem_example =
    validate_oauth_state_lem stringify parse (codes "r") 3000 stored validated refl

validate_oauth_state-store_oauth_state_example :
    let after =
      (store_oauth_state stringify parse request
        (codes "r")
        pkce
        1000
        (record { entry = none; writable = true })).0 in
    (validate_oauth_state stringify parse
      (codes "r")
      601000
      (cleanup_expired_oauth_state stringify parse 5000 after)).1
    ≡ some validated
unfolding state_data
validate_oauth_state-store_oauth_state_example =
    validate_oauth_state-store_oauth_state stringify parse request (codes "r") pkce 1000 5000 601000
      (record { entry = none; writable = true }) refl refl refl (ground arith) (ground arith)

mismatch_test :
    validate_oauth_state stringify parse (codes "x") 3000 stored
    ≡ (record { entry = none; writable = true }, none)
unfolding validate_oauth_state validate_entry validate_parsed
mismatch_test = refl

expiry_test : (validate_oauth_state stringify parse (codes "r") 601001 stored).1 ≡ none
unfolding validate_oauth_state validate_entry validate_parsed
expiry_test = refl
