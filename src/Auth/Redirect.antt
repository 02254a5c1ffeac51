-- ===== src/Auth/Redirect.antt =====
-- web/src/utils/redirect-safety.ts, with the paths of web/src/router/routes.ts. What
-- `URLSearchParams` prints is a parameter.
pub mod Safety
mod Samples
use memos_note.Common.{
  if◌then◌else◌, any, Text, codes, text_eq, starts_with, ◌/◌, Bool, not, ◌||◌, Option, none, some,
  List, [], ◌∷◌, ◌++◌,
}

abbrev pub auth_route : Text
auth_route = codes "/auth"

-- `PUBLIC_ROUTE_PREFIXES`
abbrev pub public_route_prefixes : List Text
public_route_prefixes =
    auth_route
    ∷ codes "/about"
    ∷ codes "/explore"
    ∷ codes "/memos/shares/"
    ∷ codes "/u/"
    ∷ codes "/memos/"
    ∷ []

unfoldable pub is_public_route : Text → Bool
is_public_route path = any (λ route. starts_with path route) public_route_prefixes

abbrev pub is_auth_path : Text → Bool
is_auth_path path =
    text_eq path auth_route
    || starts_with path (codes "/auth/")
    || starts_with path (codes "/auth?")

-- `null`, `undefined` and the empty text are all no path.
unfoldable pub get_safe_redirect_path : Option Text → Option Text
get_safe_redirect_path none = none
get_safe_redirect_path (some path) =
    if text_eq path []
    then none
    else (if not (starts_with path (codes "/")) || starts_with path (codes "//")
        then none
        else (if is_auth_path path then none else some path))

-- The `options` of `buildAuthRoute`; an empty reason is none.
pub record AuthOptions : Type 0 where
  pub redirect : Option Text
  pub reason : Option Text

abbrev pub parameter : Text → Option Text → List (Text × Text)
parameter name none = []
parameter name (some value) = if text_eq value [] then [] else (name, value) ∷ []

module _ (print_search : List (Text × Text) → Text) where
  unfoldable pub build_auth_route : AuthOptions → Text
  unfolding get_safe_redirect_path
  build_auth_route options =
      let search = print_search (
        parameter (codes "redirect") (get_safe_redirect_path options.redirect)
        ++ parameter (codes "reason") options.reason) in
      if text_eq search [] then auth_route else auth_route ++ codes "?" ++ search
