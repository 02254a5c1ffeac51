-- ===== src/Auth/Redirect/Samples.antt =====
-- Redirect targets that are let through, and some that are not.
use memos_note.Common.{
  if◌then◌else◌, Text, codes, starts_with, ◌≡◌, refl, ◌||◌, none, some, List, [], ◌∷◌, ◌++◌,
}
use memos_note.Auth.Redirect.{get_safe_redirect_path, AuthOptions, build_auth_route}
use memos_note.Auth.Redirect.Safety.{
  is_plain, get_safe_redirect_path_lem, get_safe_redirect_path-build_auth_route,
}

-- A printer of parameters with one name; enough to run the code.
abbrev print_values : List (Text × Text) → Text
print_values [] = []
print_values ((name, value) ∷ ps) = name ++ codes "=" ++ value ++ print_values ps

abbrev options : AuthOptions
options = record { redirect = some (codes "/memos/a"); reason = none }

auth_route_with_target : build_auth_route print_values options ≡ codes "/auth?redirect=/memos/a"
unfolding build_auth_route
auth_route_with_target = refl

other_host : get_safe_redirect_path (some (codes "//evil.example")) ≡ none
unfolding get_safe_redirect_path
other_host = refl

get_safe_redirect_path_lem_example :
    let p = codes "/auth#x" in
    get_safe_redirect_path (some p) ≡ (
      if is_plain p || starts_with p (b'/' ∷ 92 ∷ []) || starts_with p (codes "/auth#")
      then some p
      else none)
get_safe_redirect_path_lem_example = get_safe_redirect_path_lem (codes "/auth#x")

get_safe_redirect_path-build_auth_route_example :
    get_safe_redirect_path (some (build_auth_route print_values options)) ≡ none
get_safe_redirect_path-build_auth_route_example =
    get_safe_redirect_path-build_auth_route print_values options
