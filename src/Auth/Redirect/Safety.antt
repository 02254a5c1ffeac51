-- ===== src/Auth/Redirect/Safety.antt =====
-- Which redirect targets are let through.
use memos_note.Common.{
  ◌==◌, if◌then◌else◌, Bool-cases, Text, codes, text_eq, text_eq_sound, text_eq_iff, starts_with, ℕ,
  ◌≡◌, refl, ◌↔◌, inl, inr, Bool, true, false, not, ◌&&◌, ◌||◌, none, some, List, [], ◌∷◌, arith,
}
use memos_note.Auth.Redirect.{is_auth_path, get_safe_redirect_path, AuthOptions, build_auth_route}

-- The first segment of a path, up to a slash, a query or a fragment.
pub first_segment : Text → Text
first_segment [] = []
first_segment (c ∷ s) =
    let rest = c ∷ first_segment s in if (c == b'/') || (c == b'?') || (c == b'#') then [] else rest

-- One slash, neither a slash nor a backslash after it, and a first segment other than `auth`. The
-- comment of the function asks for no less: a browser reads two slashes, or a slash and a backslash,
-- as the start of another host.
pub is_plain : Text → Bool
is_plain [] = false
is_plain (a ∷ []) = a == b'/'
is_plain (a ∷ c ∷ s) =
    (a == b'/')
    && not (c == b'/')
    && not (c == 92)
    && not (text_eq (first_segment (c ∷ s)) (codes "auth"))

-- Whether a text is "auth" up to a slash, a query or its end.
is_auth_segment : Text → Bool
is_auth_segment s = is_auth_path (b'/' ∷ s)

first_segment-auth :
    (s : Text)
    → (is_auth_segment s ≡ true)
      ↔ ((first_segment s ≡ codes "auth") × (starts_with s (codes "auth#") ≡ false))
unfolding is_auth_segment first_segment
first_segment-auth [] = ground arith
first_segment-auth (a ∷ []) = ground arith
first_segment-auth (a ∷ b ∷ []) = ground arith
first_segment-auth (a ∷ b ∷ c ∷ []) = ground arith
first_segment-auth (a ∷ b ∷ c ∷ d ∷ []) = ground arith
first_segment-auth (a ∷ b ∷ c ∷ d ∷ e ∷ s) = ground arith

is_auth_path-slash :
    (s : Text)
    → is_auth_path (b'/' ∷ s)
      ≡ (text_eq (first_segment s) (codes "auth") && not (starts_with s (codes "auth#")))
is_auth_path-slash s =
    same_truth (is_auth_path (b'/' ∷ s)) (text_eq (first_segment s) (codes "auth"))
      (starts_with s (codes "auth#"))
      (λ h.
        let (k, l) = (first_segment-auth s).0 (unfold is_auth_segment in h) in
        ((text_eq_iff _ _).1 k, l))
      (λ h l.
        unfold is_auth_segment in
        (first_segment-auth s).1 (text_eq_sound (first_segment s) (codes "auth") h, l))
  where
    same_truth :
        (a b c : Bool)
        → (a ≡ true → (b ≡ true) × (c ≡ false))
        → (b ≡ true → c ≡ false → a ≡ true)
        → a ≡ (b && not c)
    same_truth true b c f g = let (h, k) = f refl in rw h (rw k refl)
    same_truth false true true f g = refl
    same_truth false true false f g = g refl refl
    same_truth false false c f g = refl

backslash-first_segment :
    (c : ℕ) (s : Text) → (c == 92) ≡ true → text_eq (first_segment (c ∷ s)) (codes "auth") ≡ false
unfolding first_segment
backslash-first_segment c s h = ground (arith, h)

-- A redirect target is let through, unchanged, exactly when it begins with one slash that neither a
-- slash nor a backslash follows, and its first segment, up to a slash, a query or a fragment, is not
-- `auth`; or when it begins with a slash and a backslash; or when it is the auth page with a fragment.
pub get_safe_redirect_path_lem :
    (p : Text)
    → get_safe_redirect_path (some p) ≡ (
        if is_plain p || starts_with p (b'/' ∷ 92 ∷ []) || starts_with p (codes "/auth#")
        then some p
        else none)
unfolding get_safe_redirect_path is_plain
get_safe_redirect_path_lem [] = refl
get_safe_redirect_path_lem (a ∷ []) = ground arith
get_safe_redirect_path_lem (a ∷ c ∷ s) = elim (Bool-cases (a == b'/')) [
  | inr e ↦ ground (arith, e)
  | inl e ↦ elim (Bool-cases (c == 92)) [
    | inl k ↦ ground (arith, e, k, is_auth_path-slash (c ∷ s), backslash-first_segment c s k)
    | inr k ↦ ground (arith, e, k, is_auth_path-slash (c ∷ s))
  ]
]

module _ (print_search : List (Text × Text) → Text) where
  -- The auth page, with whatever parameters, is never a target that is let through; so a redirect
  -- to it cannot come back to itself.
  pub get_safe_redirect_path-build_auth_route :
      (options : AuthOptions)
      → get_safe_redirect_path (some (build_auth_route print_search options)) ≡ none
  unfolding get_safe_redirect_path build_auth_route
  get_safe_redirect_path-build_auth_route options = ground arith
