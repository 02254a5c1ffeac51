-- ===== src/Auth/Session/Samples.antt =====
-- Dates written in unary, a tab at rest, and the theorems on sessions there.

use memos_note.Common.{
  Bool-cases, ℕ, zero, suc, String, ◌≡◌, refl, ap, inl, inr, true, false, none, [], arith, str_eq,
  eq_iff,
}
use memos_note.Auth.Session.{Date, invalid, at, DateTexts, Storage, Session}

abbrev pub to_unary : ℕ → String
to_unary zero = "Z"
to_unary (suc n) = String.◌∷◌ "1" (to_unary n)

abbrev marks : String → ℕ
marks String.[] = 0
marks (String.◌∷◌ c s) = suc (marks s)

abbrev pub of_unary : String → Date
of_unary String.[] = invalid
of_unary (String.◌∷◌ c s) = at (marks s)

marks-to_unary : (n : ℕ) → marks (to_unary n) ≡ suc n
marks-to_unary zero = refl
marks-to_unary (suc n) = ap suc (marks-to_unary n)

pub of_unary-to_unary : (n : ℕ) → of_unary (to_unary n) ≡ at n
of_unary-to_unary zero = refl
of_unary-to_unary (suc n) = ap at (marks-to_unary n)

pub to_unary-ne : (n : ℕ) → str_eq (to_unary n) "" ≡ false
to_unary-ne zero = refl
to_unary-ne (suc n) = elim (Bool-cases (str_eq (to_unary (suc n)) "")) [
  | inl h ↦ absurd (omega (arith, ap marks ((eq_iff (to_unary (suc n)) "").0 h)))
  | inr h ↦ h
]

abbrev pub unary_dates : DateTexts
unary_dates = record {
  to_iso = to_unary;
  parse = of_unary;
  parse-to_iso = of_unary-to_unary;
  to_iso-ne = to_unary-ne;
}

abbrev pub empty_storage : Storage
empty_storage = record { blocked = false; full = false; token = none; expires = none }

abbrev pub fresh : Session
fresh = record {
  access_token = none;
  token_expires_at = none;
  storage = empty_storage;
  channel_open = true;
  posted = [];
}
