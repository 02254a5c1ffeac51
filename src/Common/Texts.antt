-- ===== src/Common/Texts.antt =====
-- Texts as lists of character codes, with the operations of a script's strings on them.
use Prim.Native.Nat.{ℕ, zero, suc}
use Prim.Native.Char.{code}
use Prim.Native.String.{String}
use mathlib.Core.Path.{◌≡◌, refl, sym}
use mathlib.Core.Logic.{◌↔◌, ◌⊎◌, inl, inr}
use mathlib.Core.Bool.{Bool, true, false, ◌&&◌, ◌||◌}
use mathlib.Core.Option.{Option, none, some}
use mathlib.Core.List.{List, [], ◌∷◌, ◌++◌, append_assoc}
use native.Mathlib.Omega.{arith}
use memos_note.Common.Bools.{any, all}
use memos_note.Common.Tests.{leb, ◌==◌, if◌then◌else◌}

abbrev pub Text : Type 0
Text = List ℕ

-- The codes of a literal.
abbrev pub codes : String → Text
codes String.[] = []
codes (String.◌∷◌ c s) = code c ∷ codes s

abbrev pub text_eq : Text → Text → Bool
text_eq [] [] = true
text_eq [] (_ ∷ _) = false
text_eq (_ ∷ _) [] = false
text_eq (a ∷ s) (b ∷ t) = (a == b) && text_eq s t

pub text_eq_sound : (s t : Text) → text_eq s t ≡ true → s ≡ t
text_eq_sound [] [] h = refl
text_eq_sound [] (b ∷ t) h = cc
text_eq_sound (a ∷ s) [] h = cc
text_eq_sound (a ∷ s) (b ∷ t) h = ground (arith, text_eq_sound s t)

pub text_eq_refl : (s : Text) → text_eq s s ≡ true
text_eq_refl [] = refl
text_eq_refl (a ∷ s) = ground (arith, text_eq_refl s)

pub text_eq_iff : (s t : Text) → (text_eq s t ≡ true) ↔ (s ≡ t)
text_eq_iff s t = (text_eq_sound s t, λ e. rw e (text_eq_refl t))

-- `s.startsWith(p)`
abbrev pub starts_with : Text → Text → Bool
starts_with s [] = true
starts_with [] (_ ∷ _) = false
starts_with (a ∷ s) (b ∷ p) = (a == b) && starts_with s p

-- `join(separator)`
abbrev pub join : Text → List Text → Text
join sep [] = []
join sep (s ∷ []) = s
join sep (s ∷ t ∷ ts) = s ++ sep ++ join sep (t ∷ ts)

-- The first piece of a text that is cut at a character, and the later ones.
abbrev pub cons_piece : ℕ → List Text → List Text
cons_piece c [] = (c ∷ []) ∷ []
cons_piece c (s ∷ ts) = (c ∷ s) ∷ ts

-- `s.split(c)` for one character `c`
abbrev pub split : ℕ → Text → List Text
split c [] = [] ∷ []
split c (a ∷ s) = let rest = split c s in if a == c then [] ∷ rest else cons_piece a rest

abbrev pub concat : List Text → Text
concat [] = []
concat (s ∷ ts) = s ++ concat ts

pub concat-append : (ss ts : List Text) → concat (ss ++ ts) ≡ concat ss ++ concat ts
concat-append [] ts = refl
concat-append (s ∷ ss) ts = rw (concat-append ss ts) (sym (append_assoc s (concat ss) (concat ts)))

pub split-ne-nil : (c : ℕ) (s : Text) → (p : Text) × (ps : List Text) × (split c s ≡ p ∷ ps)
split-ne-nil c [] = ([], [], refl)
split-ne-nil c (a ∷ s) =
    let (p, ps, e) = split-ne-nil c s in
    elim (Bool-split (a == c)) [
      | inl h ↦ ([], split c s, ground arith)
      | inr h ↦ ((a ∷ p), ps, ground arith)
    ]
  where
    Bool-split : (b : Bool) → (b ≡ true) ⊎ (b ≡ false)
    Bool-split true = inl refl
    Bool-split false = inr refl

-- `s.slice(start, end)` for offsets that are not negative
abbrev pub slice : Text → ℕ → ℕ → Text
slice [] start end = []
slice (a ∷ s) start zero = []
slice (a ∷ s) zero (suc end) = a ∷ slice s zero end
slice (a ∷ s) (suc start) (suc end) = slice s start end

abbrev pub get_last? : Text → Option ℕ
get_last? [] = none
get_last? (a ∷ []) = some a
get_last? (_ ∷ b ∷ s) = get_last? (b ∷ s)

abbrev pub is_char : ℕ → Option ℕ → Bool
is_char c none = false
is_char c (some d) = d == c

-- `\s` of a regular expression, and what `trim` takes away.
abbrev pub is_space : ℕ → Bool
is_space c =
    (c == 32)
    || (c == 9)
    || (c == 10)
    || (c == 11)
    || (c == 12)
    || (c == 13)
    || (c == 0xa0)
    || (c == 0x1680)
    || (leb 0x2000 c && leb c 0x200a)
    || (c == 0x2028)
    || (c == 0x2029)
    || (c == 0x202f)
    || (c == 0x205f)
    || (c == 0x3000)
    || (c == 0xfeff)

-- `!s.trim()`
abbrev pub is_blank : Text → Bool
is_blank [] = true
is_blank (c ∷ s) = is_space c && is_blank s

-- The longest start of a text whose characters pass a test, and the rest.
abbrev pub span : (ℕ → Bool) → Text → Text × Text
span p [] = ([], [])
span p (a ∷ s) = let (u, v) = span p s in if p a then (a ∷ u, v) else ([], a ∷ s)

pub span-append_parts : (p : ℕ → Bool) (s : Text) → (span p s).0 ++ (span p s).1 ≡ s
span-append_parts p [] = refl
span-append_parts p (a ∷ s) = ground (arith, span-append_parts p s)

pub span-all : (p : ℕ → Bool) (s : Text) → all p (span p s).0 ≡ true
span-all p [] = refl
span-all p (a ∷ s) = ground (arith, span-all p s)

abbrev pub begins : (ℕ → Bool) → Text → Bool
begins p [] = false
begins p (a ∷ s) = p a

pub span-append :
    (p : ℕ → Bool) (u v : Text) → all p u ≡ true → begins p v ≡ false → span p (u ++ v) ≡ (u, v)
span-append p [] [] h k = refl
span-append p [] (b ∷ v) h k = rw k refl
span-append p (a ∷ u) v h k = ground (arith, span-append p u v)

pub begins-span : (p : ℕ → Bool) (s : Text) → begins p (span p s).1 ≡ false
begins-span p [] = refl
begins-span p (a ∷ s) = ground (arith, begins-span p s)

-- A test that no character of a text passes, and that the rest passes as the whole.
pub any-append : (p : ℕ → Bool) (u v : Text) → any p (u ++ v) ≡ (any p u || any p v)
any-append p [] v = refl
any-append p (a ∷ u) v = ground (arith, any-append p u v)

pub span-append_rest :
    (p : ℕ → Bool) (u v : Text) → all p u ≡ true → (span p (u ++ v)).1 ≡ (span p v).1
span-append_rest p [] v h = refl
span-append_rest p (a ∷ u) v h = ground (arith, span-append_rest p u v)

pub any-span : (p q : ℕ → Bool) (s : Text) → any q s ≡ false → any q (span p s).1 ≡ false
any-span p q [] h = refl
any-span p q (a ∷ s) h = ground (arith, any-span p q s)
