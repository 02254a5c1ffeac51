-- ===== src/Filters/Context/Reading.antt =====
-- What is printed of filters is read back as they were.
use memos_note.Common.{
  ◌==◌, Bool-cases, neither, get_or_else, All, map_option, Text, join, cons_piece, split,
  any-append, has_char, split-no_char, split-line, split-single, split-join, ℕ, ◌≡◌, refl, sym, ap,
  ap₂, ◌∙◌, inl, inr, Bool, true, false, ◌||◌, Option, none, some, some-injective, List, [], ◌∷◌,
  ◌++◌, map,
}
use memos_note.Filters.Context.{
  comma, colon, MemoFilter, printed, stringify_filters, parse_parts, cons_parsed, parse_pieces,
  parse_filter_query,
}

-- A factor without the characters that separate, as all those of the code.
abbrev pub IsPlain : MemoFilter → Type 0
IsPlain f = (has_char comma f.factor ≡ false) × (has_char colon f.factor ≡ false)

split-has_char :
    (d c : ℕ) (s : Text) → has_char c s ≡ false → All (λ l. has_char c l ≡ false) (split d s)
split-has_char d c [] h = (refl, tt)
split-has_char d c (a ∷ s) h =
    let (e, k) = neither (a == c) (has_char c s) h in
    elim (Bool-cases (a == d)) [
      | inl q ↦ rw q (refl, split-has_char d c s k)
      | inr q ↦ rw q (longer (split d s) e (split-has_char d c s k))
    ]
  where
    longer :
        (ls : List Text)
        → (a == c) ≡ false
        → All (λ l. has_char c l ≡ false) ls
        → All (λ l. has_char c l ≡ false) (cons_piece a ls)
    longer [] e h = (rw e refl, tt)
    longer (l ∷ ls) e (h, k) = (rw e h, k)

with_factor :
    (a : Text) (o : Option Text) (f : MemoFilter)
    → has_char comma a ≡ false
    → has_char colon a ≡ false
    → map_option {B = MemoFilter} (λ v. record { factor = a; value = v }) o ≡ some f
    → IsPlain f
with_factor a none f h k e = cc
with_factor a (some v) f h k e = rw (sym (some-injective _ f e)) (h, k)

module _ (encode : Text → Text) (decode : Text → Option Text) where
  parse_parts-IsPlain :
      (parts : List Text) (f : MemoFilter)
      → All (λ l. has_char comma l ≡ false) parts
      → All (λ l. has_char colon l ≡ false) parts
      → parse_parts encode decode parts ≡ some f
      → IsPlain f
  unfolding parse_parts
  parse_parts-IsPlain [] f h k e = cc
  parse_parts-IsPlain (a ∷ []) f (h, _) (k, _) e = with_factor a (decode []) f h k e
  parse_parts-IsPlain (a ∷ b ∷ _) f (h, _) (k, _) e = with_factor a (decode b) f h k e

  parse_pieces-IsPlain :
      (pieces : List Text) (fs : List MemoFilter)
      → All (λ l. has_char comma l ≡ false) pieces
      → parse_pieces encode decode pieces ≡ some fs
      → All IsPlain fs
  unfolding parse_pieces
  parse_pieces-IsPlain [] fs h e = rw (sym (some-injective [] fs e)) tt
  parse_pieces-IsPlain (s ∷ ss) fs (h, hs) e =
      go (parse_parts encode decode (split colon s)) (parse_pieces encode decode ss) refl refl e
        (λ gs. parse_pieces-IsPlain ss gs hs)
    where
      go :
          (o : Option MemoFilter) (p : Option (List MemoFilter))
          → parse_parts encode decode (split colon s) ≡ o
          → parse_pieces encode decode ss ≡ p
          → cons_parsed encode decode o p ≡ some fs
          → ((gs : List MemoFilter) → parse_pieces encode decode ss ≡ some gs → All IsPlain gs)
          → All IsPlain fs
      go none p a b e r = cc
      go (some f) none a b e r = cc
      go (some f) (some gs) a b e r = rw (sym (some-injective (f ∷ gs) fs e)) (
        parse_parts-IsPlain (split colon s) f (split-has_char colon comma s h)
            (split-no_char colon s) a,
        r gs b,
      )

  pub parse_filter_query-IsPlain :
      (query : Text) → All IsPlain (parse_filter_query encode decode query)
  unfolding parse_filter_query
  parse_filter_query-IsPlain [] = tt
  parse_filter_query-IsPlain (c ∷ query) =
      go (parse_pieces encode decode (split comma (c ∷ query))) refl
    where
      go :
          (o : Option (List MemoFilter))
          → parse_pieces encode decode (split comma (c ∷ query)) ≡ o
          → All IsPlain (get_or_else o [])
      go none e = tt
      go (some fs) e =
          parse_pieces-IsPlain (split comma (c ∷ query)) fs (split-no_char comma (c ∷ query)) e

  module _ (decode-encode : (s : Text) → decode (encode s) ≡ some s)
      (encode-comma : (s : Text) → has_char comma (encode s) ≡ false)
      (encode-colon : (s : Text) → has_char colon (encode s) ≡ false) where
    parse_parts-printed :
        (f : MemoFilter)
        → IsPlain f
        → parse_parts encode decode (split colon (printed encode decode f)) ≡ some f
    unfolding parse_parts
    parse_parts-printed f (h, k) =
        ap (parse_parts encode decode) (
          split-line colon f.factor (encode f.value) k
          ∙ ap (λ r. f.factor ∷ r) (split-single colon (encode f.value) (encode-colon f.value)))
        ∙ ap (map_option (λ v. record { factor = f.factor; value = v })) (decode-encode f.value)

    parse_pieces-printed :
        (fs : List MemoFilter)
        → All IsPlain fs
        → parse_pieces encode decode (map (printed encode decode) fs) ≡ some fs
    unfolding parse_pieces
    parse_pieces-printed [] h = refl
    parse_pieces-printed (f ∷ fs) (h, hs) =
        ap₂ cons_both (parse_parts-printed f h) (parse_pieces-printed fs hs)
      where
        cons_both : Option MemoFilter → Option (List MemoFilter) → Option (List MemoFilter)
        cons_both = cons_parsed encode decode

    printed-comma : (f : MemoFilter) → IsPlain f → has_char comma (printed encode decode f) ≡ false
    printed-comma f (h, k) =
        any-append _ f.factor (colon ∷ encode f.value) ∙ rw h (encode-comma f.value)

    plain_comma :
        (fs : List MemoFilter)
        → All IsPlain fs
        → All (λ l. has_char comma l ≡ false) (map (printed encode decode) fs)
    plain_comma [] h = tt
    plain_comma (f ∷ fs) (h, hs) = (printed-comma f h, plain_comma fs hs)

    -- What has a colon is not empty.
    parse_filter_query-some :
        (s : Text)
        → has_char colon s ≡ true
        → parse_filter_query encode decode s
          ≡ get_or_else (parse_pieces encode decode (split comma s)) []
    unfolding parse_filter_query
    parse_filter_query-some [] h = cc
    parse_filter_query-some (c ∷ s) h = refl

    printed-colon : (f : MemoFilter) → has_char colon (printed encode decode f) ≡ true
    printed-colon f =
        any-append _ f.factor (colon ∷ encode f.value) ∙ or_true (has_char colon f.factor)
      where
        or_true : (x : Bool) → (x || true) ≡ true
        or_true true = refl
        or_true false = refl

    join-colon :
        (s : Text) (ss : List Text)
        → has_char colon s ≡ true
        → has_char colon (join (comma ∷ []) (s ∷ ss)) ≡ true
    join-colon s [] h = h
    join-colon s (t ∷ ss) h =
        any-append _ (s ++ comma ∷ []) (join (comma ∷ []) (t ∷ ss))
        ∙ ap (λ b. b || has_char colon (join (comma ∷ []) (t ∷ ss)))
            (any-append _ s (comma ∷ []) ∙ ap (λ b. b || false) h)

    -- If decoding takes back encoding, and what is encoded has no comma and no colon: filters of any
    -- values are read back as they were printed.
    pub parse_filter_query-stringify_filters :
        (fs : List MemoFilter)
        → All IsPlain fs
        → parse_filter_query encode decode (stringify_filters encode decode fs) ≡ fs
    unfolding stringify_filters parse_filter_query
    parse_filter_query-stringify_filters [] h = refl
    parse_filter_query-stringify_filters (f ∷ fs) h =
        parse_filter_query-some
          (join (comma ∷ []) (printed encode decode f ∷ map (printed encode decode) fs))
          (join-colon (printed encode decode f) (map (printed encode decode) fs) (printed-colon f))
        ∙ ap (λ o. get_or_else o [])
            (ap (parse_pieces encode decode) (
                split-join comma (printed encode decode f) (map (printed encode decode) fs)
                  (plain_comma (f ∷ fs) h))
              ∙ parse_pieces-printed (f ∷ fs) h)
