-- ===== src/Live/Stream/Chunks.antt =====
-- However the stream is cut into chunks, the messages are those of the whole text.
use memos_note.Common.{
  ◌==◌, if◌then◌else◌, Bool-cases, Text, cons_piece, concat, ℕ, ◌≡◌, refl, sym, ap, ◌∙◌, inl, inr,
  false, ◌&&◌, Option, List, [], ◌∷◌, ◌++◌, append-nil, append_assoc,
}
use memos_note.Live.Stream.{
  newline, split_messages, pop, receive, receive_all, ChangeEvent, events_of_message,
  events_of_messages,
}

-- The pieces of a text are never none.
abbrev IsFull : List Text → Type 0
IsFull ms = (m : Text) × (rest : List Text) × (ms ≡ m ∷ rest)

split_messages-IsFull : (s : Text) → IsFull (split_messages s)
unfolding split_messages
split_messages-IsFull [] = ([], [], refl)
split_messages-IsFull (a ∷ []) = ((a ∷ []), [], refl)
split_messages-IsFull (a ∷ b ∷ s) = elim (Bool-cases ((a == newline) && (b == newline))) [
  | inl h ↦ ([], split_messages s, rw h refl)
  | inr h ↦ let (m, rest, e) = split_messages-IsFull (b ∷ s) in ((a ∷ m), rest, rw h (rw e refl))
]

pop-cons : (m : Text) (ms : List Text) → IsFull ms → pop (m ∷ ms) ≡ (m ∷ (pop ms).0, (pop ms).1)
unfolding pop
pop-cons m ms (n, rest, e) = rw e refl

pop-cons_piece :
    (a : ℕ) (ms : List Text) (m n : Text) (rest : List Text)
    → ms ≡ m ∷ n ∷ rest
    → pop (cons_piece a ms) ≡ (((a ∷ m) ∷ (pop (n ∷ rest)).0), (pop (n ∷ rest)).1)
unfolding pop
pop-cons_piece a ms m n rest e = rw e refl

first_piece : List Text → Text
first_piece [] = []
first_piece (m ∷ _) = m

other_pieces : List Text → List Text
other_pieces [] = []
other_pieces (_ ∷ ms) = ms

other_pieces-cons_piece :
    (a : ℕ) (ms : List Text) → other_pieces (cons_piece a ms) ≡ other_pieces ms
unfolding other_pieces
other_pieces-cons_piece a [] = refl
other_pieces-cons_piece a (m ∷ ms) = refl

first_piece-cons_piece :
    (a : ℕ) (ms : List Text) → first_piece (cons_piece a ms) ≡ a ∷ first_piece ms
unfolding first_piece
first_piece-cons_piece a [] = refl
first_piece-cons_piece a (m ∷ ms) = refl

-- A text that is one piece is that piece.
split_messages-single :
    (s : Text) → other_pieces (split_messages s) ≡ [] → first_piece (split_messages s) ≡ s
unfolding split_messages first_piece other_pieces
split_messages-single [] h = refl
split_messages-single (a ∷ []) h = refl
split_messages-single (a ∷ b ∷ s) h = elim (Bool-cases ((a == newline) && (b == newline))) [
  | inl e ↦
      let (m, rest, f) = split_messages-IsFull s in
      let nothing : split_messages s ≡ [] =
        ap
          (λ t.
            other_pieces
              (if t then [] ∷ split_messages s else cons_piece a (split_messages (b ∷ s))))
          (sym e)
        ∙ h in
      cc
  | inr e ↦
      let along = split_messages (b ∷ s) in
      let alone : other_pieces along ≡ [] =
        sym (other_pieces-cons_piece a along)
        ∙ (ap (λ t. other_pieces (if t then [] ∷ split_messages s else cons_piece a along)) (sym e)
            ∙ h) in
      rw e (first_piece-cons_piece a along ∙ ap (λ r. a ∷ r) (split_messages-single (b ∷ s) alone))
]

-- What is split of a text that is continued: the complete messages, and then what is split of the
-- rest with the continuation.
split_messages-append :
    (s t : Text)
    → split_messages (s ++ t)
      ≡ (pop (split_messages s)).0 ++ split_messages ((pop (split_messages s)).1 ++ t)
unfolding split_messages pop first_piece other_pieces
split_messages-append [] t = refl
split_messages-append (a ∷ []) t = refl
split_messages-append (a ∷ b ∷ s) t = elim (Bool-cases ((a == newline) && (b == newline))) [
  | inl e ↦ rw e (
      rw (pop-cons [] (split_messages s) (split_messages-IsFull s))
        (ap (λ r. [] ∷ r) (split_messages-append s t)))
  | inr e ↦ rest_of (split_messages-IsFull (b ∷ s)) e (split_messages-append (b ∷ s) t)
]
  where
    resumed : List Text → List Text
    resumed ms = (pop ms).0 ++ split_messages ((pop ms).1 ++ t)

    passed :
        (u : Text)
        → ((a == newline) && (b == newline)) ≡ false
        → split_messages (a ∷ b ∷ u) ≡ cons_piece a (split_messages (b ∷ u))
    passed u e = rw e refl

    rest_of :
        IsFull (split_messages (b ∷ s))
        → ((a == newline) && (b == newline)) ≡ false
        → split_messages ((b ∷ s) ++ t) ≡ resumed (split_messages (b ∷ s))
        → split_messages (a ∷ b ∷ (s ++ t)) ≡ resumed (split_messages (a ∷ b ∷ s))
    rest_of (m, [], f) e ih =
        let whole : split_messages (a ∷ b ∷ s) ≡ (a ∷ m) ∷ [] = passed s e ∙ ap (cons_piece a) f in
        let m-all : m ≡ b ∷ s =
          ap first_piece (sym f) ∙ split_messages-single (b ∷ s) (ap other_pieces f) in
        ap (λ u. split_messages ((a ∷ u) ++ t)) (sym m-all) ∙ ap resumed (sym whole)
    rest_of (m, n ∷ r, f) e ih =
        let whole : split_messages (a ∷ b ∷ s) ≡ (a ∷ m) ∷ n ∷ r =
          passed s e ∙ ap (cons_piece a) f in
        passed (s ++ t) e ∙ (ap (cons_piece a) (ih ∙ ap resumed f) ∙ ap resumed (sym whole))

IsFull-append : (ms ns : List Text) → IsFull ns → IsFull (ms ++ ns)
IsFull-append [] ns f = f
IsFull-append (m ∷ ms) ns f = (m, (ms ++ ns), refl)

pop-append : (ms ns : List Text) → IsFull ns → pop (ms ++ ns) ≡ (ms ++ (pop ns).0, (pop ns).1)
pop-append [] ns f = refl
pop-append (m ∷ ms) ns f =
    pop-cons m (ms ++ ns) (IsFull-append ms ns f) ∙ ap (λ r. (m ∷ r.0, r.1)) (pop-append ms ns f)

-- After a text that was received, what its continuation in chunks gives with what it gave.
continued :
    (chunks : List Text) (s : Text)
    → (
      (pop (split_messages s)).0 ++ (receive_all chunks (pop (split_messages s)).1).0,
      (receive_all chunks (pop (split_messages s)).1).1,
    )
      ≡ pop (split_messages (s ++ concat chunks))
unfolding receive_all receive
continued [] s = rw (append-nil (pop (split_messages s)).0) (rw (append-nil s) refl)
continued (c ∷ chunks) s =
    ap (λ r. ((pop (split_messages s)).0 ++ r.0, r.1))
      (continued chunks ((pop (split_messages s)).1 ++ c))
    ∙ (ap
          (λ u.
            ((pop (split_messages s)).0 ++ (pop (split_messages u)).0, (pop (split_messages u)).1))
          (append_assoc (pop (split_messages s)).1 c (concat chunks))
        ∙ sym (
            ap pop (split_messages-append s (c ++ concat chunks))
            ∙ pop-append (pop (split_messages s)).0 _ (split_messages-IsFull _)))

module _ (parse : Text → Option ChangeEvent) where
  pub events_of_messages-append :
      (ms ns : List Text)
      → events_of_messages parse (ms ++ ns)
        ≡ events_of_messages parse ms ++ events_of_messages parse ns
  unfolding events_of_messages
  events_of_messages-append [] ns = refl
  events_of_messages-append (m ∷ ms) ns =
      ap (λ r. events_of_message parse m ++ r) (events_of_messages-append ms ns)
      ∙ sym (
          append_assoc (events_of_message parse m) (events_of_messages parse ms)
            (events_of_messages parse ns))

-- However a stream is cut into chunks: the messages that are taken off it, and what stays in the
-- buffer, are those of the whole text at once.
pub receive_all-concat :
    (chunks : List Text) → receive_all chunks [] ≡ pop (split_messages (concat chunks))
unfolding pop split_messages
receive_all-concat chunks = continued chunks []
