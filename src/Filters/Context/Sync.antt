-- ===== src/Filters/Context/Sync.antt =====
-- The address and the filters come into step.
use memos_note.Common.{
  if◌then◌else◌, Bool-cases, All, Text, text_eq, text_eq_sound, text_eq_refl, has_char, ◌≡◌, refl,
  sym, ap, ◌∙◌, inl, inr, Bool, true, false, ◌||◌, Option, some, List, [], ◌∷◌,
}
use memos_note.Filters.Context.{
  comma, colon, MemoFilter, stringify_filters, parse_filter_query, Synced, sync_from_url,
  sync_to_url, commit,
}
use memos_note.Filters.Context.Reading.{
  IsPlain, parse_filter_query-IsPlain, parse_filter_query-stringify_filters,
}

module _ (encode : Text → Text) (decode : Text → Option Text)
    (decode-encode : (s : Text) → decode (encode s) ≡ some s)
    (encode-comma : (s : Text) → has_char comma (encode s) ≡ false)
    (encode-colon : (s : Text) → has_char colon (encode s) ≡ false) where
  read : Text → List MemoFilter
  read = parse_filter_query encode decode

  print : List MemoFilter → Text
  print = stringify_filters encode decode

  read-print : (fs : List MemoFilter) → All IsPlain fs → read (print fs) ≡ fs
  unfolding read print
  read-print fs h =
      parse_filter_query-stringify_filters encode decode decode-encode encode-comma encode-colon fs
        h

  -- Both effects have nothing to do, and the address stands for the filters.
  pub record IsSettled (s : Synced encode decode) : Type 0 where
    pub settled : commit encode decode s ≡ s
    pub agrees : parse_filter_query encode decode s.url ≡ s.state

  -- The texts that were handled last stand for the same filters.
  record IsAlike (s : Synced encode decode) : Type 0 where
    plain : All IsPlain s.state
    alike : read s.last_synced_store ≡ read s.last_synced_url

  matches : List MemoFilter → Synced encode decode → Bool
  matches fs s = text_eq (print fs) s.last_synced_store || text_eq (print fs) s.last_synced_url

  written : List MemoFilter → Synced encode decode → Synced encode decode
  written fs s = record s {
    last_synced_store = print fs;
    url = print fs;
    last_synced_url = print fs;
  }

  taken : Synced encode decode → Synced encode decode
  taken s = record s {
    last_synced_url = s.url;
    state = read s.url;
    last_synced_store = print (read s.url);
  }

  from_url_lem :
      (s : Synced encode decode)
      → sync_from_url encode decode s ≡ (if text_eq s.url s.last_synced_url then s else taken s)
  unfolding sync_from_url taken print read
  from_url_lem s = refl

  to_url_lem :
      (fs : List MemoFilter) (s : Synced encode decode)
      → sync_to_url encode decode fs s ≡ (if matches fs s then s else written fs s)
  unfolding sync_to_url written matches print
  to_url_lem fs s = refl

  commit_lem :
      (s : Synced encode decode)
      → commit encode decode s ≡ sync_to_url encode decode s.state (sync_from_url encode decode s)
  unfolding commit
  commit_lem s = refl

  commit-handled :
      (s : Synced encode decode)
      → text_eq s.url s.last_synced_url ≡ true
      → commit encode decode s ≡ sync_to_url encode decode s.state s
  commit-handled s h =
      commit_lem s
      ∙ ap (sync_to_url encode decode s.state)
          (from_url_lem s ∙ ap (λ b. if b then s else taken s) h)

  -- Where the filters match what was handled.
  matches-IsSettled :
      (s : Synced encode decode)
      → text_eq s.url s.last_synced_url ≡ true
      → IsAlike s
      → matches s.state s ≡ true
      → IsSettled s
  unfolding matches read print
  matches-IsSettled s h a m = record {
    settled =
        commit-handled s h
        ∙ (to_url_lem s.state s ∙ ap (λ b. if b then s else written s.state s) m);
    agrees = ap read (text_eq_sound s.url s.last_synced_url h) ∙ same;
  }
    where
      same : read s.last_synced_url ≡ s.state
      same = elim (Bool-cases (text_eq (print s.state) s.last_synced_store)) [
        | inl e ↦
            sym a.alike
            ∙ (ap read (sym (text_eq_sound (print s.state) s.last_synced_store e))
                ∙ read-print s.state a.plain)
        | inr e ↦
            ap read (
              sym (
                text_eq_sound (print s.state) s.last_synced_url
                  (ap (λ b. b || text_eq (print s.state) s.last_synced_url) (sym e) ∙ m)))
            ∙ read-print s.state a.plain
      ]

  written-IsSettled : (s : Synced encode decode) → IsAlike s → IsSettled (written s.state s)
  unfolding written matches
  written-IsSettled s a =
      matches-IsSettled (written s.state s) (text_eq_refl (print s.state))
        (record { plain = a.plain; alike = refl })
        (ap (λ b. b || text_eq (print s.state) (print s.state)) (text_eq_refl (print s.state)))

  to_url-IsSettled :
      (s : Synced encode decode)
      → text_eq s.url s.last_synced_url ≡ true
      → IsAlike s
      → IsSettled (sync_to_url encode decode s.state s)
  to_url-IsSettled s h a = elim (Bool-cases (matches s.state s)) [
    | inl m ↦
        rw (to_url_lem s.state s ∙ ap (λ b. if b then s else written s.state s) m)
          (matches-IsSettled s h a m)
    | inr m ↦
        rw (to_url_lem s.state s ∙ ap (λ b. if b then s else written s.state s) m)
          (written-IsSettled s a)
  ]

  -- After one commit the address was handled.
  record IsHandled (s t : Synced encode decode) : Type 0 where
    handled : text_eq t.url t.last_synced_url ≡ true
    still_alike : IsAlike t
    kept : t.state ≡ (if text_eq s.url s.last_synced_url then s.state else read s.url)

  commit-IsHandled : (s : Synced encode decode) → IsAlike s → IsHandled s (commit encode decode s)
  unfolding taken written read
  commit-IsHandled s a = elim (Bool-cases (text_eq s.url s.last_synced_url)) [
    | inl h ↦
        rw (start h s (ap (λ b. if b then s else taken s) h))
          (chosen s h a (ap (λ b. if b then s.state else read s.url) (sym h)))
    | inr h ↦
        let plain = parse_filter_query-IsPlain encode decode s.url in
        rw (start h (taken s) (ap (λ b. if b then s else taken s) h)) (
          chosen (taken s) (text_eq_refl s.url)
            (record { plain = plain; alike = read-print (read s.url) plain })
            (ap (λ b. if b then s.state else read s.url) (sym h)))
  ]
    where
      start :
          {b : Bool}
          → text_eq s.url s.last_synced_url ≡ b
          → (t : Synced encode decode)
          → (if text_eq s.url s.last_synced_url then s else taken s) ≡ t
          → commit encode decode s ≡ (if matches s.state t then t else written s.state t)
      start h t e =
          commit_lem s
          ∙ (ap (sync_to_url encode decode s.state) (from_url_lem s ∙ e) ∙ to_url_lem s.state t)

      chosen :
          (t : Synced encode decode)
          → text_eq t.url t.last_synced_url ≡ true
          → IsAlike t
          → t.state ≡ (if text_eq s.url s.last_synced_url then s.state else read s.url)
          → IsHandled s (if matches s.state t then t else written s.state t)
      chosen t h a k = elim (Bool-cases (matches s.state t)) [
        | inl m ↦ rw m (record { handled = h; still_alike = a; kept = k })
        | inr m ↦ rw m (record {
          handled = text_eq_refl (print s.state);
          still_alike = record { plain = a.plain; alike = refl };
          kept = k;
        })
      ]

  -- What happens between and at renderings.
  pub data Happening : Type 0 where
    filters_change : List MemoFilter → Happening
    address_changes : Text → Happening
    commits : Happening

  abbrev pub happens : Happening → Synced encode decode → Synced encode decode
  happens (filters_change fs) s = record s { state = fs }
  happens (address_changes u) s = record s { url = u }
  happens commits s = commit encode decode s

  abbrev pub run : List Happening → Synced encode decode → Synced encode decode
  run [] s = s
  run (h ∷ hs) s = run hs (happens h s)

  -- The provider is mounted at an address.
  abbrev pub mounting : Text → Synced encode decode
  mounting u = record {
    url = u;
    state = parse_filter_query encode decode u;
    last_synced_url = [];
    last_synced_store = [];
  }

  abbrev pub HasPlain : Happening → Type 0
  HasPlain (filters_change fs) = All IsPlain fs
  HasPlain _ = Unit

  happens-IsAlike :
      (h : Happening) (s : Synced encode decode) → HasPlain h → IsAlike s → IsAlike (happens h s)
  happens-IsAlike (filters_change fs) s p a = record { plain = p; alike = a.alike }
  happens-IsAlike (address_changes u) s p a = record { plain = a.plain; alike = a.alike }
  happens-IsAlike commits s p a = (commit-IsHandled s a).still_alike

  run-IsAlike :
      (hs : List Happening) (s : Synced encode decode)
      → All HasPlain hs
      → IsAlike s
      → IsAlike (run hs s)
  run-IsAlike [] s p a = a
  run-IsAlike (h ∷ hs) s (p, ps) a = run-IsAlike hs (happens h s) ps (happens-IsAlike h s p a)

  settles :
      (s : Synced encode decode)
      → IsAlike s
      → IsSettled (commit encode decode (commit encode decode s))
  settles s a =
      let i = commit-IsHandled s a in
      rw (commit-handled (commit encode decode s) i.handled)
        (to_url-IsSettled (commit encode decode s) i.handled i.still_alike)

  -- If decoding takes back encoding, and what is encoded has no comma and no colon: from the mounting at
  -- any address, whatever filters with plain factors are set, of any values, and wherever the address
  -- goes, with effects run at any time between: after the effects have run twice more, they have
  -- nothing to do, and the address stands for the filters; and when they run first, they take the
  -- filters from the address if that changed, and else leave them.
  pub run-IsSettled :
      (u : Text) (hs : List Happening)
      → All HasPlain hs
      → let s = run hs (mounting u) in
        IsSettled (commit encode decode (commit encode decode s))
        × ((commit encode decode s).state ≡ (
            if text_eq s.url s.last_synced_url
            then s.state
            else parse_filter_query encode decode s.url))
  unfolding read
  run-IsSettled u hs p =
      let a =
        run-IsAlike hs (mounting u) p
          (record { plain = parse_filter_query-IsPlain encode decode u; alike = refl }) in
      (settles (run hs (mounting u)) a, (commit-IsHandled (run hs (mounting u)) a).kept)
