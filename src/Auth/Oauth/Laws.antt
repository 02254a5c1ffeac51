-- ===== src/Auth/Oauth/Laws.antt =====
-- What is stored is given back once, to who knows its state, and in time.
use memos_note.Common.{
  ltb, if◌then◌else◌, Bool-cases, Option-cases, length, map_option, Text, text_eq, text_eq_sound,
  text_eq_refl, ℕ, ◌-◌, ◌≤◌, ◌≡◌, refl, sym, ap, ap₂, ◌∙◌, inl, inr, Bool, true, false, not, Option,
  none, some, some-injective, List, [], ◌∷◌, arith,
}
use memos_note.Auth.Oauth.{
  state_expiry_ms, OauthState, Pkce, Storage, Stored, Validated, Request, is_expired, state_data,
  result_of, removed, store_oauth_state, validate_parsed, validate_entry, validate_oauth_state,
  cleanup_parsed, cleanup_entry, cleanup_expired_oauth_state,
}

-- The calls after a sign-in was begun, each at a time.
pub data Call : Type 0 where
  validates : Text → ℕ → Call
  cleans : ℕ → Call

abbrev pub collect : Option Validated → List Validated → List Validated
collect none vs = vs
collect (some v) vs = v ∷ vs

module _ (stringify : OauthState → Text) (parse : Text → Option OauthState) where
  -- The results of calls one after another.
  abbrev pub call : Call → Storage → Storage × Option Validated
  call (validates p now) s = validate_oauth_state stringify parse p now s
  call (cleans now) s = (cleanup_expired_oauth_state stringify parse now s, none)

  abbrev pub calls : List Call → Storage → List Validated
  calls [] s = []
  calls (c ∷ cs) s = let (s', r) = call c s in collect r (calls cs s')

  empty_stays :
      (c : Call) (s : Storage)
      → s.entry ≡ none
      → ((call c s).0.entry ≡ none) × ((call c s).1 ≡ none)
  unfolding validate_oauth_state validate_entry cleanup_expired_oauth_state cleanup_entry
  empty_stays (validates p now) s h = ground (arith, h)
  empty_stays (cleans now) s h = ground (arith, h)

  validate_parsed_lem :
      (p : Text) (now : ℕ) (s : Storage) (o : Option OauthState) (v : Validated)
      → (validate_parsed stringify parse p now s o).1 ≡ some v
      → ((validate_parsed stringify parse p now s o).0.entry ≡ none)
        × ((data' : OauthState) × (o ≡ some data')
            × (data'.state ≡ p)
            × (now - data'.timestamp ≤ state_expiry_ms)
            × (v ≡ result_of data'))
  unfolding validate_parsed
  validate_parsed_lem p now s none v h = cc
  validate_parsed_lem p now s (some data') v h = elim (Bool-cases (is_expired now data')) [
    | inl e ↦ let no : ◌≡◌ {A = Option Validated} none (some v) = ap outer (sym e) ∙ h in cc
    | inr e ↦ elim (Bool-cases (text_eq data'.state p)) [
      | inr f ↦
          let no : ◌≡◌ {A = Option Validated} none (some v) =
            ap inner (sym f) ∙ (ap outer (sym e) ∙ h) in
          cc
      | inl f ↦
          let same =
            some-injective (result_of data') v (ap inner (sym f) ∙ (ap outer (sym e) ∙ h)) in
          rw e (
            rw f (
              refl,
              (data', refl, text_eq_sound data'.state p f, in_time now data'.timestamp e, sym same),
            ))
    ]
  ]
    where
      inner : Bool → Option Validated
      inner b =
          (if◌then◌else◌ {A = Storage × Option Validated} (not b) (removed s, none)
            (removed s, some (result_of data'))).1

      outer : Bool → Option Validated
      outer b =
          (if◌then◌else◌ {A = Storage × Option Validated} b (removed s, none)
            (if not (text_eq data'.state p)
              then (removed s, none)
              else (removed s, some (result_of data')))).1

      in_time :
          (now time : ℕ) → ltb state_expiry_ms (now - time) ≡ false → now - time ≤ state_expiry_ms
      in_time now time e = ground arith

  validate_entry_lem :
      (p : Text) (now : ℕ) (s : Storage) (o : Option Text) (v : Validated)
      → (validate_entry stringify parse p now s o).1 ≡ some v
      → ((validate_entry stringify parse p now s o).0.entry ≡ none)
        × ((t : Text) × (data' : OauthState) × (o ≡ some t)
            × (parse t ≡ some data')
            × (data'.state ≡ p)
            × (now - data'.timestamp ≤ state_expiry_ms)
            × (v ≡ result_of data'))
  unfolding validate_entry
  validate_entry_lem p now s none v h = cc
  validate_entry_lem p now s (some []) v h = cc
  validate_entry_lem p now s (some (c ∷ t)) v h =
      let (e, (d, f, k, l, m)) = validate_parsed_lem p now s (parse (c ∷ t)) v h in
      (e, ((c ∷ t), d, refl, f, k, l, m))

  -- A result is of the entry that was stored, to who gives its state, in time; and the entry is gone.
  pub validate_oauth_state_lem :
      (p : Text) (now : ℕ) (s : Storage) (v : Validated)
      → (validate_oauth_state stringify parse p now s).1 ≡ some v
      → ((validate_oauth_state stringify parse p now s).0.entry ≡ none)
        × ((t : Text) × (data' : OauthState) × (s.entry ≡ some t)
            × (parse t ≡ some data')
            × (data'.state ≡ p)
            × (now - data'.timestamp ≤ state_expiry_ms)
            × (v ≡ result_of data'))
  unfolding validate_oauth_state
  validate_oauth_state_lem p now s v h = validate_entry_lem p now s s.entry v h

  calls_empty : (cs : List Call) (s : Storage) → s.entry ≡ none → calls cs s ≡ []
  calls_empty [] s h = refl
  calls_empty (c ∷ cs) s h =
      let (e, n) = empty_stays c s h in
      ap (λ r. collect r (calls cs (call c s).0)) n ∙ calls_empty cs (call c s).0 e

  call_taken :
      (c : Call) (s : Storage) (v : Validated) → (call c s).1 ≡ some v → (call c s).0.entry ≡ none
  call_taken (validates p now) s v h = (validate_oauth_state_lem p now s v h).0
  call_taken (cleans now) s v h = cc

  -- From any storage, whatever calls are made with whatever states and at whatever times, also times
  -- that go back: what was stored is given back once at most.
  pub length-calls : (cs : List Call) (s : Storage) → length (calls cs s) ≤ 1
  length-calls [] s = omega arith
  length-calls (c ∷ cs) s = elim (Option-cases (call c s).1) [
    | inl n ↦
        at_most (ap length (ap (λ r. collect r (calls cs (call c s).0)) n))
          (length-calls cs (call c s).0)
    | inr (v, e) ↦
        at_most (ap length (ap₂ collect e (calls_empty cs (call c s).0 (call_taken c s v e))))
          (omega arith)
  ]
    where
      at_most : {m n : ℕ} → m ≡ n → n ≤ 1 → m ≤ 1
      at_most {m} {n} e h = omega arith

  -- If parsing takes back printing, and an empty text is no object: what was stored is given back to who
  -- gives its state in time, also after a clean-up in time.
  pub validate_oauth_state-store_oauth_state :
      (r : Request) (random : Text) (pkce : Option Pkce) (now before later : ℕ) (s : Storage)
      → parse [] ≡ none
      → parse (stringify (state_data r random pkce now)) ≡ some (state_data r random pkce now)
      → s.writable ≡ true
      → before - now ≤ state_expiry_ms
      → later - now ≤ state_expiry_ms
      → let stored = (store_oauth_state stringify parse r random pkce now s).0 in
        (validate_oauth_state stringify parse random later
          (cleanup_expired_oauth_state stringify parse before stored)).1
        ≡ some (record {
          identity_provider_name = r.identity_provider_name;
          flow_mode = r.flow_mode;
          return_url = r.return_url;
          linking_user_name = r.linking_user_name;
          code_verifier = map_option (λ p. p.verifier) pkce;
        })
  unfolding store_oauth_state validate_oauth_state validate_entry validate_parsed
      cleanup_expired_oauth_state cleanup_entry cleanup_parsed state_data result_of
  validate_oauth_state-store_oauth_state r random pkce now before later s n h w b l =
      ap
        (λ b.
          (validate_oauth_state stringify parse random later (
            cleanup_expired_oauth_state stringify parse before
              (if◌then◌else◌ {A = Storage × Option Stored} b
                (
                  record s { entry = some (stringify data') },
                  some (record {
                    state = random;
                    code_challenge = map_option (λ p. p.challenge) pkce;
                  }),
                )
                (s, none)).0)).1)
        w
      ∙ given (stringify data') h
    where
      data' : OauthState
      data' = state_data r random pkce now

      open_for : (time : ℕ) → time - now ≤ state_expiry_ms → is_expired time data' ≡ false
      open_for time k = ground (arith, k)

      given :
          (t : Text)
          → parse t ≡ some data'
          → let kept =
              cleanup_entry stringify parse before (record s { entry = some t }) (some t) in
            (validate_entry stringify parse random later kept kept.entry).1
            ≡ some (record {
              identity_provider_name = r.identity_provider_name;
              flow_mode = r.flow_mode;
              return_url = r.return_url;
              linking_user_name = r.linking_user_name;
              code_verifier = map_option (λ p. p.verifier) pkce;
            })
      given [] e = let no : ◌≡◌ {A = Option OauthState} none (some data') = sym n ∙ e in cc
      given (c ∷ t) e =
          let held : Storage = record s { entry = some (c ∷ t) } in
          let kept : cleanup_entry stringify parse before held (some (c ∷ t)) ≡ held =
            ap (cleanup_parsed stringify parse before held) e
            ∙ ap (λ b. if b then removed held else held) (open_for before b) in
          ap (λ x. (validate_entry stringify parse random later x x.entry).1) kept
          ∙ (ap (λ o. (validate_parsed stringify parse random later held o).1) e
              ∙ rw (open_for later l) (rw (text_eq_refl random) refl))
