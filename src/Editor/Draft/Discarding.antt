-- ===== src/Editor/Draft/Discarding.antt =====
-- What a flush and a discard leave, over any run of changes, timers, flushes and discards.
use memos_note.Common.{
  Bool-cases, Option-cases, all, Text, ◌≡◌, refl, sym, ap, ◌∙◌, inl, inr, true, none, some, List,
  [], ◌∷◌,
}
use memos_note.Editor.Draft.{Drafts, AutoSave, is_discarded, persist, flush_draft, discard_draft}
use memos_note.Editor.Draft.Timers.{IsKeyed}
use memos_note.Editor.Draft.View.{saves_now, view, view-apply}
use memos_note.Editor.Draft.Wishes.{
  Action, changes, flushes, discards, runs_timer, Wish, wish, wishes, is_idle, view_of, wanted_view,
  if_self, landed, perform, perform_all, Agrees, persist-Agrees, discards-Agrees, flushes-Agrees,
  runs_timer-Agrees, perform-Agrees,
}

module _ (key : Text) where
  -- The hook is mounted over some drafts with the editor's content.
  abbrev pub mount : Text → Drafts → AutoSave
  mount c d = persist key c (record { latest_content = c; discarded_content = none; drafts = d })

  abbrev pub first_wish : Text → Wish
  first_wish c = record { latest = c; wanted = some c }

  perform_all-Agrees :
      (es : List Action) (c : Text) (d : Drafts)
      → IsKeyed d
      → Agrees key (perform_all key es (mount c d)) (wishes es (first_wish c))
  unfolding is_discarded
  perform_all-Agrees es c d k = go es (mount c d) (first_wish c) (persist-Agrees key _ c k refl)
    where
      go :
          (es : List Action) (a : AutoSave) (w : Wish)
          → Agrees key a w
          → Agrees key (perform_all key es a) (wishes es w)
      go [] a w r = r
      go (e ∷ es) a w r = go es (perform key e a) (wish e w) (perform-Agrees key e a w r)

  flushed-quiet :
      (a : AutoSave) (w : Wish)
      → Agrees key a w
      → (view (flush_draft key a).drafts key).coming ≡ none
  unfolding flush_draft is_discarded
  flushed-quiet a w r = elim (Bool-cases (is_discarded a.discarded_content a.latest_content)) [
    | inl h ↦ rw h (elim (Option-cases a.discarded_content) [
      | inl e ↦
          let q : is_discarded none a.latest_content ≡ true =
            ap (λ o. is_discarded o a.latest_content) (sym e) ∙ h in
          absurd (never q)
      | inr (d, e) ↦ r.quiet (rw e refl)
    ])
    | inr h ↦ rw h (
        ap (λ u. u.coming)
          ((view-apply (saves_now key a.latest_content) a.drafts key r.keyed).1 ∙ if_self key _))
  ]
    where
      never : is_discarded none a.latest_content ≡ true → ⊥
      never q = cc

  -- Mounted over drafts whose timers are those of their pending saves, and whatever is then done:
  -- a flush leaves no timer for the key, and leaves in storage the content that the writer wants
  -- kept, or no entry when that is blank or was discarded.
  pub flush_draft-perform_all :
      (es : List Action) (c : Text) (d : Drafts)
      → IsKeyed d
      → view (flush_draft key (perform_all key es (mount c d))).drafts key
        ≡ wanted_view (wishes es (first_wish c))
  flush_draft-perform_all es c d k =
      let a = perform_all key es (mount c d) in
      let w = wishes es (first_wish c) in
      let r = perform_all-Agrees es c d k in
      landed (view (flush_draft key a).drafts key) (flushed-quiet a w r)
      ∙ (flushes-Agrees key a w r).lands

  idle-Agrees :
      (es : List Action) (a : AutoSave) (w : Wish)
      → all is_idle es ≡ true
      → Agrees key a w
      → Agrees key (perform_all key es a) w
  idle-Agrees [] a w h r = r
  idle-Agrees (flushes ∷ es) a w h r = idle-Agrees es _ w h (flushes-Agrees key a w r)
  idle-Agrees (runs_timer i ∷ es) a w h r = idle-Agrees es _ w h (runs_timer-Agrees key a w i r)
  idle-Agrees (changes c ∷ es) a w h r = cc
  idle-Agrees (discards ∷ es) a w h r = cc

  unwanted-view :
      (a : AutoSave) (w : Wish)
      → Agrees key a w
      → w.wanted ≡ none
      → view a.drafts key ≡ record { coming = none; stored = none }
  unwanted-view a w r h =
      landed (view a.drafts key) (
        r.quiet (elim (Option-cases a.discarded_content) [
          | inl e ↦ let q : w.wanted ≡ some a.latest_content = r.wanted ∙ rw e refl in cc
          | inr (d, e) ↦ rw e refl
        ]))
      ∙ (r.lands ∙ ap view_of h)

  -- Mounted over drafts whose timers are those of their pending saves, and whatever is then done: a
  -- draft that is discarded is not in storage, and no timer or flush after that brings it back.
  pub perform_all-discards :
      (es : List Action) (rest : List Action) (c : Text) (d : Drafts)
      → IsKeyed d
      → all is_idle rest ≡ true
      → view (perform_all key rest (discard_draft key (perform_all key es (mount c d)))).drafts key
        ≡ record { coming = none; stored = none }
  perform_all-discards es rest c d k h =
      let a = perform_all key es (mount c d) in
      let w = wishes es (first_wish c) in
      unwanted-view _ (wish discards w)
        (idle-Agrees rest _ (wish discards w) h
          (discards-Agrees key a w (perform_all-Agrees es c d k)))
        refl
